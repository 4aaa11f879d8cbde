-- ===== src/Client/Native/Laws.antt =====
-- What the native client socket returns for each datagram, and what it keeps.
use Prim.Native.Nat.{min}
use naia_socket.Base.{
  length-take, ℕ, zero, suc, ◌≤◌, ◌≡◌, refl, sym, ◌∙◌, ap, inl, inr, none, some, List, [], ◌∷◌,
  ◌++◌, if◌then◌else◌, ◌==◌, ==_iff, Bool-cases, length, take, drop, length-append, length-drop,
  length-replicate, arith,
}
use naia_socket.Client.{Packet, message, wrapped, Received, ok, err}
use naia_socket.Client
use naia_socket.Client.Native.{
  Udp, would_block, other, Incoming, datagram, failed, NativeSocket, connected, fill, handle,
  receive, failure,
}

module _ {ℓ} {A : Type ℓ} where
  take_front : (n : ℕ) (xs ys : List A) → n ≤ length xs → take n (take n xs ++ ys) ≡ take n xs
  take_front zero xs ys h = refl
  take_front (suc n) [] ys h = absurd (omega arith)
  take_front (suc n) (x ∷ xs) ys h = ap (◌∷◌ x) (take_front n xs ys (omega arith))

  take-min : (n : ℕ) (xs : List A) → take (min (length xs) n) xs ≡ take n xs
  take-min zero xs = rw (min_zero (length xs)) refl
    where
      min_zero : (m : ℕ) → min m 0 ≡ 0
      min_zero m = omega arith
  take-min (suc n) [] = rw (min_zero' n) refl
    where
      min_zero' : (m : ℕ) → min 0 (suc m) ≡ 0
      min_zero' m = omega arith
  take-min (suc n) (x ∷ xs) = rw (min_suc (length xs)) (ap (◌∷◌ x) (take-min n xs))
    where
      min_suc : (m : ℕ) → min (suc m) (suc n) ≡ suc (min m n)
      min_suc m = omega arith

-- Behind `recv_from` the front of the buffer is the datagram, as far as it fits.
pub fill_front :
    (buffer bytes : List ℕ)
    → (take (fill buffer bytes).1 (fill buffer bytes).0 ≡ take (length buffer) bytes)
      × (length (fill buffer bytes).0 ≡ length buffer)
fill_front buffer bytes = (
  take_front (min (length bytes) (length buffer)) bytes _ (omega arith)
      ∙ take-min (length buffer) bytes,
  omega (
    arith,
    length-append {0} (take n bytes) (drop n buffer),
    length-take {0} n bytes,
    length-drop {0} n buffer,
  ),
)
  where
    n : ℕ
    n = min (length bytes) (length buffer)

payload_of :
    (bytes : List ℕ) (n : ℕ) (p : Packet)
    → ok (some (Client.new (take n bytes))) ≡ ok (some p)
    → Client.payload p ≡ take n bytes
unfolding Client.new Client.payload
payload_of bytes n p e = ground arith

-- The answer to each thing that `recv_from` finds: a datagram of the server as a packet, cut to the
-- buffer's length; one of anybody else as an error; nothing on `WouldBlock`; any other error wrapped.
abbrev pub Answer : NativeSocket → Incoming → Received
Answer self (datagram bytes address) =
    if address == self.address
    then ok (some (Client.new (take (length self.receive_buffer) bytes)))
    else err (message "Unknown sender.")
Answer self (failed would_block) = ok none
Answer self (failed (other e)) = err (wrapped e)

handle-Answer :
    (self : NativeSocket) (incoming : Incoming)
    → ((handle self incoming).0 ≡ Answer self incoming)
      × ((handle self incoming).1.address ≡ self.address)
      × ((handle self incoming).1.message_sender ≡ self.message_sender)
      × (length (handle self incoming).1.receive_buffer ≡ length self.receive_buffer)
unfolding handle failure
handle-Answer self (datagram bytes address) =
    let (front, same) = fill_front self.receive_buffer bytes in (rw front refl, refl, refl, same)
handle-Answer self (failed would_block) = (refl, refl, refl, refl)
handle-Answer self (failed (other e)) = (refl, refl, refl, refl)

Answer_packet :
    (self : NativeSocket) (incoming : Incoming) (p : Packet)
    → Answer self incoming ≡ ok (some p)
    → (bytes : List ℕ) × (incoming ≡ datagram bytes self.address)
      × (Client.payload p ≡ take (length self.receive_buffer) bytes)
Answer_packet self (datagram bytes address) p e = elim (Bool-cases (address == self.address)) [
  | inl same ↦
      let q : ok (some (Client.new (take (length self.receive_buffer) bytes))) ≡ ok (some p) =
        rw same at e in
      (
        bytes,
        ap (datagram bytes) ((==_iff address self.address).0 same),
        payload_of bytes (length self.receive_buffer) p q,
      )
  | inr other_sender ↦ cc
]
Answer_packet self (failed would_block) p e = cc
Answer_packet self (failed (other n)) p e = cc

module _ (U : Udp) where
  -- `receive` of the native socket answers a datagram of the server with a packet of the front of
  -- it that fits the buffer, a datagram of anybody else with an error, `WouldBlock` with
  -- `Ok(None)`, and any other error with that error wrapped; the address, the sender and the
  -- length of the buffer stay, and the network is the one behind the one `recv_from`.
  pub receive-Answer :
      (self : NativeSocket) (net : U.Net)
      → ((receive U self net).0 ≡ Answer self (U.recv_from net).0)
        × ((receive U self net).1.address ≡ self.address)
        × ((receive U self net).1.message_sender ≡ self.message_sender)
        × (length (receive U self net).1.receive_buffer ≡ length self.receive_buffer)
        × ((receive U self net).2 ≡ (U.recv_from net).1)
  unfolding receive
  receive-Answer self net =
      let (a, b, c, d) = handle-Answer self (U.recv_from net).0 in (a, b, c, d, refl)

  -- A packet that `receive` of a newly connected native socket returns came from the address that
  -- it was connected to, and its payload is the datagram, cut to 1472 bytes.
  pub receive_from_server :
      (server : ℕ) (net : U.Net) (p : Packet)
      → (receive U (connected server) net).0 ≡ ok (some p)
      → (bytes : List ℕ) × ((U.recv_from net).0 ≡ datagram bytes server)
        × (Client.payload p ≡ take 1472 bytes)
  unfolding connected
  receive_from_server server net p e =
      let (bytes, found, cut) =
        Answer_packet (connected server) (U.recv_from net).0 p
          (sym (receive-Answer (connected server) net).0 ∙ e) in
      (bytes, found, cut ∙ ap (λ n. take n bytes) (length-replicate {A = ℕ} 1472 0))
