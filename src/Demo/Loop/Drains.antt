-- ===== src/Demo/Loop/Drains.antt =====
-- What the message queue of client/src/impls/wasm_bindgen gives until it is empty or holds an error.
use naia_socket.Base.{
  ℕ, suc, ◌+◌, ◌≡◌, refl, ap, Option, none, some, List, [], ◌∷◌, done, arith, length,
}
use naia_socket.Client.{Packet, NaiaClientSocketError, Received, ok, err}
use naia_socket.Client.Conditioner.Laws.{Gives, stops, fails, gives}
use naia_socket.Client.Wasm.{DataChannel, wasm_socket, connected, on_message, resend}
use naia_socket.Client.Wasm
use naia_socket.Client.Wasm.History.{
  message_queue-send, message_queue-resend, receive_empty, receive_next,
}
use naia_socket.Demo.App.Conditioned.{Sending, Lighter, Drains}

module _ (D : DataChannel) where
  -- The sender of the socket, and the messages that wait in it.
  abbrev pub sending : Sending (wasm_socket D)
  sending = record { send = Wasm.send D; load = λ p. length p.message_queue }

  abbrev DrainsAt : Wasm.Page D → Type 0
  DrainsAt s =
      (ps : List Packet) × (stop : Option NaiaClientSocketError) × (t : Wasm.Page D) × Gives
        (wasm_socket D) s ps stop t
      × Lighter stop (length ps + length t.message_queue) (length s.message_queue)

  cons-Lighter :
      (stop : Option NaiaClientSocketError) (a l m n : ℕ)
      → Lighter stop (a + l) m
      → n ≡ suc m
      → Lighter stop (suc a + l) n
  cons-Lighter none a l m n h e = omega (arith, h, e)
  cons-Lighter (some x) a l m n h e = omega (arith, h, e)

  DrainsAt_lem : (ms : List Received) (s : Wasm.Page D) → s.message_queue ≡ ms → DrainsAt s
  DrainsAt_lem [] s e = (
    [],
    none,
    resend D s,
    stops (ap done (receive_empty D s e)),
    omega (
      arith,
      ap (λ (l : List Received). length l)
          (message_queue-resend D s s.dropped_outgoing_messages refl),
    ),
  )
  DrainsAt_lem (ok none ∷ ms) s e = (
    [],
    none,
    record (resend D s) { message_queue = ms },
    stops (ap done (receive_next D s (ok none) ms e)),
    omega (arith, ap (λ (l : List Received). length l) e),
  )
  DrainsAt_lem (err x ∷ ms) s e = (
    [],
    some x,
    record (resend D s) { message_queue = ms },
    fails (ap done (receive_next D s (err x) ms e)),
    omega (arith, ap (λ (l : List Received). length l) e),
  )
  DrainsAt_lem (ok (some p) ∷ ms) s e =
      let (ps, stop, t, g, l) = DrainsAt_lem ms (record (resend D s) { message_queue = ms }) refl in
      (
        p ∷ ps,
        stop,
        t,
        gives (ap done (receive_next D s (ok (some p)) ms e)) g,
        cons-Lighter stop (length ps) (length t.message_queue) (length ms) (length s.message_queue)
            l (ap (λ (l : List Received). length l) e),
      )

  pub wasm-Drains : Drains (wasm_socket D) sending
  wasm-Drains = record {
    drains = λ s. DrainsAt_lem s.message_queue s refl;
    sends = λ p s. omega (arith, ap (λ (l : List Received). length l) (message_queue-send D p s));
  }
