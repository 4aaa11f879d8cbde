-- ===== src/Demo/App/Packets.antt =====
-- What `update` of app.rs does with the packets that wait, over a connection that has no errors.
use naia_socket.Base.{
  ℕ, zero, suc, ◌+◌, ◌-◌, ◌<◌, ◌≤◌, ◌≡◌, refl, sym, ap, ◌∙◌, inl, inr, Bool, true, false,
  Bool-cases, ◌&&◌, none, some, List, [], ◌∷◌, ◌++◌, append_assoc, append-nil, done, ltb, lt→ltb,
  if◌then◌else◌, length, replicate, arith,
}
use naia_socket.Shared.World.{Profile}
use naia_socket.Client.{Packet, Received, ok, err}
use naia_socket.Client
use naia_socket.Demo.App.{
  Connection, App, eq, ping_msg, pong_msg, send_ping, incr_u8, on_pong, on_packet, on_none, update,
}

-- The packets that wait for the client, and those that it has sent and are on their way.
pub record Pipe : Type 0 where
  pub inbox : List Packet
  pub outbox : List Packet

abbrev pub take_packet : List Packet → List Packet → Received × Pipe
take_packet [] outbox = (ok none, record { inbox = []; outbox = outbox })
take_packet (p ∷ ps) outbox = (ok (some p), record { inbox = ps; outbox = outbox })

abbrev pub pipe : Connection
pipe = record {
  State = Pipe;
  receive = λ s. done (take_packet s.inbox s.outbox);
  send = λ p s. (true, record s { outbox = s.outbox ++ p ∷ [] });
}

abbrev pub ping : Packet
ping = Client.new ping_msg

-- How many of the packets are pongs.
abbrev pub pongs : List Packet → ℕ
pongs [] = 0
pongs (p ∷ ps) = if eq (Client.payload p) pong_msg then suc (pongs ps) else pongs ps

-- The pongs that are answered, where `count` were before.
abbrev pub answered : ℕ → ℕ → ℕ
answered count n = if ltb (10 - count) n then 10 - count else n

-- The client with what waits for it and what it has sent.
abbrev pub app : List Packet → List Packet → Bool → ℕ → ℕ → App pipe
app inbox outbox got_one_response backoff_round message_count = record {
  client_socket = record { inbox = inbox; outbox = outbox };
  got_one_response = got_one_response;
  backoff_round = backoff_round;
  message_count = message_count;
}

-- The client behind `n` pongs that it answers.
abbrev pub answers : ℕ → List Packet → Bool → ℕ → ℕ → App pipe
answers n outbox got round count =
    app [] (outbox ++ replicate n ping) (if ltb 0 n then true else got) round (count + n)

pub app_eq :
    {o o' : List Packet} {g g' : Bool} {c c' : ℕ} (round : ℕ)
    → o ≡ o'
    → g ≡ g'
    → c ≡ c'
    → app [] o g round c ≡ app [] o' g' round c'
app_eq round a b c = rw (a, b, c) refl

pub answers_none :
    (n : ℕ) (outbox : List Packet) (got : Bool) (round count : ℕ)
    → n ≡ 0
    → answers n outbox got round count ≡ app [] outbox got round count
answers_none n outbox got round count e =
    rw (e, append-nil outbox) (ap (app [] outbox got round) (omega arith))

pub answers_next :
    (n : ℕ) (outbox : List Packet) (got : Bool) (round count : ℕ)
    → answers n (outbox ++ ping ∷ []) true round (suc count)
      ≡ answers (suc n) outbox got round count
answers_next n outbox got round count =
    app_eq round (append_assoc outbox (ping ∷ []) (replicate n ping)) (got_more n) (omega arith)
  where
    got_more : (n : ℕ) → (if ltb 0 n then true else true) ≡ (if ltb 0 (suc n) then true else got)
    got_more n = ground arith

module _ (p : Profile) where
  incr_small : (count : ℕ) → count < 10 → incr_u8 p count ≡ done (suc count)
  unfolding incr_u8
  incr_small count h = ground arith

  on_packet-pong :
      (x : Packet) (inbox outbox : List Packet) (got : Bool) (round count : ℕ)
      → eq (Client.payload x) pong_msg ≡ true
      → count < 10
      → on_packet pipe p x (app inbox outbox got round count)
        ≡ done (app inbox (outbox ++ ping ∷ []) true round (suc count))
  unfolding on_packet on_pong send_ping
  on_packet-pong x inbox outbox got round count e h =
      rw (e, lt→ltb count 10 h) (rw (incr_small count h) refl)

  on_packet-other :
      (x : Packet) (self : App pipe)
      → (eq (Client.payload x) pong_msg && ltb self.message_count 10) ≡ false
      → on_packet pipe p x self ≡ done self
  unfolding on_packet
  on_packet-other x self e = rw e refl

  -- Over the packets that wait, `update` answers the pongs and then goes into the branch for no packet.
  pub update_lem :
      (ps outbox : List Packet) (got : Bool) (round count fuel : ℕ)
      → count ≤ 10
      → length ps < fuel
      → update pipe p fuel (app ps outbox got round count)
        ≡ on_none pipe p (answers (answered count (pongs ps)) outbox got round count)
  unfolding update
  update_lem ps outbox got round count zero h f = absurd (omega arith)
  update_lem [] outbox got round count (suc fuel) h f =
      ap (on_none pipe p)
        (sym (answers_none (answered count 0) outbox got round count (ground arith)))
  update_lem (x ∷ ps) outbox got round count (suc fuel) h f =
      elim (Bool-cases (eq (Client.payload x) pong_msg)) [
        | inr other ↦
            rw (on_packet-other x (app ps outbox got round count) (rw other refl), other)
              (update_lem ps outbox got round count fuel h (omega arith))
        | inl pong ↦ elim (Bool-cases (ltb count 10)) [
          | inl few ↦
              let next : answered count (suc (pongs ps)) ≡ suc (answered (suc count) (pongs ps)) =
                ground arith in
              rw (on_packet-pong x ps outbox got round count pong (ground arith), pong, next)
                (update_lem ps (outbox ++ ping ∷ []) true round (suc count) fuel (ground arith)
                    (omega arith)
                  ∙ ap (on_none pipe p)
                      (answers_next (answered (suc count) (pongs ps)) outbox got round count))
          | inr many ↦
              let same : answered count (suc (pongs ps)) ≡ answered count (pongs ps) =
                ground arith in
              rw
                (
                  on_packet-other x (app ps outbox got round count) (rw (pong, many) refl),
                  pong,
                  same,
                )
                (update_lem ps outbox got round count fuel h (omega arith))
        ]
      ]
