-- ===== src/Demo/Exchange/Turns.antt =====
-- One turn of the exchange between the demo's client and server.
use naia_socket.Base.{
  ℕ, suc, ◌+◌, ◌^◌, ◌<◌, ◌≡◌, refl, ap, ◌∙◌, ◌⊎◌, inl, inr, Bool, true, false, List, [], ◌∷◌, done,
  if◌then◌else◌, arith,
}
use naia_socket.Shared.World.{Profile}
use naia_socket.Client.{Packet}
use naia_socket.Client
use naia_socket.Server
use naia_socket.Demo.App.{App, eq, pong_msg}
use naia_socket.Demo.App.Packets.{pipe, ping, app, answered, pongs}
use naia_socket.Demo.App.Update.{Due, update-Settles, settled}
use naia_socket.Demo.Exchange.{reply, replies, deliver, turn}

one_pong : (count : ℕ) → count < 10 → answered count (pongs (Client.new pong_msg ∷ [])) ≡ 1
unfolding eq Client.new Client.payload
one_pong count h = ground arith

no_pong : answered 10 (pongs (Client.new pong_msg ∷ [])) ≡ 0
unfolding eq Client.new Client.payload
no_pong = refl

-- A client that waits for its first pong in a round, with a ping on its way where `f` says so.
abbrev pub awaiting : Bool → ℕ → App pipe
awaiting f round = app [] (if f then ping ∷ [] else []) false round 0

-- A client behind `count` pongs, the ping for the last one on its way.
abbrev pub playing : ℕ → ℕ → App pipe
playing round count = app [] (ping ∷ []) true round count

module _ (p : Profile) (address : ℕ) where
  replies-ping : replies address (ping ∷ []) ≡ Client.new pong_msg ∷ []
  unfolding replies reply eq Client.new Client.payload Server.new Server.payload
  replies-ping = refl

  deliver_nothing :
      (f : Bool) (round : ℕ)
      → suc round < 2 ^ 31
      → (b : Bool) × Due round b
        × (deliver p address [] (awaiting f round) ≡ done (awaiting b (suc round)))
  unfolding deliver
  deliver_nothing f round h = update-Settles p [] [] false round 0 1 (omega arith) h (omega arith)

  pub turn-awaiting :
      (up f : Bool) (round : ℕ)
      → suc round < 2 ^ 31
      → (up ≡ false) ⊎ (f ≡ false)
      → (b : Bool) × Due round b
        × (turn p address up (awaiting f round) ≡ done (awaiting b (suc round)))
  unfolding turn replies
  turn-awaiting false f round h e = deliver_nothing f round h
  turn-awaiting true false round h e = deliver_nothing false round h
  turn-awaiting true true round h (inl e) = cc
  turn-awaiting true true round h (inr e) = cc

  pub turn-playing :
      (got : Bool) (round count : ℕ)
      → count < 10
      → suc round < 2 ^ 31
      → turn p address true (app [] (ping ∷ []) got round count) ≡ done (playing round (suc count))
  unfolding turn deliver
  turn-playing got round count h r =
      let (b, due, e) =
        update-Settles p (Client.new pong_msg ∷ []) [] got round count 2 (omega arith) r
          (omega arith) in
      let one : answered count (pongs (Client.new pong_msg ∷ [])) ≡ 1 = one_pong count h in
      let next : count + 1 ≡ suc count = omega arith in
      rw replies-ping (
        e
        ∙ ap (λ n. done (settled n b [] got round count)) one
        ∙ ap (λ c. done (playing round c)) next)

  -- The client behind its tenth pong, whatever is on its way.
  pub turn_last :
      (outbox : List Packet) (round : ℕ)
      → suc round < 2 ^ 31
      → (outbox ≡ []) ⊎ (outbox ≡ ping ∷ [])
      → turn p address true (app [] outbox true round 10) ≡ done (app [] [] true round 10)
  unfolding turn deliver replies
  turn_last outbox round r (inl none) =
      let (b, due, e) = update-Settles p [] [] true round 10 1 (omega arith) r (omega arith) in
      rw none e
  turn_last outbox round r (inr one) =
      let (b, due, e) =
        update-Settles p (Client.new pong_msg ∷ []) [] true round 10 2 (omega arith) r
          (omega arith) in
      rw one (rw replies-ping (e ∙ ap (λ n. done (settled n b [] true round 10)) no_pong))
