-- ===== src/Demo/Exchange/Stall.antt =====
-- The client of the demo does not send a ping again once it has had a pong.
use naia_socket.Base.{
  ℕ, suc, ◌^◌, ◌<◌, ◌≤◌, ◌≡◌, refl, ap, ◌∙◌, Bool, true, false, List, [], ◌∷◌, done, arith,
}
use naia_socket.Shared.World.{Profile}
use naia_socket.Client.{Packet}
use naia_socket.Demo.App.Packets.{app, answered, pongs}
use naia_socket.Demo.App.Update.{settled, update-Settles}
use naia_socket.Demo.Exchange.{replies, deliver, turn, run}

module _ (p : Profile) (address : ℕ) where
  deliver_none :
      (outbox : List Packet) (round count : ℕ)
      → count ≤ 10
      → suc round < 2 ^ 31
      → deliver p address [] (app [] outbox true round count) ≡ done (app [] [] true round count)
  unfolding deliver
  deliver_none outbox round count c r =
      let (b, due, e) = update-Settles p [] [] true round count 1 c r (omega arith) in
      let none : answered count (pongs []) ≡ 0 = ground arith in
      e ∙ ap (λ n. done (settled n b [] true round count)) none

  nothing_comes :
      (ups : List Bool) (round count : ℕ)
      → count ≤ 10
      → suc round < 2 ^ 31
      → run p address ups (app [] [] true round count) ≡ done (app [] [] true round count)
  unfolding run turn replies
  nothing_comes [] round count c r = refl
  nothing_comes (true ∷ ups) round count c r =
      rw (deliver_none [] round count c r) (nothing_comes ups round count c r)
  nothing_comes (false ∷ ups) round count c r =
      rw (deliver_none [] round count c r) (nothing_comes ups round count c r)

  -- Where the client of the demo has had a pong, at most ten were counted, the round and the next
  -- one are below 2 ^ 31, and the server is then down for one turn, the client sends nothing any
  -- more and its count of pongs stays, whatever the server does later.
  pub run_stalls :
      (ups : List Bool) (outbox : List Packet) (round count : ℕ)
      → count ≤ 10
      → suc round < 2 ^ 31
      → run p address (false ∷ ups) (app [] outbox true round count)
        ≡ done (app [] [] true round count)
  unfolding run turn
  run_stalls ups outbox round count c r =
      rw (deliver_none outbox round count c r) (nothing_comes ups round count c r)
