-- ===== src/Demo/App/Update.antt =====
-- What a call of `update` of app.rs does over a connection that gives the packets that wait and has no
-- errors.
use naia_socket.Base.{
  ℕ, zero, suc, ◌^◌, ◌<◌, ◌≤◌, ◌≡◌, refl, sym, ap, ◌∙◌, ◌⊎◌, ◌↔◌, Bool, true, false, not, ◌&&◌,
  List, [], ◌∷◌, ◌++◌, append-nil, done, ltb, lt→ltb, if◌then◌else◌, length, arith,
}
use naia_socket.Shared.World.{Profile}
use naia_socket.Client.{Packet}
use naia_socket.Demo.App.{App, send_ping, incr_i32, backoff_enabled, back_off, on_none, update}
use naia_socket.Demo.App.Backoff.{IsPower, backoff_enabled_iff}
use naia_socket.Demo.App.Packets.{
  pipe, ping, pongs, answered, app, answers, app_eq, answers_none, update_lem,
}

-- The client behind `n` answered pongs and the branch for no packet, which sends a ping where `b` says
-- so and no pong has come yet.
abbrev pub settled : ℕ → Bool → List Packet → Bool → ℕ → ℕ → App pipe
settled n b outbox got round count =
    if ltb 0 n
    then answers n outbox got round count
    else app [] (outbox ++ (if not got && b then ping ∷ [] else [])) got
        (if got then round else suc round) count

-- Whether the round is one that sends a ping.
abbrev pub Due : ℕ → Bool → Type 0
Due round b = (b ≡ true) ↔ ((round ≡ 0) ⊎ IsPower round)

module _ (p : Profile) where
  pub incr_round : (round : ℕ) → suc round < 2 ^ 31 → incr_i32 p round ≡ done (suc round)
  unfolding incr_i32
  incr_round round h = ground arith

  on_none_waits :
      (outbox : List Packet) (round count : ℕ) (b : Bool)
      → suc round < 2 ^ 31
      → backoff_enabled p round ≡ done b
      → on_none pipe p (app [] outbox false round count)
        ≡ done (app [] (outbox ++ (if b then ping ∷ [] else [])) false (suc round) count)
  unfolding on_none back_off send_ping
  on_none_waits outbox round count true h e = rw (e, incr_round round h) refl
  on_none_waits outbox round count false h e = rw (e, incr_round round h, append-nil outbox) refl

  on_none-settled :
      (n : ℕ) (b : Bool) (outbox : List Packet) (got : Bool) (round count : ℕ)
      → suc round < 2 ^ 31
      → backoff_enabled p round ≡ done b
      → on_none pipe p (answers n outbox got round count)
        ≡ done (settled n b outbox got round count)
  unfolding on_none
  on_none-settled zero b outbox true round count h e = ap done (
      answers_none zero outbox true round count refl
      ∙ app_eq round (sym (append-nil outbox)) refl refl)
  on_none-settled zero b outbox false round count h e =
      ap (on_none pipe p) (answers_none zero outbox false round count refl)
      ∙ on_none_waits outbox round count b h e
  on_none-settled (suc n) b outbox got round count h e = rw (lt→ltb 0 (suc n) (omega arith)) refl

  -- Over a connection that gives the packets `ps` and has no errors, with any fuel above their
  -- number, where at most ten pongs were counted and the round and the next one are below 2 ^ 31,
  -- `update` returns: each pong of `ps` is answered with a ping as long as fewer than ten were;
  -- and where no pong has come yet, one more ping is sent exactly where the round is 0 or a power
  -- of two, and the round is counted.
  pub update-Settles :
      (ps outbox : List Packet) (got : Bool) (round count fuel : ℕ)
      → count ≤ 10
      → suc round < 2 ^ 31
      → length ps < fuel
      → (b : Bool) × Due round b
        × (update pipe p fuel (app ps outbox got round count)
            ≡ done (settled (answered count (pongs ps)) b outbox got round count))
  update-Settles ps outbox got round count fuel c h f =
      let (b, e, due) = backoff_enabled_iff p round (omega arith) in
      (
        b,
        due,
        update_lem p ps outbox got round count fuel c f
            ∙ on_none-settled (answered count (pongs ps)) b outbox got round count h e,
      )
