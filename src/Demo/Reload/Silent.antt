-- ===== src/Demo/Reload/Silent.antt =====
-- The socket of demo/client/miniquad/dev_http_server/src/websocket.rs for a page that is heard no more.
use naia_socket.Base.{
  ℕ, ◌+◌, ◌≤◌, ◌<◌, ◌≡◌, ◌⊎◌, inl, inr, refl, ap, true, false, Bool-cases, List, [], ◌∷◌, ◌++◌, ltb,
  arith,
}
use naia_socket.Demo.Reload.{
  text, binary, ping, pong, close, continuation, nop, ok, err, Event, interval, message,
  client_timeout, beat, handle, on_event, follow, run, stop,
}
use naia_socket.Demo.Reload.Laws.{answer, answers, in_time, run_goes}

-- Nothing comes but texts and binary messages, and intervals end `gap` at most behind each other; the one
-- before the events ended at `before`.
abbrev pub IsSilent : ℕ → ℕ → List (ℕ × Event) → Type 0
IsSilent gap before [] = Unit
IsSilent gap before ((now, interval) ∷ events) = (now ≤ before + gap) × IsSilent gap now events
IsSilent gap before ((now, message (ok (text msg))) ∷ events) = IsSilent gap before events
IsSilent gap before ((now, message (ok (binary bin))) ∷ events) = IsSilent gap before events
IsSilent gap before ((now, message _) ∷ events) = ⊥

-- Some interval ends behind a moment.
abbrev pub Passes : ℕ → List (ℕ × Event) → Type 0
Passes moment [] = ⊥
Passes moment ((now, interval) ∷ events) = (moment < now) ⊎ Passes moment events
Passes moment ((now, message msg) ∷ events) = Passes moment events

-- The actor stops at the end of some interval, no sooner than `client_timeout` behind its last heartbeat and
-- `gap` later at most, and answers what came before as ever.
abbrev pub Stops : ℕ → ℕ → List (ℕ × Event) → Type 0
Stops gap h events =
    (before : List (ℕ × Event)) × (now : ℕ) × (after : List (ℕ × Event)) × (events
      ≡ before ++ ((now, interval) ∷ after))
    × (h + client_timeout < now)
    × (now ≤ h + client_timeout + gap)
    × (run events (record { hb = h }) ≡ (answers before, record { hb = h }, true))

-- An interval that ends by a moment is not the one that passes it.
still :
    (h now : ℕ) (events : List (ℕ × Event))
    → now ≤ h + client_timeout
    → (h + client_timeout < now) ⊎ Passes (h + client_timeout) events
    → Passes (h + client_timeout) events
still h now events le (inl lt) = absurd (omega (arith, le, lt))
still h now events le (inr p) = p

too_late :
    (h now : ℕ)
    → h + client_timeout < now
    → on_event (record { hb = h }) now interval ≡ (record { hb = h }, stop)
unfolding on_event beat
too_late h now lt = ground arith

-- The end of an interval behind the time is the end of the actor.
run_late :
    (h now : ℕ) (events : List (ℕ × Event))
    → h + client_timeout < now
    → run ((now, interval) ∷ events) (record { hb = h }) ≡ ([], record { hb = h }, true)
unfolding run follow
run_late h now events lt = rw (too_late h now lt) refl

-- An event that is answered, and then the others.
step-Stops :
    (gap h now : ℕ) (event : Event) (events : List (ℕ × Event))
    → on_event (record { hb = h }) now event
      ≡ (record { hb = h }, record { sent = answer event; stopped = false })
    → Stops gap h events
    → Stops gap h ((now, event) ∷ events)
step-Stops gap h now event events e (before, t, after, f, lt, le, r) = (
  (now, event) ∷ before,
  t,
  after,
  ap (λ l. (now, event) ∷ l) f,
  lt,
  le,
  run_goes _ _ now event events (answer event) e r,
)

-- Where nothing comes from the page but texts and binary messages, the ends of two intervals are
-- at most `gap` apart, the last one before the events came no later than the timeout behind the
-- last heartbeat, and some interval ends later than that: the socket of the development server
-- stops at the end of an interval, later than the timeout behind the last heartbeat and at most
-- `gap` later, having answered all events before it.
pub run-IsSilent :
    (gap h before : ℕ) (events : List (ℕ × Event))
    → before ≤ h + client_timeout
    → IsSilent gap before events
    → Passes (h + client_timeout) events
    → Stops gap h events
unfolding on_event handle
run-IsSilent gap h before [] b s p = absurd p
run-IsSilent gap h before ((now, interval) ∷ events) b s p =
    elim (Bool-cases (ltb (h + client_timeout) now)) [
      | inl e ↦
          let late : h + client_timeout < now = ground (arith, e) in
          ([], now, events, refl, late, omega (arith, s.0, b), run_late h now events late)
      | inr e ↦
          let le : now ≤ h + client_timeout = ground (arith, e) in
          step-Stops gap h now interval events (in_time h now le)
            (run-IsSilent gap h now events le s.1 (still h now events le p))
    ]
run-IsSilent gap h before ((now, message (ok (text msg))) ∷ events) b s p =
    step-Stops gap h now (message (ok (text msg))) events refl
      (run-IsSilent gap h before events b s p)
run-IsSilent gap h before ((now, message (ok (binary bin))) ∷ events) b s p =
    step-Stops gap h now (message (ok (binary bin))) events refl
      (run-IsSilent gap h before events b s p)
run-IsSilent gap h before ((now, message (ok (ping msg))) ∷ events) b s p = absurd s
run-IsSilent gap h before ((now, message (ok (pong msg))) ∷ events) b s p = absurd s
run-IsSilent gap h before ((now, message (ok (close r))) ∷ events) b s p = absurd s
run-IsSilent gap h before ((now, message (ok continuation)) ∷ events) b s p = absurd s
run-IsSilent gap h before ((now, message (ok nop)) ∷ events) b s p = absurd s
run-IsSilent gap h before ((now, message (err e)) ∷ events) b s p = absurd s
