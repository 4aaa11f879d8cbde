-- ===== src/Demo/Reload/Laws.antt =====
-- The socket of demo/client/miniquad/dev_http_server/src/websocket.rs for a page that is heard in time.
use naia_socket.Base.{ℕ, ◌+◌, ◌≤◌, ◌≡◌, refl, Bool, false, List, [], ◌∷◌, ◌++◌, arith}
use naia_socket.Demo.Reload.{
  Message, text, binary, ping, pong, close, continuation, nop, ok, err, Event, interval, message,
  MyWebSocket, client_timeout, beat, handle, on_event, follow, run, send,
}

-- What each event is answered with, where it does not end the actor.
abbrev pub answer : Event → List Message
answer interval = ping [] ∷ []
answer (message (ok (ping msg))) = pong msg ∷ []
answer (message (ok (text msg))) = text msg ∷ []
answer (message (ok (binary bin))) = binary bin ∷ []
answer (message _) = []

abbrev pub answers : List (ℕ × Event) → List Message
answers [] = []
answers ((now, event) ∷ events) = answer event ++ answers events

-- The last moment at which a ping or a pong came, and `h` before the first one.
abbrev pub last_heard : ℕ → List (ℕ × Event) → ℕ
last_heard h [] = h
last_heard h ((now, message (ok (ping msg))) ∷ events) = last_heard now events
last_heard h ((now, message (ok (pong msg))) ∷ events) = last_heard now events
last_heard h ((now, event) ∷ events) = last_heard h events

-- No message ends the actor, and each interval ends `client_timeout` at most behind a ping or pong.
abbrev pub IsLively : ℕ → List (ℕ × Event) → Type 0
IsLively h [] = Unit
IsLively h ((now, interval) ∷ events) = (now ≤ h + client_timeout) × IsLively h events
IsLively h ((now, message (ok (ping msg))) ∷ events) = IsLively now events
IsLively h ((now, message (ok (pong msg))) ∷ events) = IsLively now events
IsLively h ((now, message (ok (text msg))) ∷ events) = IsLively h events
IsLively h ((now, message (ok (binary bin))) ∷ events) = IsLively h events
IsLively h ((now, message _) ∷ events) = ⊥

pub in_time :
    (h now : ℕ)
    → now ≤ h + client_timeout
    → on_event (record { hb = h }) now interval ≡ (record { hb = h }, send (ping []))
unfolding on_event beat
in_time h now le = ground arith

-- An event that does not stop the actor, and then the others.
pub run_goes :
    (self self' : MyWebSocket) (now : ℕ) (event : Event) (events : List (ℕ × Event))
    (sent : List Message) {out : List Message} {self'' : MyWebSocket} {stopped : Bool}
    → on_event self now event ≡ (self', record { sent = sent; stopped = false })
    → run events self' ≡ (out, self'', stopped)
    → run ((now, event) ∷ events) self ≡ (sent ++ out, self'', stopped)
unfolding run follow
run_goes self self' now event events sent e f = rw (e, f) refl

-- Where no event is a close, a continuation, a message without content or an error, and no
-- interval ends later than the timeout behind the last ping or pong, the socket of the development
-- server does not stop: it answers each ping with a pong, each text and each binary message with
-- itself and each interval with a ping, in order, and its heartbeat is then the moment of the last
-- ping or pong.
pub run-IsLively :
    (events : List (ℕ × Event)) (h : ℕ)
    → IsLively h events
    → run events (record { hb = h }) ≡ (answers events, record { hb = last_heard h events }, false)
unfolding run follow on_event handle
run-IsLively [] h l = refl
run-IsLively ((now, interval) ∷ events) h l =
    run_goes _ _ now interval events (ping [] ∷ []) (in_time h now l.0) (run-IsLively events h l.1)
run-IsLively ((now, message (ok (ping msg))) ∷ events) h l = rw (run-IsLively events now l) refl
run-IsLively ((now, message (ok (pong msg))) ∷ events) h l = rw (run-IsLively events now l) refl
run-IsLively ((now, message (ok (text msg))) ∷ events) h l = rw (run-IsLively events h l) refl
run-IsLively ((now, message (ok (binary msg))) ∷ events) h l = rw (run-IsLively events h l) refl
run-IsLively ((now, message (ok (close r))) ∷ events) h l = absurd l
run-IsLively ((now, message (ok continuation)) ∷ events) h l = absurd l
run-IsLively ((now, message (ok nop)) ∷ events) h l = absurd l
run-IsLively ((now, message (err e)) ∷ events) h l = absurd l
