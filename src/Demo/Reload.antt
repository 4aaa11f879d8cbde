-- ===== src/Demo/Reload.antt =====
-- demo/client/miniquad/dev_http_server/src/websocket.rs: the socket of the development server, by which a
-- page learns that it is to load again. What a callback does to its context is a value: the messages
-- that it sends, in order, and whether it stops the actor. The crate actix calls `hb` of `started` once, its
-- closure from then on in intervals, and `handle` for each message, until the actor stops. Moments are
-- numbers of nanoseconds, and `duration_since` of an earlier moment is 0.
pub mod Laws
pub mod Silent
use naia_socket.Base.{
  ℕ, ◌+◌, ◌-◌, ◌*◌, Bool, true, false, Option, List, [], ◌∷◌, ◌++◌, ltb, if◌then◌else◌,
}

abbrev pub heartbeat_interval : ℕ
heartbeat_interval = 500 * 1_000_000

abbrev pub client_timeout : ℕ
client_timeout = 5_000 * 1_000_000

-- `ws::Message`
pub data Message : Type 0 where
  text binary ping pong : List ℕ → Message
  close : Option ℕ → Message
  continuation nop : Message

-- `Result<ws::Message, ws::ProtocolError>`
pub data Incoming : Type 0 where
  ok : Message → Incoming
  err : ℕ → Incoming

pub record Effect : Type 0 where
  pub sent : List Message
  pub stopped : Bool

-- `ctx.stop()`, and the sending of one message.
abbrev pub stop : Effect
stop = record { sent = []; stopped = true }

abbrev pub send : Message → Effect
send m = record { sent = m ∷ []; stopped = false }

abbrev pub quiet : Effect
quiet = record { sent = []; stopped = false }

pub record MyWebSocket : Type 0 where
  pub hb : ℕ

unfoldable pub new : ℕ → MyWebSocket
new now = record { hb = now }

-- The closure that `hb` runs in intervals.
unfoldable pub beat : MyWebSocket → ℕ → Effect
beat act now = if ltb client_timeout (now - act.hb) then stop else send (ping [])

unfoldable pub handle : MyWebSocket → ℕ → Incoming → MyWebSocket × Effect
handle self now (ok (ping msg)) = (record self { hb = now }, send (pong msg))
handle self now (ok (pong msg)) = (record self { hb = now }, quiet)
handle self now (ok (text message)) = (self, send (text message))
handle self now (ok (binary bin)) = (self, send (binary bin))
handle self now (ok (close reason)) = (self, record { sent = close reason ∷ []; stopped = true })
handle self now (ok continuation) = (self, stop)
handle self now (ok nop) = (self, stop)
handle self now (err e) = (self, stop)

-- What actix calls the actor for.
pub data Event : Type 0 where
  interval : Event
  message : Incoming → Event

unfoldable pub on_event : MyWebSocket → ℕ → Event → MyWebSocket × Effect
on_event self now interval = (self, beat self now)
on_event self now (message msg) = handle self now msg

-- What was sent, how the actor is, and whether it stopped.
abbrev pub Course : Type 0
Course = List Message × MyWebSocket × Bool

-- What follows a call: nothing where the actor stopped.
unfoldable pub follow : MyWebSocket × Effect → (MyWebSocket → Course) → Course
follow (self, effect) rest = elim effect.stopped [
  | true ↦ (effect.sent, self, true)
  | false ↦ let (sent, self', stopped) = rest self in (effect.sent ++ sent, self', stopped)
]

-- The actor from its start, each event with the clock at its call, until the events end or it stops.
unfoldable pub run : List (ℕ × Event) → MyWebSocket → Course
unfolding on_event follow
run [] self = ([], self, false)
run ((now, event) ∷ events) self = follow (on_event self now event) (run events)
