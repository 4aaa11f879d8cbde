-- ===== src/Server/Session/Listen.antt =====
-- server/src/impls/webrtc/session.rs: `start_session_server` and `listen`, which accepts connections in a
-- task and serves each one in a task of its own. The tasks step in any order; one that panics
-- ends alone. `bind` is that of the listener, and a connection is the lines that it will bring.
pub mod Laws
use naia_socket.Base.{
  ℕ, zero, suc, ◌+◌, ◌*◌, Bool, true, false, Option, none, some, List, [], ◌∷◌, ◌++◌, Exec, length,
  if◌then◌else◌, get_elem?,
}
use naia_socket.Server.Session.{Lines, Http, serve}

-- What `accept` gives.
pub data Accepted : Type 0 where
  connection : Lines → Accepted
  accept_error : Accepted

-- Whether the loop of `listen` runs, the connections whose tasks have not ended, and what the ended
-- tasks sent, each with its connection.
pub record Sessions : Type 0 where
  pub listening : Bool
  pub serving : List Lines
  pub served : List (Lines × Exec (List ℕ))

-- The `unwrap` of `bind` panics in the task, so that nothing listens.
unfoldable pub start_session_server : (ℕ → Bool) → ℕ → Sessions
start_session_server bind socket_address = record {
  listening = bind socket_address;
  serving = [];
  served = [];
}

-- One round of the loop of `listen`; the `unwrap` of a failed `accept` ends it.
unfoldable pub accept : Accepted → Sessions → Sessions
accept (connection lines) s =
    if s.listening then record s { serving = s.serving ++ lines ∷ [] } else s
accept accept_error s = record s { listening = false }

abbrev pub remove : List Lines → ℕ → List Lines
remove [] i = []
remove (l ∷ ls) zero = ls
remove (l ∷ ls) (suc i) = l ∷ remove ls i

module _ (H : Http) where
  -- `serve` with fuel that is enough.
  abbrev pub respond : Lines → Exec (List ℕ)
  respond lines = serve H (2 * length lines + 1) lines

  -- The end of the task at a place.
  unfoldable pub finish : ℕ → Sessions → Sessions
  finish i s = elim (get_elem? s.serving i) [
    | none ↦ s
    | some lines ↦ record s {
      serving = remove s.serving i;
      served = (lines, respond lines) ∷ s.served;
    }
  ]

  pub data Event : Type 0 where
    accepts : Accepted → Event
    finishes : ℕ → Event

  unfoldable pub run : List Event → Sessions → Sessions
  unfolding accept finish
  run [] s = s
  run (accepts a ∷ es) s = run es (accept a s)
  run (finishes i ∷ es) s = run es (finish i s)
