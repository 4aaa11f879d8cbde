-- ===== src/Client/Miniquad.antt =====
-- client/src/impls/miniquad: the socket whose queues are filled by the page's script (client_socket.rs,
-- message_sender.rs, shared.rs). `MESSAGE_QUEUE` and `ERROR_QUEUE` are `None` until `connect`. What
-- the script does on `naia_connect`, `naia_send` and `naia_resend_dropped_messages` is a parameter;
-- the bytes that it hands over in a `JsObject` are the argument of the callbacks.
pub mod Laws
pub mod Objects
pub mod Utf8
pub mod Page
use Prim.Native.String.{String}
use naia_socket.Base.{ℕ, Option, none, some, List, [], ◌∷◌, ◌++◌, Exec, done}
use naia_socket.Client.{Packet, NaiaClientSocketError, Received, message, ok, err, ClientSocket}
use naia_socket.Client

pub record Script : Type 1 where
  pub Page : Type 0
  pub naia_connect : ℕ → Page → Page
  pub naia_send : List ℕ → Page → Page
  pub naia_resend_dropped_messages : Page → Page

module _ (J : Script) where
  pub record Statics : Type 0 where
    pub message_queue : Option (List (List ℕ))
    pub error_queue : Option (List String)
    pub page : J.Page

-- `push_back` on a queue that may not be there yet.
abbrev pub push_back : {A : Type 0} → A → Option (List A) → Option (List A)
push_back a none = none
push_back a (some queue) = some (queue ++ a ∷ [])

module _ (J : Script) where
  -- `ClientSocket::connect`
  unfoldable pub connect : ℕ → Statics J → Statics J
  connect server_socket_address s = record {
    message_queue = some [];
    error_queue = some [];
    page = J.naia_connect server_socket_address s.page;
  }

  -- `MessageSender::send`, which always returns `Ok(())`.
  unfoldable pub send : Packet → Statics J → Statics J
  send packet s = record s { page = J.naia_send (Client.payload packet) s.page }

  -- The callbacks `receive` and `error` of shared.rs.
  unfoldable pub on_receive : List ℕ → Statics J → Statics J
  on_receive bytes s = record s { message_queue = push_back bytes s.message_queue }

  unfoldable pub on_error : String → Statics J → Statics J
  on_error text s = record s { error_queue = push_back text s.error_queue }

  -- `ClientSocket::receive`: behind the resend, a message if one waits, else an error if one does.
  unfoldable pub pop_error : Statics J → Received × Statics J
  pop_error s = elim s.error_queue [
    | some (error ∷ errors) ↦ (err (message error), record s { error_queue = some errors })
    | _ ↦ (ok none, s)
  ]

  unfoldable pub pop_message : Statics J → Received × Statics J
  unfolding pop_error
  pop_message s = elim s.message_queue [
    | some (m ∷ ms) ↦ (ok (some (Client.new_raw m)), record s { message_queue = some ms })
    | _ ↦ pop_error s
  ]

  unfoldable pub receive : Statics J → Received × Statics J
  unfolding pop_message
  receive s = pop_message (record s { page = J.naia_resend_dropped_messages s.page })

  abbrev pub miniquad_socket : ClientSocket
  miniquad_socket = record {
    State = Statics J;
    Sender = Packet → Statics J → Statics J;
    receive = λ s. done (receive s);
    get_sender = λ s. send;
  }
