-- ===== src/Server.antt =====
-- server/src: the packet, the error, the message sender and the trait of the server sockets
-- (packet.rs, error.rs, message_sender.rs, server_socket_trait.rs).
pub mod Webrtc
pub mod Udp
pub mod Conditioner
pub mod Session
use naia_socket.Base.{ℕ, Bool, Option, none, some, List, [], ◌∷◌, ◌++◌, Exec, if◌then◌else◌}

-- An address is a number.
pub record Packet : Type 0 where
  address : ℕ
  payload : List ℕ

unfoldable pub new : ℕ → List ℕ → Packet
new address payload = record { address = address; payload = payload }

unfoldable pub new_raw : ℕ → List ℕ → Packet
new_raw address payload = record { address = address; payload = payload }

unfoldable pub payload : Packet → List ℕ
payload self = self.payload

unfoldable pub address : Packet → ℕ
address self = self.address

-- `wrapped` holds an error of another library, here by a number.
pub data NaiaServerSocketError : Type 0 where
  wrapped : ℕ → NaiaServerSocketError
  send_error : ℕ → NaiaServerSocketError

-- `Result<Packet, NaiaServerSocketError>`
pub data Received : Type 0 where
  ok : Packet → Received
  err : NaiaServerSocketError → Received

-- The channel from the message senders to the server socket, and whether the socket still lives.
pub record ToClient : Type 0 where
  pub queue : List Packet
  pub receiver_alive : Bool

-- `MessageSender::send`: `some packet` is the error that gives the packet back.
unfoldable pub send : Packet → ToClient → Option Packet × ToClient
send packet channel =
    if channel.receiver_alive
    then (none, record channel { queue = channel.queue ++ packet ∷ [] })
    else (some packet, channel)

-- What a wake-up makes of a call of `receive` that is under way: it waits again, or returns.
pub data Poll (F S : Type 0) : Type 0 where
  pending : F → S → Poll F S
  returned : Received → S → Poll F S

-- `ServerSocketTrait`: `start` is a call of `receive` that has not been polled yet, and `poll` goes
-- on with one from one `await` to the next. Dropping a call forgets its `Call`.
pub record ServerSocket : Type 1 where
  pub State : Type 0
  pub Call : Type 0
  pub Wake : Type 0
  pub start : State → Call
  pub poll : Wake → Call → State → Exec (Poll Call State)
