-- ===== src/Client.antt =====
-- client/src: the packet, the error and the trait of the client sockets (packet.rs, error.rs,
-- client_socket.rs).
pub mod Conditioner
pub mod Native
pub mod Wasm
pub mod Miniquad
use Prim.Native.String.{String}
use naia_socket.Base.{ℕ, Option, List, [], Exec}

pub record Packet : Type 0 where
  payload : List ℕ

unfoldable pub new : List ℕ → Packet
new payload = record { payload = payload }

unfoldable pub new_raw : List ℕ → Packet
new_raw payload = record { payload = payload }

unfoldable pub empty : Packet
empty = record { payload = [] }

unfoldable pub payload : Packet → List ℕ
payload self = self.payload

-- `wrapped` holds an error of another library, here by a number.
pub data NaiaClientSocketError : Type 0 where
  message : String → NaiaClientSocketError
  wrapped : ℕ → NaiaClientSocketError

-- `Result<Option<Packet>, NaiaClientSocketError>`
pub data Received : Type 0 where
  ok : Option Packet → Received
  err : NaiaClientSocketError → Received

-- `ClientSocketTrait`: a socket over a state of its own, which holds what the network will bring.
pub record ClientSocket : Type 1 where
  pub State : Type 0
  pub Sender : Type 0
  pub receive : State → Exec (Received × State)
  pub get_sender : State → Sender
