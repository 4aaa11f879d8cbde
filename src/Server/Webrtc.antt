-- ===== src/Server/Webrtc.antt =====
-- server/src/impls/webrtc/server_socket.rs: the server socket over the crate webrtc-unreliable, whose
-- `recv` and `send` are parameters.
pub mod Laws
use naia_socket.Base.{
  ℕ, Bool, true, false, Option, none, some, List, [], ◌∷◌, Exec, done, panicked, ◌>>=◌,
  if◌then◌else◌,
}
use naia_socket.Server.{
  Packet, NaiaServerSocketError, wrapped, send_error, Received, ok, err, ToClient, Poll, pending,
  returned, ServerSocket,
}
use naia_socket.Server
use naia_socket.Server.Session.Listen.{Sessions, start_session_server}

-- What `recv` gives: a message and the address that it came from, or an error.
pub data Incoming : Type 0 where
  message : ℕ → List ℕ → Incoming
  io_error : ℕ → Incoming

-- `webrtc_unreliable::Server`: `send` says whether it succeeded.
pub record RtcServer : Type 1 where
  pub Net : Type 0
  pub recv : Net → Incoming × Net
  pub send : List ℕ → ℕ → Net → Bool × Net

-- A call of `receive`: it waits in `select!`, or for a packet to be sent.
pub data Call : Type 0 where
  selecting : Call
  sending : Packet → Call

-- What becomes ready: a message from a client, a packet for one, or the end of a send.
pub data Wake : Type 0 where
  from_client to_client sends : Wake

-- The result of `recv`, as `receive` returns it.
unfoldable pub from_client_message : Incoming → Received
from_client_message (message remote_addr bytes) = ok (Server.new remote_addr bytes)
from_client_message (io_error e) = err (wrapped e)

module _ (N : RtcServer) where
  pub record WebrtcSocket : Type 0 where
    pub rtc_server : N.Net
    pub to_client : ToClient

module _ (N : RtcServer) where
  -- The branch of a packet that `to_client_receiver` gives; without one the branch is not ready.
  unfoldable pub to_client_message : List Packet → WebrtcSocket N → Poll Call (WebrtcSocket N)
  to_client_message [] s = pending selecting s
  to_client_message (packet ∷ rest) s =
      pending (sending packet) (record s { to_client = record (s.to_client) { queue = rest } })

  -- `send(..).await`, and the next round of the loop.
  unfoldable pub finish_send : Packet → WebrtcSocket N → Poll Call (WebrtcSocket N)
  finish_send packet s =
      let (sent, net) = N.send (Server.payload packet) (Server.address packet) s.rtc_server in
      if sent
      then pending selecting (record s { rtc_server = net })
      else returned (err (send_error (Server.address packet))) (record s { rtc_server = net })

  -- `receive`, from one `await` to the next. A wake-up for something that the call does not wait for
  -- changes nothing.
  unfoldable pub poll : Wake → Call → WebrtcSocket N → Poll Call (WebrtcSocket N)
  unfolding from_client_message to_client_message finish_send
  poll from_client selecting s =
      let (incoming, net) = N.recv s.rtc_server in
      returned (from_client_message incoming) (record s { rtc_server = net })
  poll to_client selecting s = to_client_message s.to_client.queue s
  poll sends (sending packet) s = finish_send packet s
  poll _ call s = pending call s

  -- A call that is polled until it returns, or the wake-ups end.
  unfoldable pub receive : List Wake → Call → WebrtcSocket N → Poll Call (WebrtcSocket N)
  receive [] call s = pending call s
  receive (w ∷ ws) call s = elim (poll w call s) [
    | pending call' s' ↦ receive ws call' s'
    | returned r s' ↦ returned r s'
  ]

  abbrev pub webrtc_socket : ServerSocket
  webrtc_socket = record {
    State = WebrtcSocket N;
    Call = Call;
    Wake = Wake;
    start = λ s. selecting;
    poll = λ w call s. done (poll w call s);
  }

-- `ServerSocket::listen`: `new_rtc` starts a `webrtc_unreliable::Server`, or gives an error; `bind` says
-- whether the session server can listen, which its own task finds out.
module _ (N : RtcServer) (new_rtc : ℕ → ℕ → Option (N.Net)) (bind : ℕ → Bool) where
  -- `RtcServer::new`
  unfoldable pub new : ℕ → ℕ → Exec N.Net
  new address public_address = elim (new_rtc address public_address) [
    | none ↦ panicked
    | some inner ↦ done inner
  ]

  unfoldable pub listen : ℕ → ℕ → Exec (WebrtcSocket N × Sessions)
  unfolding new
  listen socket_address public_address = do
    rtc_server ← new socket_address public_address
    done (
      record { rtc_server = rtc_server; to_client = record { queue = []; receiver_alive = true } },
      start_session_server bind socket_address,
    )
