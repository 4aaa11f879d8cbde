-- ===== src/Server/Udp.antt =====
-- server/src/impls/udp/server_socket.rs: the server socket over a UDP socket. `MessageSender::new`
-- takes an unbounded sender, and this file hands it a bounded one, so it does not compile as it
-- stands; the channel is modelled without its bound.
pub mod Laws
use naia_socket.Base.{
  ℕ, Bool, true, false, Option, none, some, List, [], ◌∷◌, Exec, done, panicked, if◌then◌else◌,
  take, replicate,
}
use naia_socket.Server.{
  Packet, NaiaServerSocketError, wrapped, send_error, Received, ok, err, ToClient, Poll, pending,
  returned, ServerSocket,
}
use naia_socket.Server
use naia_socket.Server.Webrtc.{
  Incoming, message, io_error, Call, selecting, sending, Wake, from_client, to_client, sends,
}
use naia_socket.Client.Native.{fill}

-- `Async<UdpSocket>`: a datagram with its sender or an error; whether a send succeeds.
pub record Udp : Type 1 where
  pub Net : Type 0
  pub recv_from : Net → Incoming × Net
  pub send_to : List ℕ → ℕ → Net → Bool × Net

module _ (U : Udp) where
  pub record UdpSocket : Type 0 where
    pub socket : U.Net
    pub to_client : ToClient
    pub receive_buffer : List ℕ

module _ (U : Udp) where
  -- `ServerSocket::listen`, once the socket is bound.
  unfoldable pub listening : U.Net → UdpSocket U
  listening socket = record {
    socket = socket;
    to_client = record { queue = []; receiver_alive = true };
    receive_buffer = replicate 0x10000 0;
  }

  -- `ServerSocket::listen`: `bind` gives a bound socket, or an error, and `nonblocking` says whether
  -- `Async::new` accepts it. The two results are unwrapped.
  unfoldable pub listen : (ℕ → Option U.Net) → (U.Net → Bool) → ℕ → Exec (UdpSocket U)
  unfolding listening
  listen bind nonblocking socket_address = elim (bind socket_address) [
    | none ↦ panicked
    | some socket ↦ if nonblocking socket then done (listening socket) else panicked
  ]

  -- The branch of `recv_from`: the front of the buffer goes into the packet.
  unfoldable pub from_client_message : Incoming → UdpSocket U → Poll Call (UdpSocket U)
  from_client_message (message message_address bytes) s =
      let (buffer, message_len) = fill s.receive_buffer bytes in
      returned (ok (Server.new_raw message_address (take message_len buffer)))
        (record s { receive_buffer = buffer })
  from_client_message (io_error e) s = returned (err (wrapped e)) s

  unfoldable pub to_client_message : List Packet → UdpSocket U → Poll Call (UdpSocket U)
  to_client_message [] s = pending selecting s
  to_client_message (packet ∷ rest) s =
      pending (sending packet) (record s { to_client = record (s.to_client) { queue = rest } })

  unfoldable pub finish_send : Packet → UdpSocket U → Poll Call (UdpSocket U)
  finish_send packet s =
      let (sent, net) = U.send_to (Server.payload packet) (Server.address packet) s.socket in
      if sent
      then pending selecting (record s { socket = net })
      else returned (err (send_error (Server.address packet))) (record s { socket = net })

  -- `receive`, from one `await` to the next.
  unfoldable pub poll : Wake → Call → UdpSocket U → Poll Call (UdpSocket U)
  unfolding from_client_message to_client_message finish_send
  poll from_client selecting s =
      let (incoming, net) = U.recv_from s.socket in
      from_client_message incoming (record s { socket = net })
  poll to_client selecting s = to_client_message s.to_client.queue s
  poll sends (sending packet) s = finish_send packet s
  poll _ call s = pending call s

  unfoldable pub receive : List Wake → Call → UdpSocket U → Poll Call (UdpSocket U)
  receive [] call s = pending call s
  receive (w ∷ ws) call s = elim (poll w call s) [
    | pending call' s' ↦ receive ws call' s'
    | returned r s' ↦ returned r s'
  ]

  abbrev pub udp_socket : ServerSocket
  udp_socket = record {
    State = UdpSocket U;
    Call = Call;
    Wake = Wake;
    start = λ s. selecting;
    poll = λ w call s. done (poll w call s);
  }
