-- ===== src/Client/Native.antt =====
-- client/src/impls/native: the UDP socket and its message sender. The socket is shared by both, so
-- it is a state of its own, which each operation takes and returns.
pub mod Laws
use Prim.Native.Nat.{min}
use naia_socket.Base.{
  ℕ, Bool, true, false, Option, none, some, List, [], ◌++◌, Exec, done, panicked, ◌>>=◌,
  if◌then◌else◌, ◌==◌, length, take, drop, replicate,
}
use naia_socket.Shared.Ports.{
  IpAddr, Binder, find_my_ip_address, find_available_port, socket_address,
}
use naia_socket.Client.{
  Packet, NaiaClientSocketError, message, wrapped, Received, ok, err, ClientSocket,
}
use naia_socket.Client

-- `std::io::ErrorKind`, as far as the code tells its values apart.
pub data ErrorKind : Type 0 where
  would_block : ErrorKind
  other : ℕ → ErrorKind

-- What `recv_from` finds: a datagram and its sender, or an error.
pub data Incoming : Type 0 where
  datagram : List ℕ → ℕ → Incoming
  failed : ErrorKind → Incoming

-- `std::net::UdpSocket`: addresses are numbers; `none` is success, and `some` an error.
pub record Udp : Type 1 where
  pub Net : Type 0
  pub recv_from : Net → Incoming × Net
  pub send_to : List ℕ → ℕ → Net → Option ℕ × Net

pub record MessageSender : Type 0 where
  pub address : ℕ

pub record NativeSocket : Type 0 where
  pub address : ℕ
  pub receive_buffer : List ℕ
  pub message_sender : MessageSender

-- `recv_from` writes the datagram to the front of the buffer, as far as it fits.
abbrev pub fill : List ℕ → List ℕ → List ℕ × ℕ
fill buffer bytes =
    let recv_len = min (length bytes) (length buffer) in
    (take recv_len bytes ++ drop recv_len buffer, recv_len)

-- The end of `ClientSocket::connect`, once the socket is bound.
unfoldable pub connected : ℕ → NativeSocket
connected server_socket_address = record {
  address = server_socket_address;
  receive_buffer = replicate 1472 0;
  message_sender = record { address = server_socket_address };
}

-- An error that the code tells apart from all others.
unfoldable pub failure : ErrorKind → Received
failure would_block = ok none
failure (other e) = err (wrapped e)

-- The `match` of `ClientSocket::receive`, with what the buffer holds after `recv_from`.
unfoldable pub handle : NativeSocket → Incoming → Received × NativeSocket
unfolding failure
handle self (datagram bytes address) =
    let (buffer, recv_len) = fill self.receive_buffer bytes in
    (
      if address == self.address
          then ok (some (Client.new (take recv_len buffer)))
          else err (message "Unknown sender."),
      record self { receive_buffer = buffer },
    )
handle self (failed e) = (failure e, self)

module _ (U : Udp) where
  -- `MessageSender::send`
  unfoldable pub send : MessageSender → Packet → U.Net → Option ℕ × U.Net
  send self packet net = U.send_to (Client.payload packet) self.address net

  -- `ClientSocket::receive`
  unfoldable pub receive : NativeSocket → U.Net → Received × NativeSocket × U.Net
  unfolding handle
  receive self net =
      let (incoming, net') = U.recv_from net in
      let (answer, self') = handle self incoming in (answer, self', net')

  unfoldable pub get_sender : NativeSocket → MessageSender
  get_sender self = self.message_sender

  -- The native socket is a client socket.
  abbrev pub native_socket : ClientSocket
  native_socket = record {
    State = NativeSocket × U.Net;
    Sender = MessageSender;
    receive = λ (self, net). let (r, self', net') = receive self net in done (r, (self', net'));
    get_sender = λ (self, net). get_sender self;
  }

-- `ClientSocket::connect`: the answers of the host as in `find_my_ip_address` and
-- `find_available_port`, and whether the socket can be made non-blocking.
module _ (N : Binder) (set_nonblocking : N.UdpSocket → Bool) where
  unfoldable pub connect : Option IpAddr → ℕ → Exec (NativeSocket × N.UdpSocket)
  connect none server_socket_address = panicked
  connect (some client_ip_address) server_socket_address =
      elim (find_available_port N client_ip_address) [
        | none ↦ panicked
        | some free_socket ↦ elim (N.bind (socket_address client_ip_address free_socket)) [
          | none ↦ panicked
          | some socket ↦
              if set_nonblocking socket
              then done (connected server_socket_address, socket)
              else panicked
        ]
      ]
