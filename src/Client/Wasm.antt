-- ===== src/Client/Wasm.antt =====
-- client/src/impls/wasm_bindgen: the message sender and the client socket over a WebRTC data channel
-- (client_socket.rs, message_sender.rs) and the callback that fills the message queue
-- (webrtc_internal.rs). The queues are shared by the socket, the clones of its sender and the
-- callbacks; they are one state, on which each of these acts. No two guards of a queue are alive
-- at once: each `borrow` and `borrow_mut` of the code ends before the next one.
pub mod Laws
pub mod History
pub mod Sent
pub mod Setup
use naia_socket.Base.{
  ℕ, Bool, true, false, Option, none, some, List, [], ◌∷◌, ◌++◌, Exec, done, if◌then◌else◌,
}
use naia_socket.Client.{Packet, NaiaClientSocketError, Received, ok, err, ClientSocket}
use naia_socket.Client

-- `RtcDataChannel::send_with_u8_array`: whether it succeeds.
pub record DataChannel : Type 1 where
  pub Channel : Type 0
  pub send_with_u8_array : Channel → List ℕ → Bool × Channel

module _ (D : DataChannel) where
  pub record Page : Type 0 where
    pub data_channel : D.Channel
    pub dropped_outgoing_messages : List Packet
    pub message_queue : List Received

module _ (D : DataChannel) where
  -- `ClientSocket::connect`, once the channel is there.
  unfoldable pub connected : D.Channel → Page D
  connected data_channel = record {
    data_channel = data_channel;
    dropped_outgoing_messages = [];
    message_queue = [];
  }

  -- `MessageSender::send`, which always returns `Ok(())`.
  unfoldable pub send : Packet → Page D → Page D
  send packet page =
      let (sent, channel) = D.send_with_u8_array page.data_channel (Client.payload packet) in
      if sent then record page { data_channel = channel } else record page {
        data_channel = channel;
        dropped_outgoing_messages = page.dropped_outgoing_messages ++ packet ∷ [];
      }

  -- The loop over the packets that `receive` drained.
  unfoldable pub send_all : List Packet → Page D → Page D
  send_all [] page = page
  send_all (packet ∷ packets) page = send_all packets (send packet page)

  -- The first part of `receive`: where packets were dropped, all are drained and sent again.
  unfoldable pub resend : Page D → Page D
  unfolding send_all
  resend page = elim page.dropped_outgoing_messages [
    | [] ↦ page
    | p ∷ ps ↦ send_all (p ∷ ps) (record page { dropped_outgoing_messages = [] })
  ]

  -- The loop of `receive`, which returns in its first round.
  unfoldable pub take_message : Page D → Received × Page D
  take_message page = elim page.message_queue [
    | [] ↦ (ok none, page)
    | m ∷ ms ↦ (m, record page { message_queue = ms })
  ]

  unfoldable pub receive : Page D → Received × Page D
  unfolding resend take_message
  receive page = take_message (resend page)

  -- The `onmessage` callback: the bytes of an `ArrayBuffer`; any other data is ignored.
  unfoldable pub on_message : Option (List ℕ) → Page D → Page D
  on_message none page = page
  on_message (some body) page = record page {
    message_queue = page.message_queue ++ ok (some (Client.new body)) ∷ [];
  }

  -- The socket is a client socket.
  abbrev pub wasm_socket : ClientSocket
  wasm_socket = record {
    State = Page D;
    Sender = Packet → Page D → Page D;
    receive = λ page. done (receive page);
    get_sender = λ page. send;
  }
