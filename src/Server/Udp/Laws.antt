-- ===== src/Server/Udp/Laws.antt =====
-- The UDP server socket does what the WebRTC one does, over a server that cuts a message to the
-- length of the receive buffer.
use naia_socket.Base.{ℕ, ◌≡◌, refl, sym, ap, ◌∙◌, Bool-cases, inl, inr, List, [], ◌∷◌, length, take}
use naia_socket.Server.{
  Packet, wrapped, send_error, Received, ok, err, ToClient, Poll, pending, returned,
}
use naia_socket.Server
use naia_socket.Server.Webrtc.{
  RtcServer, Incoming, message, io_error, Call, selecting, sending, Wake, from_client, to_client,
  sends, WebrtcSocket,
}
use naia_socket.Server.Webrtc
use naia_socket.Server.Udp.{
  Udp, UdpSocket, from_client_message, to_client_message, finish_send, poll, receive,
}
use naia_socket.Client.Native.Laws.{fill_front}

abbrev pub cut : ℕ → Incoming → Incoming
cut n (message address bytes) = message address (take n bytes)
cut n (io_error e) = io_error e

module _ (U : Udp) (n : ℕ) where
  -- The UDP socket as a server with messages of at most `n` bytes.
  abbrev pub as_rtc : RtcServer
  as_rtc = record {
    Net = U.Net;
    recv = λ net. (cut n (U.recv_from net).0, (U.recv_from net).1);
    send = U.send_to;
  }

  -- The socket without its buffer.
  abbrev pub view : UdpSocket U → WebrtcSocket as_rtc
  view s = record { rtc_server = s.socket; to_client = s.to_client }

  -- The outcome `p` of the UDP socket is the outcome `p'`, and the buffer keeps its length.
  abbrev pub Same : Poll Call (UdpSocket U) → Poll Call (WebrtcSocket as_rtc) → Type 0
  Same (pending call s) p' = (p' ≡ pending call (view s)) × (length s.receive_buffer ≡ n)
  Same (returned r s) p' = (p' ≡ returned r (view s)) × (length s.receive_buffer ≡ n)

  from_client-Same :
      (incoming : Incoming) (s : UdpSocket U)
      → length s.receive_buffer ≡ n
      → Same
          (from_client_message U incoming s)
          (returned (Webrtc.from_client_message (cut n incoming)) (view s))
  unfolding from_client_message Webrtc.from_client_message Server.new Server.new_raw
  from_client-Same (message a bytes) s h =
      let (front, same) = fill_front s.receive_buffer bytes in
      (
        ap (λ b. returned (ok (Server.new a b)) (view s)) (sym (front ∙ ap (λ m. take m bytes) h)),
        same ∙ h,
      )
  from_client-Same (io_error e) s h = (refl, h)

  to_client-Same :
      (queue : List Packet) (s : UdpSocket U)
      → length s.receive_buffer ≡ n
      → Same (to_client_message U queue s) (Webrtc.to_client_message as_rtc queue (view s))
  unfolding to_client_message Webrtc.to_client_message
  to_client-Same [] s h = (refl, h)
  to_client-Same (p ∷ ps) s h = (refl, h)

  finish_send-Same :
      (p : Packet) (s : UdpSocket U)
      → length s.receive_buffer ≡ n
      → Same (finish_send U p s) (Webrtc.finish_send as_rtc p (view s))
  unfolding finish_send Webrtc.finish_send
  finish_send-Same p s h =
      elim (Bool-cases (U.send_to (Server.payload p) (Server.address p) s.socket).0) [
        | inl e ↦ rw e (refl, h)
        | inr e ↦ rw e (refl, h)
      ]

  poll-Same :
      (w : Wake) (call : Call) (s : UdpSocket U)
      → length s.receive_buffer ≡ n
      → Same (poll U w call s) (Webrtc.poll as_rtc w call (view s))
  unfolding poll Webrtc.poll
  poll-Same from_client selecting s h =
      from_client-Same (U.recv_from s.socket).0 (record s { socket = (U.recv_from s.socket).1 }) h
  poll-Same from_client (sending p) s h = (refl, h)
  poll-Same to_client selecting s h = to_client-Same s.to_client.queue s h
  poll-Same to_client (sending p) s h = (refl, h)
  poll-Same sends selecting s h = (refl, h)
  poll-Same sends (sending p) s h = finish_send-Same p s h

  -- What the rest of the wake-ups makes of two outcomes that are the same.
  receive_step :
      (r : Poll Call (UdpSocket U)) (r' : Poll Call (WebrtcSocket as_rtc)) (ws : List Wake)
      → Same r r'
      → ((call : Call) (s : UdpSocket U)
          → length s.receive_buffer ≡ n
          → Same (receive U ws call s) (Webrtc.receive as_rtc ws call (view s)))
      → Same
          (elim r [ pending call s ↦ receive U ws call s | returned x s ↦ returned x s ])
          (elim r' [
            | pending call s ↦ Webrtc.receive as_rtc ws call s
            | returned x s ↦ returned x s
          ])
  receive_step (pending call s) r' ws (e, h) ih = rw e (ih call s h)
  receive_step (returned x s) r' ws (e, h) ih = rw e (refl, h)

  -- Where the receive buffer has `n` bytes, and whatever becomes ready in whatever order, a call
  -- of `receive` of the UDP socket has the outcome that one of the WebRTC socket has over the same
  -- network with each message cut to `n` bytes, and the buffer keeps its length.
  pub udp_receive-Same :
      (ws : List Wake) (call : Call) (s : UdpSocket U)
      → length s.receive_buffer ≡ n
      → Same (receive U ws call s) (Webrtc.receive as_rtc ws call (view s))
  unfolding receive Webrtc.receive
  udp_receive-Same [] call s h = (refl, h)
  udp_receive-Same (w ∷ ws) call s h =
      receive_step (poll U w call s) (Webrtc.poll as_rtc w call (view s)) ws (poll-Same w call s h)
        (udp_receive-Same ws)
