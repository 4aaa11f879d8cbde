-- ===== src/Server/Webrtc/Laws.antt =====
-- What a call of `receive` does with the packets for the clients, and how it ends.
use naia_socket.Base.{
  ◌≡◌, refl, ap, ◌∙◌, true, false, Bool-cases, inl, inr, List, [], ◌∷◌, ◌++◌, arith,
}
use naia_socket.Server.{
  Packet, wrapped, send_error, Received, ok, err, ToClient, Poll, pending, returned,
}
use naia_socket.Server
use naia_socket.Server.Webrtc.{
  RtcServer, Incoming, message, io_error, Call, selecting, sending, Wake, from_client, to_client,
  sends, WebrtcSocket, from_client_message, poll, receive,
}

module _ (N : RtcServer) where
  -- The packets `ps` are sent one after the other, each to its address, and all sends succeed.
  pub data Transmits : N.Net → List Packet → N.Net → Type 0 where
    none_left : {n : N.Net} → Transmits n [] n
    sent :
        {n n' n'' : N.Net} {p : Packet} {ps : List Packet}
        → N.send (Server.payload p) (Server.address p) n ≡ (true, n')
        → Transmits n' ps n''
        → Transmits n (p ∷ ps) n''

  -- The packets that a call has yet to send: the one that it holds, and those in the channel.
  abbrev pub outgoing : Call → WebrtcSocket N → List Packet
  outgoing selecting s = s.to_client.queue
  outgoing (sending p) s = p ∷ s.to_client.queue

  -- How a call that was at `call` and `s` stands: some of the outgoing packets were sent, in
  -- order, and then it waits, or it returns what a client sent, or an error, or the address of the
  -- first packet that could not be sent, which is lost.
  abbrev pub Outcome : Call → WebrtcSocket N → Poll Call (WebrtcSocket N) → Type 0
  Outcome call s (pending call' s') =
      (ps : List Packet) × Transmits s.rtc_server ps s'.rtc_server
      × (outgoing call s ≡ ps ++ outgoing call' s')
  Outcome call s (returned (ok p) s') =
      (ps : List Packet) × (n : N.Net) × Transmits s.rtc_server ps n
      × (N.recv n ≡ (message (Server.address p) (Server.payload p), s'.rtc_server))
      × (outgoing call s ≡ ps ++ s'.to_client.queue)
  Outcome call s (returned (err (wrapped e)) s') =
      (ps : List Packet) × (n : N.Net) × Transmits s.rtc_server ps n
      × (N.recv n ≡ (io_error e, s'.rtc_server))
      × (outgoing call s ≡ ps ++ s'.to_client.queue)
  Outcome call s (returned (err (send_error a)) s') =
      (ps : List Packet) × (n : N.Net) × (p : Packet) × Transmits s.rtc_server ps n
      × (Server.address p ≡ a)
      × (N.send (Server.payload p) (Server.address p) n ≡ (false, s'.rtc_server))
      × (outgoing call s ≡ ps ++ p ∷ s'.to_client.queue)

  -- A step that sends nothing, in front of the rest.
  Outcome-unsent :
      (call call₁ : Call) (s s₁ : WebrtcSocket N) (r : Poll Call (WebrtcSocket N))
      → outgoing call s ≡ outgoing call₁ s₁
      → s.rtc_server ≡ s₁.rtc_server
      → Outcome call₁ s₁ r
      → Outcome call s r
  Outcome-unsent call call₁ s s₁ (pending _ _) o e (ps, t, q) = (ps, rw e t, o ∙ q)
  Outcome-unsent call call₁ s s₁ (returned (ok p) _) o e (ps, n, t, g, q) =
      (ps, n, rw e t, g, o ∙ q)
  Outcome-unsent call call₁ s s₁ (returned (err (wrapped _)) _) o e (ps, n, t, g, q) =
      (ps, n, rw e t, g, o ∙ q)
  Outcome-unsent call call₁ s s₁ (returned (err (send_error _)) _) o e (ps, n, p, t, a, g, q) =
      (ps, n, p, rw e t, a, g, o ∙ q)

  -- A send that succeeds, in front of the rest.
  Outcome-sent :
      (call call₁ : Call) (s s₁ : WebrtcSocket N) (p : Packet) (r : Poll Call (WebrtcSocket N))
      → outgoing call s ≡ p ∷ outgoing call₁ s₁
      → N.send (Server.payload p) (Server.address p) s.rtc_server ≡ (true, s₁.rtc_server)
      → Outcome call₁ s₁ r
      → Outcome call s r
  Outcome-sent call call₁ s s₁ p (pending _ _) o e (ps, t, q) = (p ∷ ps, sent e t, o ∙ ap (◌∷◌ p) q)
  Outcome-sent call call₁ s s₁ p (returned (ok _) _) o e (ps, n, t, g, q) =
      (p ∷ ps, n, sent e t, g, o ∙ ap (◌∷◌ p) q)
  Outcome-sent call call₁ s s₁ p (returned (err (wrapped _)) _) o e (ps, n, t, g, q) =
      (p ∷ ps, n, sent e t, g, o ∙ ap (◌∷◌ p) q)
  Outcome-sent call call₁ s s₁ p (returned (err (send_error _)) _) o e (ps, n, d, t, a, g, q) =
      (p ∷ ps, n, d, sent e t, a, g, o ∙ ap (◌∷◌ p) q)

  from_client-Outcome :
      (s : WebrtcSocket N) (incoming : Incoming) (net : N.Net)
      → N.recv s.rtc_server ≡ (incoming, net)
      → Outcome selecting s
          (returned (from_client_message incoming) (record s { rtc_server = net }))
  unfolding from_client_message Server.new Server.address Server.payload
  from_client-Outcome s (message a bytes) net e = ([], s.rtc_server, none_left, e, refl)
  from_client-Outcome s (io_error n) net e = ([], s.rtc_server, none_left, e, refl)

  -- The socket after a send that failed.
  abbrev failed : Packet → WebrtcSocket N → WebrtcSocket N
  failed p s = record s {
    rtc_server = (N.send (Server.payload p) (Server.address p) s.rtc_server).1;
  }

  fails-poll :
      (p : Packet) (s : WebrtcSocket N)
      → (N.send (Server.payload p) (Server.address p) s.rtc_server).0 ≡ false
      → poll N sends (sending p) s ≡ returned (err (send_error (Server.address p))) (failed p s)
  unfolding poll
  fails-poll p s e = rw e refl

  fails-Outcome :
      (p : Packet) (s : WebrtcSocket N)
      → (N.send (Server.payload p) (Server.address p) s.rtc_server).0 ≡ false
      → Outcome (sending p) s (returned (err (send_error (Server.address p))) (failed p s))
  fails-Outcome p s e = ([], s.rtc_server, p, none_left, refl, ground arith, refl)

  receive_pending :
      (w : Wake) (ws : List Wake) (call call' : Call) (s s' : WebrtcSocket N)
      → poll N w call s ≡ pending call' s'
      → receive N (w ∷ ws) call s ≡ receive N ws call' s'
  unfolding receive
  receive_pending w ws call call' s s' e = rw (e, receive)

  receive_returned :
      (w : Wake) (ws : List Wake) (call : Call) (s s' : WebrtcSocket N) (r : Received)
      → poll N w call s ≡ returned r s'
      → receive N (w ∷ ws) call s ≡ returned r s'
  unfolding receive
  receive_returned w ws call s s' r e = rw (e, receive)

  -- A packet leaves the channel and is held by the call, or there is none.
  to_client-poll :
      (queue : List Packet) (s : WebrtcSocket N)
      → s.to_client.queue ≡ queue
      → (call' : Call) × (s' : WebrtcSocket N) × (poll N to_client selecting s ≡ pending call' s')
        × (outgoing selecting s ≡ outgoing call' s')
        × (s.rtc_server ≡ s'.rtc_server)
  unfolding poll
  to_client-poll [] s e = (selecting, s, ground arith, refl, refl)
  to_client-poll (p ∷ ps) s e = (
    sending p,
    record s { to_client = record (s.to_client) { queue = ps } },
    ground arith,
    e,
    refl,
  )

  sends-poll :
      (p : Packet) (s : WebrtcSocket N)
      → (N.send (Server.payload p) (Server.address p) s.rtc_server).0 ≡ true
      → (s' : WebrtcSocket N) × (poll N sends (sending p) s ≡ pending selecting s')
        × (outgoing (sending p) s ≡ p ∷ outgoing selecting s')
        × (N.send (Server.payload p) (Server.address p) s.rtc_server ≡ (true, s'.rtc_server))
  unfolding poll
  sends-poll p s e = (
    record s { rtc_server = (N.send (Server.payload p) (Server.address p) s.rtc_server).1 },
    rw e,
    refl,
    ground arith,
  )

  -- Whatever becomes ready, in whatever order, a call of `receive` of the WebRTC socket sends
  -- packets for the clients in the order of the channel, each once and to its own address, and all
  -- packets behind the last one it took stay in the channel; it still waits, or it returned a
  -- message or an error of the server as `recv` gave it, or the address of the first packet whose
  -- send failed, which is gone.
  pub receive-Outcome :
      (ws : List Wake) (call : Call) (s : WebrtcSocket N) → Outcome call s (receive N ws call s)
  unfolding receive poll
  receive-Outcome [] call s = ([], none_left, refl)
  receive-Outcome (from_client ∷ ws) selecting s =
      from_client-Outcome s (N.recv s.rtc_server).0 (N.recv s.rtc_server).1 refl
  receive-Outcome (from_client ∷ ws) (sending p) s = receive-Outcome ws (sending p) s
  receive-Outcome (to_client ∷ ws) selecting s =
      let (call', s', e, o, n) = to_client-poll s.to_client.queue s refl in
      rw (receive_pending to_client ws selecting call' s s' e)
        (Outcome-unsent selecting call' s s' _ o n (receive-Outcome ws call' s'))
  receive-Outcome (to_client ∷ ws) (sending p) s = receive-Outcome ws (sending p) s
  receive-Outcome (sends ∷ ws) selecting s = receive-Outcome ws selecting s
  receive-Outcome (sends ∷ ws) (sending p) s =
      elim (Bool-cases (N.send (Server.payload p) (Server.address p) s.rtc_server).0) [
        | inl e ↦
            let (s', g, o, n) = sends-poll p s e in
            rw (receive_pending sends ws (sending p) selecting s s' g)
              (Outcome-sent (sending p) selecting s s' p _ o n (receive-Outcome ws selecting s'))
        | inr e ↦
            rw (receive_returned sends ws (sending p) s (failed p s) _ (fails-poll p s e))
              (fails-Outcome p s e)
      ]
