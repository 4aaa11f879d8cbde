-- ===== src/Client/Wasm/Laws.antt =====
-- What the browser's socket does with the packets that the channel refuses, and with those that arrive.
use mathlib.Core.List.Perm
use naia_socket.Base.{
  ◌≡◌, ◌⊎◌, refl, ◌∙◌, Bool-cases, inl, inr, none, List, [], ◌∷◌, ◌++◌, Perm, append_assoc,
  append-nil, if◌then◌else◌, arith, perm_pull,
}
use naia_socket.Client.{Packet, Received, ok, err}
use naia_socket.Client
use naia_socket.Client.Wasm.{DataChannel, Page, send, send_all, resend, take_message, receive}

-- What a channel makes of packets that are sent in order: those that it took, those that it did
-- not, and the channel then.
module _ (D : DataChannel) where
  pub record Flushed : Type 0 where
    pub accepted : List Packet
    pub refused : List Packet
    pub channel : D.Channel

module _ (D : DataChannel) where
  unfoldable pub flush : List Packet → D.Channel → Flushed D
  flush [] ch = record { accepted = []; refused = []; channel = ch }
  flush (p ∷ ps) ch =
      let (sent, ch') = D.send_with_u8_array ch (Client.payload p) in
      let rest = flush ps ch' in
      if sent
      then record rest { accepted = p ∷ rest.accepted }
      else record rest { refused = p ∷ rest.refused }

  -- Every packet is taken or refused, once.
  pub flush-perm :
      (ps : List Packet) (ch : D.Channel)
      → Perm ps ((flush ps ch).accepted ++ (flush ps ch).refused)
  unfolding flush
  flush-perm [] ch = Perm.refl []
  flush-perm (p ∷ ps) ch = elim (Bool-cases (D.send_with_u8_array ch (Client.payload p)).0) [
    | inl e ↦ rw e (Perm.cons p (flush-perm ps (D.send_with_u8_array ch (Client.payload p)).1))
    | inr e ↦ rw e (
        Perm.trans (Perm.cons p (flush-perm ps (D.send_with_u8_array ch (Client.payload p)).1))
          (perm_pull p _ _))
  ]

  send_all-flush :
      (ps : List Packet) (page : Page D)
      → send_all D ps page ≡ record page {
        data_channel = (flush ps page.data_channel).channel;
        dropped_outgoing_messages =
            page.dropped_outgoing_messages ++ (flush ps page.data_channel).refused;
      }
  unfolding send_all flush send
  send_all-flush [] page = rw append-nil refl
  send_all-flush (p ∷ ps) page =
      send_all-flush ps (send D p page)
      ∙ ground (
        arith,
        append_assoc page.dropped_outgoing_messages (p ∷ [])
            (flush ps (D.send_with_u8_array page.data_channel (Client.payload p)).1).refused,
      )

  resend-flush :
      (page : Page D) (ds : List Packet)
      → page.dropped_outgoing_messages ≡ ds
      → resend D page ≡ record page {
        data_channel = (flush ds page.data_channel).channel;
        dropped_outgoing_messages = (flush ds page.data_channel).refused;
      }
  unfolding resend flush
  resend-flush page [] e = ground arith
  resend-flush page (p ∷ ps) e =
      ground (arith, send_all-flush (p ∷ ps) (record page { dropped_outgoing_messages = [] }))

  -- The oldest message leaves the queue, or `Ok(None)` is the answer.
  abbrev pub Takes : List Received → Received × Page D → Type 0
  Takes queue r =
      ((queue ≡ []) × (r.0 ≡ ok none) × (r.1.message_queue ≡ []))
      ⊎ (queue ≡ r.0 ∷ r.1.message_queue)

  take_message-Takes :
      (page : Page D) (ms : List Received)
      → page.message_queue ≡ ms
      → ((take_message D page).1.data_channel ≡ page.data_channel)
        × ((take_message D page).1.dropped_outgoing_messages ≡ page.dropped_outgoing_messages)
        × Takes page.message_queue (take_message D page)
  unfolding take_message
  take_message-Takes page [] e =
      (ground arith, ground arith, inl (ground arith, ground arith, ground arith))
  take_message-Takes page (m ∷ ms) e = (ground arith, ground arith, inr (ground arith))

  -- `receive` of the browser socket offers each packet that was dropped before to the channel once
  -- more, in order, and keeps in order those that it refuses again; the answer is the oldest
  -- message, which leaves the queue, or `Ok(None)` where the queue is empty.
  pub receive-flush :
      (page : Page D)
      → ((receive D page).1.data_channel
          ≡ (flush page.dropped_outgoing_messages page.data_channel).channel)
        × ((receive D page).1.dropped_outgoing_messages
            ≡ (flush page.dropped_outgoing_messages page.data_channel).refused)
        × Takes page.message_queue (receive D page)
  unfolding receive
  receive-flush page = rw (resend-flush page page.dropped_outgoing_messages refl) (
      take_message-Takes
        (record page {
          data_channel = (flush page.dropped_outgoing_messages page.data_channel).channel;
          dropped_outgoing_messages =
              (flush page.dropped_outgoing_messages page.data_channel).refused;
        })
        page.message_queue refl)
