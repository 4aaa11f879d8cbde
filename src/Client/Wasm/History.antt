-- ===== src/Client/Wasm/History.antt =====
-- The order in which the browser's socket hands out what arrives, over any run of its events.
use mathlib.Core.List.{map-append}
use naia_socket.Base.{
  ℕ, ◌≡◌, refl, sym, ap, ◌∙◌, Option, none, some, List, [], ◌∷◌, ◌++◌, map, append_assoc,
  append-nil, arith,
}
use naia_socket.Client.{Packet, Received, ok, err}
use naia_socket.Client
use naia_socket.Client.Wasm.{
  DataChannel, Page, send, send_all, resend, take_message, receive, on_message,
}

-- A packet is sent, something arrives (bytes, or other data), or the program calls `receive`.
pub data Event : Type 0 where
  sends : Packet → Event
  arrives : Option (List ℕ) → Event
  receives : Event

abbrev pub message : Packet → Received
message p = ok (some p)

-- The packets among the answers.
abbrev pub packet_of : Received → List Packet → List Packet
packet_of (ok (some p)) ps = p ∷ ps
packet_of (ok none) ps = ps
packet_of (err e) ps = ps

-- What arrives as bytes.
abbrev pub arrived : List Event → List Packet
arrived [] = []
arrived (sends p ∷ es) = arrived es
arrived (arrives none ∷ es) = arrived es
arrived (arrives (some body) ∷ es) = Client.new body ∷ arrived es
arrived (receives ∷ es) = arrived es

module _ (D : DataChannel) where
  -- The page after a run, and the packets that `receive` returned in it.
  unfoldable pub run : Page D → List Event → Page D × List Packet
  run page [] = (page, [])
  run page (sends p ∷ es) = run (send D p page) es
  run page (arrives body ∷ es) = run (on_message D body page) es
  run page (receives ∷ es) =
      let (answer, page') = receive D page in
      let (page'', ps) = run page' es in (page'', packet_of answer ps)

  pub message_queue-send :
      (p : Packet) (page : Page D) → (send D p page).message_queue ≡ page.message_queue
  unfolding send
  message_queue-send p page = ground arith

  message_queue-send_all :
      (ps : List Packet) (page : Page D) → (send_all D ps page).message_queue ≡ page.message_queue
  unfolding send_all
  message_queue-send_all [] page = refl
  message_queue-send_all (p ∷ ps) page =
      message_queue-send_all ps (send D p page) ∙ message_queue-send p page

  pub message_queue-resend :
      (page : Page D) (ds : List Packet)
      → page.dropped_outgoing_messages ≡ ds
      → (resend D page).message_queue ≡ page.message_queue
  unfolding resend
  message_queue-resend page [] e = ground arith
  message_queue-resend page (d ∷ ds) e =
      ground
        (arith, message_queue-send_all (d ∷ ds) (record page { dropped_outgoing_messages = [] }))

  -- `receive` by the messages that wait.
  pub receive_empty :
      (page : Page D) → page.message_queue ≡ [] → receive D page ≡ (ok none, resend D page)
  unfolding receive take_message
  receive_empty page e =
      ground (arith, message_queue-resend page page.dropped_outgoing_messages refl)

  pub receive_next :
      (page : Page D) (m : Received) (ms : List Received)
      → page.message_queue ≡ m ∷ ms
      → receive D page ≡ (m, record (resend D page) { message_queue = ms })
  unfolding receive take_message
  receive_next page m ms e =
      ground (arith, message_queue-resend page page.dropped_outgoing_messages refl)

  -- From a message queue that holds only packets, and over any run of sends, arrivals and calls of
  -- `receive`, whatever the channel refuses: the packets that `receive` returned, followed by
  -- those that still wait, are those that waited at first, followed by those that arrived, in
  -- order.
  pub run_in_order :
      (es : List Event) (page : Page D) (waiting : List Packet)
      → page.message_queue ≡ map message waiting
      → (left : List Packet) × ((run page es).0.message_queue ≡ map message left)
        × (waiting ++ arrived es ≡ (run page es).1 ++ left)
  unfolding run on_message
  run_in_order [] page waiting e = (waiting, e, append-nil waiting)
  run_in_order (sends p ∷ es) page waiting e =
      run_in_order es (send D p page) waiting (message_queue-send p page ∙ e)
  run_in_order (arrives none ∷ es) page waiting e = run_in_order es page waiting e
  run_in_order (arrives (some body) ∷ es) page waiting e =
      let (left, q, o) =
        run_in_order es (on_message D (some body) page) (waiting ++ Client.new body ∷ []) (
          ap (λ l. l ++ message (Client.new body) ∷ []) e
          ∙ sym (map-append message waiting (Client.new body ∷ []))) in
      (left, q, sym (append_assoc waiting (Client.new body ∷ []) (arrived es)) ∙ o)
  run_in_order (receives ∷ es) page [] e =
      rw (receive_empty page e, run)
        (run_in_order es (resend D page) []
          (message_queue-resend page page.dropped_outgoing_messages refl ∙ e))
  run_in_order (receives ∷ es) page (p ∷ waiting) e =
      let (left, q, o) =
        run_in_order es (record (resend D page) { message_queue = map message waiting }) waiting
          refl in
      rw (receive_next page (message p) (map message waiting) e, run) (left, q, ap (◌∷◌ p) o)
