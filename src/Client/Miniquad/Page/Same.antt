-- ===== src/Client/Miniquad/Page/Same.antt =====
-- The miniquad client over its script does what the browser's client does.
use mathlib.Core.List.{map-append}
use naia_socket.Base.{
  ℕ, ◌≡◌, refl, sym, ap, ◌∙◌, Bool-cases, inl, inr, none, some, List, [], ◌∷◌, ◌++◌, map,
}
use naia_socket.Client.{Packet, Received, ok}
use naia_socket.Client
use naia_socket.Client.Wasm.{DataChannel}
use naia_socket.Client.Wasm
use naia_socket.Client.Miniquad.{Script, Statics, on_receive, push_back, pop_message}
use naia_socket.Client.Wasm.History.{
  message_queue-send, message_queue-resend, receive_empty, receive_next,
}
use naia_socket.Client.Miniquad
use naia_socket.Client.Miniquad.Page.{
  Page, send_u8_array, send_each, resend_dropped_messages, page_script,
}

-- A packet is sent, bytes arrive, or the program calls `receive`.
pub data Event : Type 0 where
  sends : Packet → Event
  arrives : List ℕ → Event
  receives : Event

abbrev pub message : List ℕ → Received
message bs = ok (some (Client.new bs))

module _ (D : DataChannel) where
  -- The browser's client over a run, and what its calls of `receive` return.
  unfoldable pub run_wasm : List Event → Wasm.Page D → Wasm.Page D × List Received
  run_wasm [] page = (page, [])
  run_wasm (sends p ∷ es) page = run_wasm es (Wasm.send D p page)
  run_wasm (arrives bs ∷ es) page = run_wasm es (Wasm.on_message D (some bs) page)
  run_wasm (receives ∷ es) page =
      let (r, page') = Wasm.receive D page in
      let (page'', rs) = run_wasm es page' in (page'', r ∷ rs)

module _ (J : Script) where
  unfoldable pub run_miniquad : List Event → Statics J → Statics J × List Received
  run_miniquad [] s = (s, [])
  run_miniquad (sends p ∷ es) s = run_miniquad es (Miniquad.send J p s)
  run_miniquad (arrives bs ∷ es) s = run_miniquad es (on_receive J bs s)
  run_miniquad (receives ∷ es) s =
      let (r, s') = Miniquad.receive J s in let (s'', rs) = run_miniquad es s' in (s'', r ∷ rs)

module _ (D : DataChannel) (create : ℕ → D.Channel) where
  -- The statics that stand for a page of the browser's client with `queue` in its message queue.
  abbrev pub statics_of : Wasm.Page D → List (List ℕ) → Statics (page_script D create)
  statics_of page queue = record {
    message_queue = some queue;
    error_queue = some [];
    page = record {
      channel = some page.data_channel;
      dropped_outgoing_messages = map Client.payload page.dropped_outgoing_messages;
    };
  }

  abbrev page_of : Wasm.Page D → Page D
  page_of page = (statics_of page []).page

  send-page_of :
      (p : Packet) (page : Wasm.Page D)
      → send_u8_array D (Client.payload p) (page_of page) ≡ page_of (Wasm.send D p page)
  unfolding send_u8_array Wasm.send
  send-page_of p page =
      elim (Bool-cases (D.send_with_u8_array page.data_channel (Client.payload p)).0) [
        | inl e ↦ rw e refl
        | inr e ↦ rw (e, map-append Client.payload page.dropped_outgoing_messages (p ∷ [])) refl
      ]

  send_each-page_of :
      (ps : List Packet) (page : Wasm.Page D)
      → send_each D (map Client.payload ps) (page_of page) ≡ page_of (Wasm.send_all D ps page)
  unfolding send_each Wasm.send_all
  send_each-page_of [] page = refl
  send_each-page_of (p ∷ ps) page =
      ap (send_each D (map Client.payload ps)) (send-page_of p page)
      ∙ send_each-page_of ps (Wasm.send D p page)

  resend-page_of :
      (page : Wasm.Page D) (ds : List Packet)
      → page.dropped_outgoing_messages ≡ ds
      → resend_dropped_messages D (page_of page) ≡ page_of (Wasm.resend D page)
  unfolding resend_dropped_messages Wasm.resend
  resend-page_of page [] e = rw e refl
  resend-page_of page (d ∷ ds) e =
      rw e (send_each-page_of (d ∷ ds) (record page { dropped_outgoing_messages = [] }))

  -- What one call of `receive` does on both sides.
  abbrev Agrees : List (List ℕ) → Wasm.Page D → Type 0
  Agrees queue page =
      (queue' : List (List ℕ)) × (Miniquad.receive (page_script D create) (statics_of page queue)
        ≡ ((Wasm.receive D page).0, statics_of (Wasm.receive D page).1 queue'))
      × ((Wasm.receive D page).1.message_queue ≡ map message queue')

  receive-Agrees :
      (queue : List (List ℕ)) (page : Wasm.Page D)
      → page.message_queue ≡ map message queue
      → Agrees queue page
  unfolding Miniquad.receive Client.new Client.new_raw
  receive-Agrees [] page e = (
    [],
    rw (receive_empty D page e) (
        ap (λ pg. (ok none, record { message_queue = some []; error_queue = some []; page = pg }))
          (resend-page_of page page.dropped_outgoing_messages refl)),
    rw (receive_empty D page e)
        (message_queue-resend D page page.dropped_outgoing_messages refl ∙ e),
  )
  receive-Agrees (q ∷ queue) page e = (
    queue,
    rw (receive_next D page (message q) (map message queue) e) (
        ap
          (λ pg.
            (message q, record { message_queue = some queue; error_queue = some []; page = pg }))
          (resend-page_of page page.dropped_outgoing_messages refl)),
    rw (receive_next D page (message q) (map message queue) e) refl,
  )

  -- The end of a run with what its calls of `receive` returned, on both sides.
  abbrev pub Same : List Event → List (List ℕ) → Wasm.Page D → Type 0
  Same es queue page =
      (queue' : List (List ℕ)) × (run_miniquad (page_script D create) es (statics_of page queue)
        ≡ (statics_of (run_wasm D es page).0 queue', (run_wasm D es page).1))
      × ((run_wasm D es page).0.message_queue ≡ map message queue')

  -- Over one data channel, the miniquad socket with its script does over any run of sends,
  -- arrivals and calls of `receive` what the browser socket does: the calls of `receive` return
  -- the same, and at the end the channel, the dropped packets and the waiting messages are the
  -- same, where the run starts from states that stand for each other.
  pub run-Same :
      (es : List Event) (queue : List (List ℕ)) (page : Wasm.Page D)
      → page.message_queue ≡ map message queue
      → Same es queue page
  unfolding run_miniquad run_wasm Miniquad.send on_receive Wasm.on_message
  run-Same [] queue page e = (queue, refl, e)
  run-Same (sends p ∷ es) queue page e =
      let (queue', r, q) =
        run-Same es queue (Wasm.send D p page) (message_queue-send D p page ∙ e) in
      (
        queue',
        ap
              (λ pg.
                run_miniquad (page_script D create) es
                  (record { message_queue = some queue; error_queue = some []; page = pg }))
              (send-page_of p page)
            ∙ r,
        q,
      )
  run-Same (arrives bs ∷ es) queue page e =
      run-Same es (queue ++ bs ∷ []) (Wasm.on_message D (some bs) page)
        (ap (λ m. m ++ message bs ∷ []) e ∙ sym (map-append message queue (bs ∷ [])))
  run-Same (receives ∷ es) queue page e =
      let (queue₁, a, f) = receive-Agrees queue page e in
      let (queue', r, q) = run-Same es queue₁ (Wasm.receive D page).1 f in
      (
        queue',
        ap
              (λ (answered : Received × Statics (page_script D create)).
                let (s'', rs) = run_miniquad (page_script D create) es answered.1 in
                (s'', answered.0 ∷ rs))
              a
            ∙ ap
                (λ (rest : Statics (page_script D create) × List Received).
                  (rest.0, (Wasm.receive D page).0 ∷ rest.1))
                r,
        q,
      )
