-- ===== src/Client/Wasm/Setup/Laws.antt =====
-- What holds in every state that the callbacks of webrtc_internal.rs can reach.
use naia_socket.Base.{
  ℕ, true, false, Bool-cases, Option, none, some, List, [], ◌∷◌, ◌++◌, map, Exec, done, panicked,
  out_of_fuel, ◌==◌, ◌≡◌, refl, sym, ap, ◌∙◌, ◌⊎◌, inl, inr, All, All-imp, All-get_elem?, get_elem?,
  subst,
}
use mathlib.Core.List.{map-append}
use naia_socket.Client.{Packet, Received, ok}
use naia_socket.Client
use naia_socket.Client.Wasm.Setup.{
  SessionResponse, Description, Call, create_peer, create_channel, set_binary_type, create_offer,
  set_local_description, open_post, send_request, set_remote_description, add_candidate, Callback,
  channel_onopen, channel_onmsg, peer_offer, peer_desc, request_onload, remote_desc_success, Reads,
  Setup, server_url, webrtc_initialize, on_message, on_response, on_session_response, fire, webudp,
  stun_server,
}

abbrev pub In : Call → List Call → Type 0
In c [] = ⊥
In c (d ∷ ds) = (d ≡ c) ⊎ In c ds

module _ (parse : List ℕ → Option SessionResponse) where
  -- The browser fires a callback that is registered.
  pub data Step (s : Setup) : Setup → Type 0 where
    fires :
        (i : ℕ) (c : Callback) (r : Reads c) {t : Setup}
        → get_elem? s.callbacks i ≡ some c
        → fire parse c r s ≡ done t
        → Step s t

module _ (parse : List ℕ → Option SessionResponse) (address : List ℕ) where
  pub data Reach : Setup → Type 0 where
    start : {s : Setup} → webrtc_initialize true address [] ≡ done s → Reach s
    later : {s t : Setup} → Reach s → Step parse s t → Reach t

  -- What must have been called before a call.
  abbrev pub Ready : Call → List Call → Type 0
  Ready (create_peer ice) cs = Unit
  Ready (create_channel label ordered retransmits) cs = In (create_peer stun_server) cs
  Ready set_binary_type cs = In (create_channel webudp false 0) cs
  Ready create_offer cs = In (create_channel webudp false 0) cs
  Ready (set_local_description d) cs = In create_offer cs
  Ready (open_post url) cs =
      (url ≡ server_url address) × ((d : Description) × In (set_local_description d) cs)
  Ready (send_request sdp) cs = In (open_post (server_url address)) cs
  Ready (set_remote_description sdp) cs = (offer : List ℕ) × In (send_request offer) cs
  Ready (add_candidate candidate) cs =
      (text : List ℕ) × (response : SessionResponse) × (parse text ≡ some response)
      × (response.candidate ≡ candidate)
      × In (set_remote_description response.answer.sdp) cs

  -- Each call comes behind those that must come before it. The latest call is the first of the list.
  abbrev pub Ordered : List Call → Type 0
  Ordered [] = Unit
  Ordered (c ∷ cs) = Ready c cs × Ordered cs

  -- What has been called when a callback is registered.
  abbrev pub Enabled : List Call → Callback → Type 0
  Enabled cs channel_onopen = Unit
  Enabled cs channel_onmsg = Unit
  Enabled cs (peer_offer url) = (url ≡ server_url address) × In create_offer cs
  Enabled cs (peer_desc url) =
      (url ≡ server_url address) × ((d : Description) × In (set_local_description d) cs)
  Enabled cs request_onload = (offer : List ℕ) × In (send_request offer) cs
  Enabled cs (remote_desc_success response) =
      (text : List ℕ) × (parse text ≡ some response)
      × In (set_remote_description response.answer.sdp) cs

  -- The message queue holds packets alone.
  abbrev pub OnlyPackets : List Received → Type 0
  OnlyPackets queue = (ps : List Packet) × (queue ≡ map (λ p. ok (some p)) ps)

  pub record IsCausal (s : Setup) : Type 0 where
    pub ordered : Ordered s.calls
    pub enabled : All (Enabled s.calls) s.callbacks
    pub packets : OnlyPackets s.msg_queue

  Enabled-cons : (d : Call) (cs : List Call) (c : Callback) → Enabled cs c → Enabled (d ∷ cs) c
  Enabled-cons d cs channel_onopen h = tt
  Enabled-cons d cs channel_onmsg h = tt
  Enabled-cons d cs (peer_offer url) (e, h) = (e, inr h)
  Enabled-cons d cs (peer_desc url) (e, (x, h)) = (e, (x, inr h))
  Enabled-cons d cs request_onload (offer, h) = (offer, inr h)
  Enabled-cons d cs (remote_desc_success response) (text, e, h) = (text, e, inr h)

  -- One call more keeps the callbacks enabled.
  keep :
      (d : Call) (cs : List Call) (bs : List Callback)
      → All (Enabled cs) bs
      → All (Enabled (d ∷ cs)) bs
  keep d cs bs = All-imp _ _ bs (Enabled-cons d cs)

  on_message-OnlyPackets :
      (body : Option (List ℕ)) (s : Setup)
      → OnlyPackets s.msg_queue
      → OnlyPackets (on_message body s).msg_queue
  unfolding on_message
  on_message-OnlyPackets none s h = h
  on_message-OnlyPackets (some body) s (ps, e) = (
    ps ++ Client.new body ∷ [],
    ap (λ q. q ++ ok (some (Client.new body)) ∷ []) e
        ∙ sym (map-append _ ps (Client.new body ∷ [])),
  )

  -- The outcome of a callback: a causal state, or a panic.
  abbrev Keeps : Exec Setup → Type 0
  Keeps (done t) = IsCausal t
  Keeps panicked = Unit
  Keeps out_of_fuel = Unit

  webrtc_initialize-Keeps : Keeps (webrtc_initialize true address [])
  unfolding webrtc_initialize
  webrtc_initialize-Keeps = record {
    ordered = (inr (inl refl), (inl refl, (inl refl, (tt, tt))));
    enabled = (tt, ((refl, inl refl), tt));
    packets = ([], refl);
  }

  on_session_response-Keeps :
      (text : List ℕ) (response : Option SessionResponse) (s : Setup)
      → parse text ≡ response
      → Enabled s.calls request_onload
      → IsCausal s
      → Keeps (on_session_response response s)
  unfolding on_session_response
  on_session_response-Keeps text none s e h v = tt
  on_session_response-Keeps text (some response) s e h v = record {
    ordered = (h, v.ordered);
    enabled = ((text, e, inl refl), keep _ _ s.callbacks v.enabled);
    packets = v.packets;
  }

  on_response-Keeps :
      (text : Option (List ℕ)) (s : Setup)
      → Enabled s.calls request_onload
      → IsCausal s
      → Keeps (on_response parse text s)
  unfolding on_response
  on_response-Keeps none s h v = tt
  on_response-Keeps (some text) s h v = on_session_response-Keeps text (parse text) s refl h v

  fire-Keeps :
      (c : Callback) (r : Reads c) (s : Setup)
      → Enabled s.calls c
      → IsCausal s
      → Keeps (fire parse c r s)
  unfolding fire
  fire-Keeps channel_onopen r s h v = record {
    ordered = v.ordered;
    enabled = (tt, v.enabled);
    packets = v.packets;
  }
  fire-Keeps channel_onmsg none s h v = v
  fire-Keeps channel_onmsg (some body) s h v = record {
    ordered = v.ordered;
    enabled = v.enabled;
    packets = on_message-OnlyPackets (some body) s v.packets;
  }
  fire-Keeps (peer_offer url) none s h v = tt
  fire-Keeps (peer_offer url) (some d) s (e, h) v = record {
    ordered = (h, v.ordered);
    enabled = ((e, (d, inl refl)), keep _ _ s.callbacks v.enabled);
    packets = v.packets;
  }
  fire-Keeps (peer_desc url) none s h v = tt
  fire-Keeps (peer_desc url) (some d) s (e, h) v = record {
    ordered = (inl (ap open_post e), ((e, h), v.ordered));
    enabled = (
      (d.sdp, inl refl),
      keep (send_request d.sdp) (open_post url ∷ s.calls) s.callbacks
          (keep (open_post url) s.calls s.callbacks v.enabled),
    );
    packets = v.packets;
  }
  fire-Keeps request_onload r s h v = elim (Bool-cases (r.status == 200)) [
    | inl good ↦ rw good (on_response-Keeps r.text s h v)
    | inr bad ↦ rw bad v
  ]
  fire-Keeps (remote_desc_success response) false s h v = tt
  fire-Keeps (remote_desc_success response) true s (text, e, h) v = record {
    ordered = ((text, response, e, refl, h), v.ordered);
    enabled = keep _ _ s.callbacks v.enabled;
    packets = v.packets;
  }

  -- Whatever the browser fires, in whatever order and however often, a state that the set-up of a
  -- session for an address reaches is causal: each call of the browser comes behind those that it
  -- depends on (the peer connection, its unreliable and unordered channel, the offer, the local
  -- description, the request to the server of that address, its answer, the remote description,
  -- the candidate of that answer), a callback is registered only where what it depends on has been
  -- called, and the message queue holds packets alone.
  pub Reach-IsCausal : {s : Setup} → Reach s → IsCausal s
  Reach-IsCausal (start e) = subst Keeps e webrtc_initialize-Keeps
  Reach-IsCausal (later {s} {t} reach (fires i c r found e)) =
      let v = Reach-IsCausal reach in
      subst Keeps e (fire-Keeps c r s (All-get_elem? _ s.callbacks i c found v.enabled) v)
