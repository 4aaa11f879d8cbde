-- ===== src/Handshake.antt =====
-- A browser opens a session: client/src/impls/wasm_bindgen/webrtc_internal.rs with
-- server/src/impls/webrtc/session.rs. How the browser puts a request into lines and reads what the server
-- sends is a parameter.
use naia_socket.Base.{
  ℕ, ◌*◌, ◌<◌, ◌≡◌, refl, ap, ◌∙◌, true, false, Option, some, List, [], ◌∷◌, ◌++◌, map, done,
  length, get_elem?,
}
use naia_socket.Client.Wasm.Setup.{
  SessionResponse, Description, Call, create_peer, create_channel, set_binary_type, create_offer,
  set_local_description, open_post, send_request, set_remote_description, add_candidate, Callback,
  Reads, channel_onopen, peer_offer, peer_desc, request_onload, remote_desc_success, Setup,
  server_url, webrtc_initialize, on_offer, on_local_description, on_load, on_response,
  on_session_response, on_remote_description, fire, webudp, stun_server,
}
use naia_socket.Client.Wasm.Setup as Setup
use naia_socket.Client.Wasm.Setup.Laws.{Reach, start, later, fires}
use naia_socket.Server.Session.{
  line, Lines, starts_with, post_new_rtc_session, Http, Item, answer, allow_origin, serve,
}
use naia_socket.Server.Session.Laws.{body, nonempty, serve_lem}
use naia_socket.Server.Session.Header.{Response, response_header_to_vec}

-- The browser's requests and the responses that it reads.
pub record Transport : Type 0 where
  pub request_line : List ℕ → List ℕ
  pub request_headers : List ℕ → List ℕ → List (List ℕ × ℕ)
  pub body_lines : List ℕ → Lines
  pub read : List ℕ → Setup.Response

answer_lem :
    (H : Http) (items : List Item) (resp : Response)
    → Http.http_session_request H items ≡ some resp
    → answer H items ≡ response_header_to_vec (allow_origin H resp) ++ resp.body
unfolding answer
answer_lem H items resp e = rw (e, answer) refl

module _ (X : Transport) where
  -- The lines that reach the server for a request with a body.
  abbrev pub request : List ℕ → List ℕ → Lines
  request url sdp =
      line (X.request_line url)
      ∷ (map nonempty (X.request_headers url sdp) ++ line [] ∷ X.body_lines sdp)

module _ (H : Http) (X : Transport) (parse : List ℕ → Option SessionResponse)
    (address : List ℕ) where
  -- A registered callback is fired, with what it reads, and brings the set-up from one state to the next.
  abbrev pub Fires : (c : Callback) → Reads c → Setup → Setup → Type 0
  Fires c r s t = (i : ℕ) × (get_elem? s.callbacks i ≡ some c) × (fire parse c r s ≡ done t)

  -- Where the offer is `offer`, a run of the set-up comes to send a request; the server sends `bytes` for it;
  -- the callbacks that are then registered fire, with that response and with the success of the remote
  -- description; and at the end of this run the candidate is added.
  pub record Joins (offer : Description) (response : SessionResponse) (fuel : ℕ) : Type 0 where
    pub requested : Setup
    pub answered : Setup
    pub joined : Setup
    pub bytes : List ℕ
    pub reached : Reach parse address requested
    pub sent :
        (calls : List Call) × (requested.calls
          ≡ send_request offer.sdp ∷ open_post (server_url address) ∷ calls)
    pub replied : serve H fuel (request X (server_url address) offer.sdp) ≡ done bytes
    pub loaded : Fires request_onload (X.read bytes) requested answered
    pub described : Fires (remote_desc_success response) true answered joined
    pub ends : Reach parse address joined
    pub added :
        joined.calls
        ≡ add_candidate response.candidate
          ∷ set_remote_description response.answer.sdp
          ∷ requested.calls

  abbrev begun : Setup
  begun = record {
    calls =
        create_offer
        ∷ set_binary_type
        ∷ create_channel webudp false 0
        ∷ create_peer stun_server
        ∷ [];
    callbacks = channel_onopen ∷ peer_offer (server_url address) ∷ [];
    msg_queue = [];
  }

  abbrev offered : Description → Setup
  offered offer = record {
    calls = set_local_description offer ∷ begun.calls;
    callbacks = peer_desc (server_url address) ∷ begun.callbacks;
    msg_queue = [];
  }

  abbrev asks : Description → Setup
  asks offer = record {
    calls = send_request offer.sdp ∷ open_post (server_url address) ∷ (offered offer).calls;
    callbacks = request_onload ∷ (offered offer).callbacks;
    msg_queue = [];
  }

  begun-Reach : Reach parse address begun
  unfolding webrtc_initialize
  begun-Reach = start refl

  asks-Reach : (offer : Description) → Reach parse address (asks offer)
  unfolding fire on_offer on_local_description
  asks-Reach offer =
      later
        (later {s = begun} {t = offered offer} begun-Reach
          (fires 1 (peer_offer (server_url address)) (some offer) refl refl))
        (fires 0 (peer_desc (server_url address)) (some offer) refl refl)

  -- The state behind the answer.
  abbrev hears : Description → SessionResponse → Setup
  hears offer response = record {
    calls = set_remote_description response.answer.sdp ∷ (asks offer).calls;
    callbacks = remote_desc_success response ∷ (asks offer).callbacks;
    msg_queue = [];
  }

  on_load-hears :
      (offer : Description) (text : List ℕ) (response : SessionResponse)
      → parse text ≡ some response
      → fire parse request_onload (record { status = 200; text = some text }) (asks offer)
        ≡ done (hears offer response)
  unfolding fire on_load on_response on_session_response
  on_load-hears offer text response e = rw e refl

  -- Where the browser asks for the path of a session, the server has a session for the body that
  -- it is sent, the browser reads what the server then sends as a response of status 200 with its
  -- body, and that body parses: for any offer, a run of the set-up comes to send a request with
  -- that offer to the URL of the server, `serve` answers it, with any fuel above twice the lines
  -- of its body, and behind the answer and the success of the remote description the candidate of
  -- the answer has been added. Each of these callbacks is registered when it fires, and all of it
  -- is one run of the set-up.
  pub webrtc_initialize-Joins :
      (offer : Description) (resp : Response) (response : SessionResponse) (fuel : ℕ)
      → 2 * length (X.body_lines offer.sdp) < fuel
      → starts_with (X.request_line (server_url address)) post_new_rtc_session ≡ true
      → Http.http_session_request H (body (X.body_lines offer.sdp)) ≡ some resp
      → X.read (response_header_to_vec (allow_origin H resp) ++ resp.body)
        ≡ record { status = 200; text = some resp.body }
      → parse resp.body ≡ some response
      → Joins offer response fuel
  unfolding fire on_remote_description
  webrtc_initialize-Joins offer resp response fuel enough path opens reads parses = record {
    requested = asks offer;
    answered = hears offer response;
    joined = record (hears offer response) {
      calls = add_candidate response.candidate ∷ (hears offer response).calls;
    };
    bytes = response_header_to_vec (allow_origin H resp) ++ resp.body;
    reached = asks-Reach offer;
    sent = (_, refl);
    replied =
        serve_lem H (X.request_line (server_url address))
          (X.request_headers (server_url address) offer.sdp) (X.body_lines offer.sdp) fuel enough
        ∙ rw path (ap done (answer_lem H (body (X.body_lines offer.sdp)) resp opens));
    loaded = (0, refl, rw reads (on_load-hears offer resp.body response parses));
    described = (0, refl, refl);
    ends =
        later
          (later {s = asks offer} {t = hears offer response} (asks-Reach offer) (
            fires 0 request_onload (record { status = 200; text = some resp.body }) refl
              (on_load-hears offer resp.body response parses)))
          (fires 0 (remote_desc_success response) true refl refl);
    added = refl;
  }
