-- ===== src/Client/Wasm/Setup.antt =====
-- client/src/impls/wasm_bindgen/webrtc_internal.rs: how the browser's client opens its data channel. The
-- program runs in callbacks. Here a callback is a value with what its closure captured; `fire` is
-- its body; what the body reads from the browser is its argument; and its calls of the browser are
-- logged, the latest first. A promise fires its callback once: here a callback may fire at any time
-- once it is registered, which allows more runs. Texts are their bytes; the JSON parser with the
-- conversion to a record is a parameter. Callbacks that only log are left out.
pub mod Laws
use naia_socket.Base.{
  ℕ, Bool, true, false, Option, none, some, List, [], ◌∷◌, ◌++◌, Exec, done, panicked, ◌==◌,
  if◌then◌else◌,
}
use naia_socket.Client.{Received, ok}
use naia_socket.Client

-- `SessionAnswer`
pub record SessionAnswer : Type 0 where
  pub sdp : List ℕ
  pub type : List ℕ

pub record SessionCandidate : Type 0 where
  pub candidate : List ℕ
  pub sdp_m_line_index : ℕ
  pub sdp_mid : List ℕ

-- `JsSessionResponse`
pub record SessionResponse : Type 0 where
  pub answer : SessionAnswer
  pub candidate : SessionCandidate

-- `RtcSessionDescription`
pub record Description : Type 0 where
  pub type : List ℕ
  pub sdp : List ℕ

-- The calls of the browser, with the numbers and texts that they are given.
pub data Call : Type 0 where
  create_peer : List ℕ → Call
  create_channel : List ℕ → Bool → ℕ → Call
  set_binary_type : Call
  create_offer : Call
  set_local_description : Description → Call
  open_post : List ℕ → Call
  send_request : List ℕ → Call
  set_remote_description : List ℕ → Call
  add_candidate : SessionCandidate → Call

pub data Callback : Type 0 where
  channel_onopen : Callback
  channel_onmsg : Callback
  peer_offer : List ℕ → Callback
  peer_desc : List ℕ → Callback
  request_onload : Callback
  remote_desc_success : SessionResponse → Callback

-- What the request's callback reads: `status()`, and `response_text()`, where it is a text.
pub record Response : Type 0 where
  pub status : ℕ
  pub text : Option (List ℕ)

-- What each callback reads: whether the data is an `ArrayBuffer`, whether the value is a session
-- description, the local description, the response, and whether the candidate can be made.
abbrev pub Reads : Callback → Type 0
Reads channel_onopen = Unit
Reads channel_onmsg = Option (List ℕ)
Reads (peer_offer url) = Option Description
Reads (peer_desc url) = Option Description
Reads request_onload = Response
Reads (remote_desc_success response) = Bool

pub record Setup : Type 0 where
  pub calls : List Call
  pub callbacks : List Callback
  pub msg_queue : List Received

abbrev pub http : List ℕ
http = b'h' ∷ b't' ∷ b't' ∷ b'p' ∷ b':' ∷ b'/' ∷ b'/' ∷ []

abbrev pub new_rtc_session : List ℕ
new_rtc_session =
    b'/' ∷ b'n' ∷ b'e' ∷ b'w' ∷ b'_' ∷ b'r' ∷ b't' ∷ b'c' ∷ b'_' ∷ b's' ∷ b'e' ∷ b's' ∷ b's' ∷ b'i'
    ∷ b'o' ∷ b'n' ∷ []

abbrev pub stun_server : List ℕ
stun_server =
    b's' ∷ b't' ∷ b'u' ∷ b'n' ∷ b':' ∷ b's' ∷ b't' ∷ b'u' ∷ b'n' ∷ b'.' ∷ b'l' ∷ b'.' ∷ b'g' ∷ b'o'
    ∷ b'o' ∷ b'g' ∷ b'l' ∷ b'e' ∷ b'.' ∷ b'c' ∷ b'o' ∷ b'm' ∷ b':' ∷ b'1' ∷ b'9' ∷ b'3' ∷ b'0'
    ∷ b'2' ∷ []

abbrev pub webudp : List ℕ
webudp = b'w' ∷ b'e' ∷ b'b' ∷ b'u' ∷ b'd' ∷ b'p' ∷ []

-- `server_url_str`
unfoldable pub server_url : List ℕ → List ℕ
server_url socket_address = http ++ (socket_address ++ new_rtc_session)

-- `webrtc_initialize`; the argument says whether the peer connection could be made.
unfoldable pub webrtc_initialize : Bool → List ℕ → List Received → Exec Setup
unfolding server_url
webrtc_initialize false socket_address msg_queue = panicked
webrtc_initialize true socket_address msg_queue = done (record {
  calls =
      create_offer ∷ set_binary_type ∷ create_channel webudp false 0 ∷ create_peer stun_server ∷ [];
  callbacks = channel_onopen ∷ peer_offer (server_url socket_address) ∷ [];
  msg_queue = msg_queue;
})

-- `channel_onopen_func`
unfoldable pub on_open : Setup → Setup
on_open s = record s { callbacks = channel_onmsg ∷ s.callbacks }

-- `channel_onmsg_func`
unfoldable pub on_message : Option (List ℕ) → Setup → Setup
on_message none s = s
on_message (some body) s = record s { msg_queue = s.msg_queue ++ ok (some (Client.new body)) ∷ [] }

-- `peer_offer_func`
unfoldable pub on_offer : List ℕ → Option Description → Setup → Exec Setup
on_offer url none s = panicked
on_offer url (some description) s = done (record s {
  calls = set_local_description description ∷ s.calls;
  callbacks = peer_desc url ∷ s.callbacks;
})

-- `peer_desc_func`; a request that cannot be opened or sent is logged, and goes on.
unfoldable pub on_local_description : List ℕ → Option Description → Setup → Exec Setup
on_local_description url none s = panicked
on_local_description url (some description) s = done (record s {
  calls = send_request description.sdp ∷ open_post url ∷ s.calls;
  callbacks = request_onload ∷ s.callbacks;
})

-- `remote_desc_success_func`
unfoldable pub on_remote_description : SessionResponse → Bool → Setup → Exec Setup
on_remote_description response false s = panicked
on_remote_description response true s =
    done (record s { calls = add_candidate response.candidate ∷ s.calls })

-- `request_func`, behind the parsing of the response.
unfoldable pub on_session_response : Option SessionResponse → Setup → Exec Setup
on_session_response none s = panicked
on_session_response (some response) s = done (record s {
  calls = set_remote_description response.answer.sdp ∷ s.calls;
  callbacks = remote_desc_success response ∷ s.callbacks;
})

module _ (parse : List ℕ → Option SessionResponse) where
  -- `request_func`, behind the test of the status.
  unfoldable pub on_response : Option (List ℕ) → Setup → Exec Setup
  unfolding on_session_response
  on_response none s = panicked
  on_response (some text) s = on_session_response (parse text) s

  unfoldable pub on_load : Response → Setup → Exec Setup
  unfolding on_response
  on_load response s = if response.status == 200 then on_response response.text s else done s

  -- The body of each callback.
  unfoldable pub fire : (c : Callback) → Reads c → Setup → Exec Setup
  unfolding on_open on_message on_offer on_local_description on_load on_remote_description
  fire channel_onopen r s = done (on_open s)
  fire channel_onmsg r s = done (on_message r s)
  fire (peer_offer url) r s = on_offer url r s
  fire (peer_desc url) r s = on_local_description url r s
  fire request_onload r s = on_load r s
  fire (remote_desc_success response) r s = on_remote_description response r s
