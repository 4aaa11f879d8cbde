-- ===== src/Tests/Browser.antt =====
-- The set-up of a session in the browser, and the crossings between Rust and the script, on concrete
-- inputs.
use naia_socket.Base.{
  ℕ, refl, true, false, none, some, List, [], ◌∷◌, arith, replicate, Option, ◌==◌, ◌-◌,
  if◌then◌else◌,
}
use naia_socket.Client.{Packet}
use naia_socket.Client
use naia_socket.Client.Wasm.{DataChannel}
use naia_socket.Client.Wasm
use naia_socket.Client.Wasm.Setup.{
  SessionResponse, Description, Setup, webrtc_initialize, peer_offer, peer_desc, request_onload,
  remote_desc_success, channel_onopen, fire, server_url, on_offer, on_local_description,
  create_offer, set_binary_type, create_channel, webudp, create_peer, stun_server,
  set_local_description, send_request, open_post, set_remote_description, add_candidate, on_load,
  on_response, on_session_response, on_remote_description,
}
use naia_socket.Client.Wasm.Setup.Laws.{Reach, start, later, fires, IsCausal, Reach-IsCausal}
use naia_socket.Client.Miniquad.{Script, Statics}
use naia_socket.Client.Miniquad.Objects.{Objects, Buffer}
use naia_socket.Client.Miniquad.Utf8.{to_utf8}
use naia_socket.Client.Miniquad.Utf8.Laws.{IsUtf8, to_utf8-IsUtf8}
use naia_socket.Client.Miniquad.Objects.Runs.{Crossing, sends, brings, fails}
use naia_socket.Client.Miniquad.Page.Same.{Event, Same, run-Same}
use naia_socket.Client.Miniquad.Page.Same as P

abbrev address : List ℕ
address = b'h' ∷ b'o' ∷ []

abbrev offer : Description
offer = record { type = b'o' ∷ []; sdp = 1 ∷ 2 ∷ [] }

abbrev response : SessionResponse
response = record {
  answer = record { sdp = 3 ∷ []; type = b'a' ∷ [] };
  candidate = record { candidate = 4 ∷ []; sdp_m_line_index = 0; sdp_mid = b'0' ∷ [] };
}

-- A parser that reads one text.
abbrev parse : List ℕ → Option SessionResponse
parse text = elim text [ [] ↦ none | b ∷ bs ↦ some response ]

abbrev url : List ℕ
url = server_url address

-- The offer is made and set, the request answered, the answer set; then the channel opens and a message
-- arrives.
abbrev begun : Setup
begun = record {
  calls =
      create_offer ∷ set_binary_type ∷ create_channel webudp false 0 ∷ create_peer stun_server ∷ [];
  callbacks = channel_onopen ∷ peer_offer url ∷ [];
  msg_queue = [];
}

abbrev offered : Setup
offered = record {
  calls = set_local_description offer ∷ begun.calls;
  callbacks = peer_desc url ∷ begun.callbacks;
  msg_queue = [];
}

abbrev requested : Setup
requested = record {
  calls = send_request offer.sdp ∷ open_post url ∷ offered.calls;
  callbacks = request_onload ∷ offered.callbacks;
  msg_queue = [];
}

abbrev answered : Setup
answered = record {
  calls = set_remote_description response.answer.sdp ∷ requested.calls;
  callbacks = remote_desc_success response ∷ requested.callbacks;
  msg_queue = [];
}

abbrev joined : Setup
joined = record {
  calls = add_candidate response.candidate ∷ answered.calls;
  callbacks = answered.callbacks;
  msg_queue = [];
}

begun-Reach : Reach parse address begun
unfolding webrtc_initialize
begun-Reach = start refl

joined-Reach : Reach parse address joined
unfolding webrtc_initialize fire on_offer on_local_description on_load on_response
    on_session_response on_remote_description
joined-Reach =
    later
      (later
        (later (later begun-Reach (fires 1 (peer_offer url) (some offer) refl refl))
          (fires 0 (peer_desc url) (some offer) refl refl))
        (fires 0 request_onload (record { status = 200; text = some (9 ∷ []) }) refl refl))
      (fires 0 (remote_desc_success response) true refl refl)

Reach-IsCausal_example : IsCausal parse address joined
Reach-IsCausal_example = Reach-IsCausal parse address joined-Reach

-- An allocator that gives what it is asked for.
abbrev grow : ℕ → List ℕ
grow n = replicate n 0

abbrev buffer : Buffer
buffer = record { block = 7 ∷ 8 ∷ []; len = 1 }

abbrev script : Script
script = record {
  Page = List (List ℕ);
  naia_connect = λ a ms. ms;
  naia_send = λ bytes ms. bytes ∷ ms;
  naia_resend_dropped_messages = λ ms. ms;
}

abbrev statics : Statics script
statics = record { message_queue = some []; error_queue = some []; page = [] }

abbrev no_objects : Objects
no_objects = record { js_objects = []; unique_js_id = 0 }

abbrev crossings : List Crossing
crossings =
    sends (Client.new (1 ∷ []))
    ∷ brings (2 ∷ 3 ∷ [])
    ∷ fails (0x20ac ∷ [])
    ∷ sends (Client.new [])
    ∷ []

to_utf8-IsUtf8_example : IsUtf8 (to_utf8 (0x20ac ∷ 0xd83d ∷ 0xde00 ∷ []))
to_utf8-IsUtf8_example =
    to_utf8-IsUtf8 (0x20ac ∷ 0xd83d ∷ 0xde00 ∷ []) (omega arith, (omega arith, (omega arith, tt)))

-- A channel that refuses the first `n` packets.
abbrev channel : DataChannel
channel = record {
  Channel = ℕ;
  send_with_u8_array = λ n bytes. if n == 0 then (true, 0) else (false, n - 1);
}

abbrev page : Wasm.Page channel
page = record {
  data_channel = 1;
  dropped_outgoing_messages = Client.new (1 ∷ []) ∷ [];
  message_queue = P.message (5 ∷ []) ∷ [];
}

abbrev events : List Event
events = P.sends (Client.new (2 ∷ [])) ∷ P.receives ∷ P.arrives (6 ∷ []) ∷ P.receives ∷ []

run-Same_example : Same channel (λ a. 0) events ((5 ∷ []) ∷ []) page
run-Same_example = run-Same channel (λ a. 0) events ((5 ∷ []) ∷ []) page refl
