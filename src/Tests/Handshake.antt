-- ===== src/Tests/Handshake.antt =====
-- The opening of a session on a concrete offer.
use naia_socket.Base.{ℕ, refl, none, some, List, [], ◌∷◌, ◌++◌, Option, arith}
use naia_socket.Client.Wasm.Setup.{SessionResponse, Description}
use naia_socket.Server.Session.{Http, line, post_new_rtc_session, starts_with}
use naia_socket.Server.Session.Header.{Response}
use naia_socket.Handshake.{Transport, Joins, webrtc_initialize-Joins}

abbrev offer : Description
offer = record { type = b'o' ∷ []; sdp = 1 ∷ 2 ∷ [] }

abbrev resp : Response
resp = record {
  status = b'2' ∷ b'0' ∷ b'0' ∷ [];
  canonical_reason = some (b'O' ∷ b'K' ∷ []);
  headers = [];
  body = b'x' ∷ [];
}

abbrev http : Http
http = record { http_session_request = λ items. some resp; insert = λ n v hs. (n, v) ∷ hs }

abbrev response : SessionResponse
response = record {
  answer = record { sdp = 3 ∷ []; type = b'a' ∷ [] };
  candidate = record { candidate = 4 ∷ []; sdp_m_line_index = 0; sdp_mid = b'0' ∷ [] };
}

abbrev parse : List ℕ → Option SessionResponse
parse text = elim text [ [] ↦ none | b ∷ bs ↦ some response ]

-- A browser that writes one header, and reads what this server sends.
abbrev transport : Transport
transport = record {
  request_line = λ url. post_new_rtc_session ++ b' ' ∷ [];
  request_headers = λ url sdp. (b'H' ∷ [], b'h') ∷ [];
  body_lines = λ sdp. line sdp ∷ [];
  read = λ bytes. record { status = 200; text = some (b'x' ∷ []) };
}

webrtc_initialize-Joins_example : Joins http transport parse (7 ∷ []) offer response 3
unfolding starts_with
webrtc_initialize-Joins_example =
    webrtc_initialize-Joins http transport parse (7 ∷ []) offer resp response 3 (omega arith) refl
      refl refl refl
