-- ===== src/Server/Session.antt =====
-- server/src/impls/webrtc/session.rs: the HTTP exchange by which a browser opens a session. Texts are
-- their bytes. The lines of the request are what the reader of the stream gives, without their
-- ends; `http_session_request` of webrtc-unreliable and the printing of a status by the crate http
-- are parameters. Reads and writes that fail are unwrapped, so they panic.
pub mod Header
pub mod Listen
pub mod Laws
use naia_socket.Base.{
  ℕ, zero, suc, ◌+◌, Bool, true, false, Option, none, some, List, [], ◌∷◌, ◌++◌, Exec, done,
  panicked, out_of_fuel, ◌>>=◌, ◌&&◌, ◌==◌, if◌then◌else◌, length,
}
use naia_socket.Server.Session.Header.{Response, response_header_to_vec}

-- What a poll of the lines gives: a line, an error of the stream, its end, or nothing yet.
pub data Line : Type 0 where
  line : List ℕ → Line
  failure : ℕ → Line
  waiting : Line

-- The lines that are still to come; behind them the stream has ended.
abbrev pub Lines : Type 0
Lines = List Line

-- `str::starts_with`
unfoldable pub starts_with : List ℕ → List ℕ → Bool
starts_with text [] = true
starts_with [] (p ∷ ps) = false
starts_with (c ∷ cs) (p ∷ ps) = c == p && starts_with cs ps

abbrev pub post_new_rtc_session : List ℕ
post_new_rtc_session =
    b'P' ∷ b'O' ∷ b'S' ∷ b'T' ∷ b' ' ∷ b'/' ∷ b'n' ∷ b'e' ∷ b'w' ∷ b'_' ∷ b'r' ∷ b't' ∷ b'c' ∷ b'_'
    ∷ b's' ∷ b'e' ∷ b's' ∷ b's' ∷ b'i' ∷ b'o' ∷ b'n' ∷ []

-- `RESPONSE_BAD`
unfoldable pub response_bad : List ℕ
response_bad =
    10 ∷ b'H' ∷ b'T' ∷ b'T' ∷ b'P' ∷ b'/' ∷ b'1' ∷ b'.' ∷ b'1' ∷ b' ' ∷ b'4' ∷ b'0' ∷ b'4' ∷ b' '
    ∷ b'N' ∷ b'O' ∷ b'T' ∷ b' ' ∷ b'F' ∷ b'O' ∷ b'U' ∷ b'N' ∷ b'D' ∷ 10 ∷ b'C' ∷ b'o' ∷ b'n' ∷ b't'
    ∷ b'e' ∷ b'n' ∷ b't' ∷ b'-' ∷ b'T' ∷ b'y' ∷ b'p' ∷ b'e' ∷ b':' ∷ b' ' ∷ b't' ∷ b'e' ∷ b'x'
    ∷ b't' ∷ b'/' ∷ b'h' ∷ b't' ∷ b'm' ∷ b'l' ∷ 10 ∷ b'C' ∷ b'o' ∷ b'n' ∷ b't' ∷ b'e' ∷ b'n' ∷ b't'
    ∷ b'-' ∷ b'L' ∷ b'e' ∷ b'n' ∷ b'g' ∷ b't' ∷ b'h' ∷ b':' ∷ b' ' ∷ b'0' ∷ 10 ∷ b'A' ∷ b'c' ∷ b'c'
    ∷ b'e' ∷ b's' ∷ b's' ∷ b'-' ∷ b'C' ∷ b'o' ∷ b'n' ∷ b't' ∷ b'r' ∷ b'o' ∷ b'l' ∷ b'-' ∷ b'A'
    ∷ b'l' ∷ b'l' ∷ b'o' ∷ b'w' ∷ b'-' ∷ b'O' ∷ b'r' ∷ b'i' ∷ b'g' ∷ b'i' ∷ b'n' ∷ b':' ∷ b' '
    ∷ b'*' ∷ 10 ∷ []

abbrev pub access_control_allow_origin : List ℕ
access_control_allow_origin =
    b'a' ∷ b'c' ∷ b'c' ∷ b'e' ∷ b's' ∷ b's' ∷ b'-' ∷ b'c' ∷ b'o' ∷ b'n' ∷ b't' ∷ b'r' ∷ b'o' ∷ b'l'
    ∷ b'-' ∷ b'a' ∷ b'l' ∷ b'l' ∷ b'o' ∷ b'w' ∷ b'-' ∷ b'o' ∷ b'r' ∷ b'i' ∷ b'g' ∷ b'i' ∷ b'n' ∷ []

-- The loop over the header lines, to the empty one. An `await` passes over what is not ready yet.
unfoldable pub skip_headers : Lines → Exec (Bool × Lines)
skip_headers [] = done (false, [])
skip_headers (waiting ∷ lines) = skip_headers lines
skip_headers (failure e ∷ lines) = panicked
skip_headers (line [] ∷ lines) = done (true, lines)
skip_headers (line (c ∷ cs) ∷ lines) = skip_headers lines

-- The first part of `serve`: whether the request opens a session, and the lines behind its headers.
unfoldable pub read_request : Lines → Exec (Bool × Lines)
unfolding skip_headers starts_with
read_request [] = done (false, [])
read_request (waiting ∷ lines) = read_request lines
read_request (failure e ∷ lines) = panicked
read_request (line text ∷ lines) =
    if starts_with text post_new_rtc_session then skip_headers lines else done (false, lines)

pub record RequestBuffer : Type 0 where
  pub add_newline : Bool
  pub buffer : Lines

-- What `poll_next` gives: a piece of the body, an error, or the end. It never asks to wait.
pub data Item : Type 0 where
  text : List ℕ → Item
  error : ℕ → Item
  finished : Item

unfoldable pub new : Lines → RequestBuffer
new lines = record { add_newline = false; buffer = lines }

-- The branch of `poll_next` that polls the lines.
unfoldable pub poll_lines : Lines → Item × RequestBuffer
poll_lines [] = (finished, record { add_newline = false; buffer = [] })
poll_lines (waiting ∷ lines) = (finished, record { add_newline = false; buffer = lines })
poll_lines (failure e ∷ lines) = (error e, record { add_newline = true; buffer = lines })
poll_lines (line bytes ∷ lines) = (text bytes, record { add_newline = true; buffer = lines })

unfoldable pub poll_next : RequestBuffer → Item × RequestBuffer
unfolding poll_lines
poll_next self =
    if self.add_newline
    then (text (10 ∷ []), record self { add_newline = false })
    else poll_lines self.buffer

-- The items that a reader takes until the end, with fuel.
unfoldable pub items : ℕ → RequestBuffer → Exec (List Item)
unfolding poll_next poll_lines
items zero self = out_of_fuel
items (suc fuel) self =
    let (item, self') = poll_next self in
    elim item [
      | finished ↦ done []
      | text t ↦ do rest ← items fuel self'; done (text t ∷ rest)
      | error e ↦ do rest ← items fuel self'; done (error e ∷ rest)
    ]

-- The crates webrtc-unreliable and http: the answer to a session request with this body, and the
-- setting of a header.
pub record Http : Type 0 where
  pub http_session_request : List Item → Option Response
  pub insert : List ℕ → List ℕ → List (List ℕ × List ℕ) → List (List ℕ × List ℕ)

module _ (H : Http) where
  -- The answer of a session with its header set.
  unfoldable pub allow_origin : Response → Response
  allow_origin resp = record resp {
    headers = Http.insert H access_control_allow_origin (b'*' ∷ []) resp.headers;
  }

  -- The second part of `serve`: what is sent when the request opens a session.
  unfoldable pub answer : List Item → List ℕ
  unfolding allow_origin
  answer body = elim (Http.http_session_request H body) [
    | none ↦ response_bad
    | some resp ↦ response_header_to_vec (allow_origin resp) ++ resp.body
  ]

  -- `serve`: the bytes that are sent before the connection is closed.
  unfoldable pub serve : ℕ → Lines → Exec (List ℕ)
  unfolding read_request answer new
  serve fuel lines = do
    (success, rest) ← read_request lines
    if success then (do body ← items fuel (new rest); done (answer body)) else done response_bad
