-- ===== src/Server/Session/Header.antt =====
-- `response_header_to_vec` and `write_response_header` of server/src/impls/webrtc/session.rs.
use naia_socket.Base.{ℕ, ◌+◌, Option, none, some, List, [], ◌∷◌, ◌++◌, length}

-- A response of the crate http: the text of its status, the phrase for it if it has one, its
-- headers in the order in which they are listed, and its body.
pub record Response : Type 0 where
  pub status : List ℕ
  pub canonical_reason : Option (List ℕ)
  pub headers : List (List ℕ × List ℕ)
  pub body : List ℕ

-- What was written so far, and its length as the code counts it.
pub record Writer : Type 0 where
  pub io : List ℕ
  pub len : ℕ

-- The macro `w!`. A `Vec` takes every write.
unfoldable pub w : List ℕ → Writer → Writer
w x out = record { io = out.io ++ x; len = out.len + length x }

abbrev pub http_version : List ℕ
http_version = b'H' ∷ b'T' ∷ b'T' ∷ b'P' ∷ b'/' ∷ b'1' ∷ b'.' ∷ b'1' ∷ b' ' ∷ []

abbrev pub crlf : List ℕ
crlf = 13 ∷ 10 ∷ []

abbrev pub unknown : List ℕ
unknown = b'U' ∷ b'n' ∷ b'k' ∷ b'n' ∷ b'o' ∷ b'w' ∷ b'n' ∷ []

abbrev pub reason : Response → List ℕ
reason r = elim r.canonical_reason [ none ↦ unknown | some text ↦ text ]

-- The loop over the headers.
unfoldable pub write_headers : List (List ℕ × List ℕ) → Writer → Writer
unfolding w
write_headers [] out = out
write_headers ((hn, hv) ∷ headers) out =
    write_headers headers (w crlf (w hv (w (b':' ∷ b' ' ∷ []) (w hn out))))

unfoldable pub write_response_header : Response → Writer → Writer
unfolding w write_headers
write_response_header r out = w crlf (
    write_headers r.headers
      (w crlf (w (reason r) (w (b' ' ∷ []) (w r.status (w http_version out))))))

unfoldable pub response_header_to_vec : Response → List ℕ
unfolding write_response_header
response_header_to_vec r = (write_response_header r (record { io = []; len = 0 })).io

-- A header as it is printed.
abbrev pub header_line : List ℕ × List ℕ → List ℕ
header_line (hn, hv) = hn ++ (b':' ∷ b' ' ∷ []) ++ hv ++ crlf

-- The head of an HTTP response: the status line, a line for each header, and an empty line.
abbrev pub header_lines : List (List ℕ × List ℕ) → List ℕ
header_lines [] = []
header_lines (h ∷ hs) = header_line h ++ header_lines hs

abbrev pub response_head : Response → List ℕ
response_head r =
    (http_version ++ r.status ++ (b' ' ∷ []) ++ reason r ++ crlf) ++ header_lines r.headers ++ crlf
