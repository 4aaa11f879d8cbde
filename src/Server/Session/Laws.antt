-- ===== src/Server/Session/Laws.antt =====
-- What `serve` of server/src/impls/webrtc/session.rs sends, and which body it passes on.
use naia_socket.Base.{
  ℕ, zero, suc, ◌+◌, ◌*◌, ◌<◌, ◌≡◌, true, false, List, [], ◌∷◌, ◌++◌, done, ◌>>=◌, length, refl, ap,
  map, append_assoc, append-nil, length-append, arith, sym, ◌∙◌, Bool-cases, inl, inr,
  if◌then◌else◌,
}
use naia_socket.Server.Session.{
  Line, line, failure, waiting, Lines, starts_with, post_new_rtc_session, response_bad,
  skip_headers, read_request, Item, text, error, new, poll_lines, poll_next, items, Http, answer,
  serve,
}
use naia_socket.Server.Session.Header.{
  Response, Writer, w, write_headers, write_response_header, header_lines, response_head, reason,
  crlf, http_version,
}

-- The body that is passed on: each line with a newline, up to the first that has to be waited for.
unfoldable pub body : Lines → List Item
body [] = []
body (waiting ∷ lines) = []
body (failure e ∷ lines) = error e ∷ text (10 ∷ []) ∷ body lines
body (line bytes ∷ lines) = text bytes ∷ text (10 ∷ []) ∷ body lines

-- With fuel above twice the number of the lines, the polls of a new `RequestBuffer` end, and give
-- each line, or error, followed by a newline, up to the first line that has to be waited for.
pub items-body :
    (fuel : ℕ) (lines : Lines)
    → 2 * length lines < fuel
    → items fuel (new lines) ≡ done (body lines)
unfolding items poll_next poll_lines new body
items-body zero lines h = absurd (omega arith)
items-body (suc fuel) [] h = refl
items-body (suc fuel) (waiting ∷ lines) h = refl
items-body (suc zero) (line bytes ∷ lines) h = absurd (omega arith)
items-body (suc (suc fuel)) (line bytes ∷ lines) h =
    ap (λ m. m >>= (λ rest. done (text (10 ∷ []) ∷ rest)) >>= λ rest. done (text bytes ∷ rest))
      (items-body fuel lines (omega arith))
items-body (suc zero) (failure e ∷ lines) h = absurd (omega arith)
items-body (suc (suc fuel)) (failure e ∷ lines) h =
    ap (λ m. m >>= (λ rest. done (text (10 ∷ []) ∷ rest)) >>= λ rest. done (error e ∷ rest))
      (items-body fuel lines (omega arith))

-- A header line that is not empty.
abbrev pub nonempty : List ℕ × ℕ → Line
nonempty (cs, c) = line (c ∷ cs)

skip_headers_all :
    (headers : List (List ℕ × ℕ)) → skip_headers (map nonempty headers) ≡ done (false, [])
unfolding skip_headers
skip_headers_all [] = refl
skip_headers_all (h ∷ headers) = skip_headers_all headers

skip_headers_lem :
    (headers : List (List ℕ × ℕ)) (rest : Lines)
    → skip_headers (map nonempty headers ++ line [] ∷ rest) ≡ done (true, rest)
unfolding skip_headers
skip_headers_lem [] rest = refl
skip_headers_lem (h ∷ headers) rest = skip_headers_lem headers rest

-- On a request line, header lines, an empty line and the lines behind it, the first three ready,
-- and with fuel above twice the number of the lines behind, `serve` sends the answer to a session
-- with `body` of those lines where the request line starts with `POST /new_rtc_session`, and else
-- `RESPONSE_BAD`.
pub serve_lem :
    (H : Http) (first : List ℕ) (headers : List (List ℕ × ℕ)) (rest : Lines) (fuel : ℕ)
    → 2 * length rest < fuel
    → serve H fuel (line first ∷ (map nonempty headers ++ line [] ∷ rest))
      ≡ done (if starts_with first post_new_rtc_session then answer H (body rest) else response_bad)
unfolding serve read_request
serve_lem H first headers rest fuel h = elim (Bool-cases (starts_with first post_new_rtc_session)) [
  | inl t ↦ rw (t, skip_headers_lem headers rest, items-body fuel rest h)
  | inr f ↦ rw f
]

-- A request of ready lines whose headers are not followed by an empty line gets `RESPONSE_BAD`,
-- whatever its request line is and with any fuel.
pub serve_unterminated :
    (H : Http) (first : List ℕ) (headers : List (List ℕ × ℕ)) (fuel : ℕ)
    → serve H fuel (line first ∷ map nonempty headers) ≡ done response_bad
unfolding serve read_request
serve_unterminated H first headers fuel =
    elim (Bool-cases (starts_with first post_new_rtc_session)) [
      | inl t ↦ rw (t, skip_headers_all headers)
      | inr f ↦ rw f
    ]

write_headers_lem :
    (hs : List (List ℕ × List ℕ)) (out : Writer)
    → (write_headers hs out).io ≡ out.io ++ header_lines hs
unfolding write_headers w
write_headers_lem [] out = sym (append-nil out.io)
write_headers_lem ((hn, hv) ∷ hs) out =
    write_headers_lem hs (w crlf (w hv (w (b':' ∷ b' ' ∷ []) (w hn out)))) ∙ simp append_assoc

-- The count of a writer is right relative to another one.
abbrev pub Counts : Writer → Writer → Type 0
Counts out out' = out'.len + length out.io ≡ out.len + length out'.io

w-Counts : (x : List ℕ) (out out' : Writer) → Counts out out' → Counts out (w x out')
unfolding w
w-Counts x out out' h = omega (arith, length-append out'.io x)

write_headers-Counts :
    (hs : List (List ℕ × List ℕ)) (out out' : Writer)
    → Counts out out'
    → Counts out (write_headers hs out')
unfolding write_headers
write_headers-Counts [] out out' h = h
write_headers-Counts ((hn, hv) ∷ hs) out out' h = write_headers-Counts hs out _ (
    w-Counts crlf out _
      (w-Counts hv out _ (w-Counts (b':' ∷ b' ' ∷ []) out _ (w-Counts hn out out' h))))

-- `write_response_header` appends the status line, a line for each header in order, and an empty
-- line to what was written, and its count grows by the number of bytes that it wrote.
pub write_response_header_lem :
    (r : Response) (out : Writer)
    → ((write_response_header r out).io ≡ out.io ++ response_head r)
      × Counts out (write_response_header r out)
unfolding write_response_header w
write_response_header_lem r out = (
  rw (write_headers_lem r.headers) (simp append_assoc),
  w-Counts crlf out _ (
      write_headers-Counts r.headers out _ (
        w-Counts crlf out _ (
          w-Counts (reason r) out _ (
            w-Counts (b' ' ∷ []) out _
              (w-Counts r.status out _ (w-Counts http_version out out refl)))))),
)
