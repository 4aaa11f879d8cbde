-- ===== src/Demo/Stage/Drains.antt =====
-- What the queues of client/src/impls/miniquad give until they are empty or an error comes.
use naia_socket.Base.{
  ℕ, ◌≤◌, ◌<◌, ◌≡◌, refl, ap, ◌⊎◌, inl, inr, Option, none, some, List, [], ◌∷◌, map, Exec, done,
  length, arith,
}
use Prim.Native.String.{String}
use naia_socket.Client.{Packet, NaiaClientSocketError, message, Received, ok, err}
use naia_socket.Client
use naia_socket.Client.Conditioner.Laws.{Gives, stops, fails, gives}
use naia_socket.Client.Miniquad.{Script, Statics, pop_message, pop_error, receive, miniquad_socket}
use naia_socket.Client.Miniquad.Laws.{waiting}

module _ (J : Script) where
  abbrev statics : Option (List (List ℕ)) → Option (List String) → J.Page → Statics J
  statics ms es page = record { message_queue = ms; error_queue = es; page = page }

  -- An error was taken, or none was there.
  abbrev pub Stopped : Statics J → Option NaiaClientSocketError → Statics J → Type 0
  Stopped s stop t =
      ((stop ≡ none) × (length (waiting t.error_queue) ≤ length (waiting s.error_queue)))
      ⊎ ((e : NaiaClientSocketError) × (stop ≡ some e)
          × (length (waiting t.error_queue) < length (waiting s.error_queue)))

  -- What the queues give: the messages, and then an error if one waits.
  abbrev pub Drains : Statics J → Type 0
  Drains s =
      (stop : Option NaiaClientSocketError) × (t : Statics J) × Gives (miniquad_socket J) s
        (map Client.new_raw (waiting s.message_queue)) stop t
      × (waiting t.message_queue ≡ [])
      × Stopped s stop t

  empty_pop :
      (ms : Option (List (List ℕ))) (es : Option (List String)) (page : J.Page)
      → waiting ms ≡ []
      → pop_message J (statics ms es page) ≡ pop_error J (statics ms es page)
  unfolding pop_message
  empty_pop none es page e = refl
  empty_pop (some []) es page e = refl
  empty_pop (some (m ∷ ms)) es page e = cc

  -- `receive` where no message waits.
  error-Drains :
      (ms : Option (List (List ℕ))) (es : Option (List String)) (page : J.Page)
      → waiting ms ≡ []
      → Drains (statics ms es page)
  unfolding receive pop_error
  error-Drains ms none page e =
      let page' = J.naia_resend_dropped_messages page in
      (
        none,
        statics ms none page',
        rw e (stops (ap done (empty_pop ms none page' e))),
        e,
        inl (refl, omega arith),
      )
  error-Drains ms (some []) page e =
      let page' = J.naia_resend_dropped_messages page in
      (
        none,
        statics ms (some []) page',
        rw e (stops (ap done (empty_pop ms (some []) page' e))),
        e,
        inl (refl, omega arith),
      )
  error-Drains ms (some (x ∷ es)) page e =
      let page' = J.naia_resend_dropped_messages page in
      (
        some (message x),
        statics ms (some es) page',
        rw e (fails (ap done (empty_pop ms (some (x ∷ es)) page' e))),
        e,
        inr (message x, refl, omega arith),
      )

  got :
      (m : List ℕ) (ms : List (List ℕ)) (es : Option (List String)) (page : J.Page)
      → Exec.done (receive J (statics (some (m ∷ ms)) es page))
        ≡ done (
          ok (some (Client.new_raw m)),
          statics (some ms) es (J.naia_resend_dropped_messages page),
        )
  unfolding receive pop_message
  got m ms es page = refl

  pub Drains_lem :
      (ms : Option (List (List ℕ))) (es : Option (List String)) (page : J.Page)
      → Drains (statics ms es page)
  Drains_lem none es page = error-Drains none es page refl
  Drains_lem (some []) es page = error-Drains (some []) es page refl
  Drains_lem (some (m ∷ ms)) es page =
      let (stop, t, g, e, o) = Drains_lem (some ms) es (J.naia_resend_dropped_messages page) in
      (stop, t, gives (got m ms es page) g, e, o)
