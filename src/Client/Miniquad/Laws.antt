-- ===== src/Client/Miniquad/Laws.antt =====
-- Which of the two queues client/src/impls/miniquad answers from.
use Prim.Native.String.{String}
use naia_socket.Base.{ℕ, ◌≡◌, refl, ◌⊎◌, inl, inr, Option, none, some, List, [], ◌∷◌}
use naia_socket.Client.{Packet, Received, message, ok, err}
use naia_socket.Client
use naia_socket.Client.Miniquad.{Script, Statics, pop_message, receive}

-- What waits in a queue that may not be there yet.
abbrev pub waiting : {A : Type 0} → Option (List A) → List A
waiting none = []
waiting (some queue) = queue

module _ (J : Script) where
  -- The three answers of `receive`: the oldest message, and the errors wait on; the oldest error,
  -- where no message waits; nothing, where neither does. Nothing else leaves a queue.
  abbrev pub Answers : Statics J → Received × Statics J → Type 0
  Answers s (answer, s') =
      ((m : List ℕ) × (waiting s.message_queue ≡ m ∷ waiting s'.message_queue)
        × (s'.error_queue ≡ s.error_queue)
        × (answer ≡ ok (some (Client.new_raw m))))
      ⊎ (((e : String) × (waiting s.message_queue ≡ [])
            × (s'.message_queue ≡ s.message_queue)
            × (waiting s.error_queue ≡ e ∷ waiting s'.error_queue)
            × (answer ≡ err (message e)))
          ⊎ ((waiting s.message_queue ≡ [])
              × (waiting s.error_queue ≡ [])
              × (s'.message_queue ≡ s.message_queue)
              × (s'.error_queue ≡ s.error_queue)
              × (answer ≡ ok none)))

  Answers-from :
      (ms : Option (List (List ℕ))) (es : Option (List String)) (page : J.Page)
      → Answers
          (record { message_queue = ms; error_queue = es; page = page })
          (pop_message J (record { message_queue = ms; error_queue = es; page = page }))
  unfolding pop_message
  Answers-from (some (m ∷ ms)) es page = inl (m, refl, refl, refl)
  Answers-from (some []) (some (e ∷ es)) page = inr (inl (e, refl, refl, refl, refl))
  Answers-from (some []) (some []) page = inr (inr (refl, refl, refl, refl, refl))
  Answers-from (some []) none page = inr (inr (refl, refl, refl, refl, refl))
  Answers-from none (some (e ∷ es)) page = inr (inl (e, refl, refl, refl, refl))
  Answers-from none (some []) page = inr (inr (refl, refl, refl, refl, refl))
  Answers-from none none page = inr (inr (refl, refl, refl, refl, refl))

  -- `receive` of the miniquad socket answers with the oldest message where one waits, and the
  -- errors stay; else with the oldest error where one waits; else with `Ok(None)`; and nothing
  -- else leaves a queue.
  pub receive-Answers : (s : Statics J) → Answers s (receive J s)
  unfolding receive
  receive-Answers s =
      Answers-from s.message_queue s.error_queue (J.naia_resend_dropped_messages s.page)
