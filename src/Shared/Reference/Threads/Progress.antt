-- ===== src/Shared/Reference/Threads/Progress.antt =====
-- Threads that share a `Ref` over a `Mutex` do not deadlock, and all come to an end.
use naia_socket.Base.{
  ℕ, zero, suc, ◌+◌, ◌*◌, ◌≤◌, ◌<◌, ◌≡◌, refl, sym, ap, ◌∙◌, ◌⊎◌, inl, inr, false, Bool-cases,
  Option, none, some, List, [], ◌∷◌, length, get_elem?, All, arith, subst,
}
use naia_socket.Shared.Reference.Threads.{
  Write, Thread, idle, locked, loaded, stored, crashed, Mutex, lock, store, step_thread, System,
  set, Step, steps, Reach, later,
}
use naia_socket.Shared.Reference.Threads.Laws.{bit, holders}
use naia_socket.Shared.Reference.Threads.Serial.{Reach-IsSerial}

module _ {T : Type 0} where
  -- A thread that has stored all its writes, or has panicked.
  abbrev pub HasEnded : Thread T → Type 0
  HasEnded (idle []) = Unit
  HasEnded (crashed fs) = Unit
  HasEnded _ = ⊥

  -- Every run from here is finite, and goes on until all threads have ended.
  pub data Ends : System T → Type 0 where
    ends :
        {s : System T}
        → All HasEnded s.threads ⊎ ((s' : System T) × Step s s')
        → ((s' : System T) → Step s s' → Ends s')
        → Ends s

  -- The steps that a thread has left at most.
  abbrev left : Thread T → ℕ
  left (idle fs) = 4 * length fs
  left (locked f fs) = 4 * length fs + 3
  left (loaded x f fs) = 4 * length fs + 2
  left (stored fs) = 4 * length fs + 1
  left (crashed fs) = 0

  abbrev all_left : List (Thread T) → ℕ
  all_left [] = 0
  all_left (t ∷ ts) = left t + all_left ts

  abbrev Less : Thread T → Option (Thread T × Mutex T) → Type 0
  Less t none = Unit
  Less t (some (t', m)) = left t' < left t

  store-Less :
      (o : Option T) (x : T) (f : Write T) (fs : List (Write T)) (m : Mutex T)
      → Less (loaded x f fs) (some (store o f fs m))
  unfolding store
  store-Less none x f fs m = omega arith
  store-Less (some y) x f fs m = omega arith

  step_thread-Less : (t : Thread T) (m : Mutex T) → Less t (step_thread t m)
  unfolding step_thread lock
  step_thread-Less (idle []) m = tt
  step_thread-Less (idle (f ∷ fs)) m = elim (Bool-cases m.is_locked) [
    | inl e ↦ rw e tt
    | inr e ↦ elim (Bool-cases m.poisoned) [
      | inl q ↦ rw (e, q) (omega arith)
      | inr q ↦ rw (e, q) (omega arith)
    ]
  ]
  step_thread-Less (locked f fs) m = omega arith
  step_thread-Less (loaded x f fs) m = store-Less (f x) x f fs m
  step_thread-Less (stored fs) m = omega arith
  step_thread-Less (crashed fs) m = tt

  all_left-set :
      (ts : List (Thread T)) (i : ℕ) (t t' : Thread T)
      → get_elem? ts i ≡ some t
      → left t' < left t
      → all_left (set ts i t') < all_left ts
  all_left-set [] i t t' e h = cc
  all_left-set (u ∷ us) zero t t' e h =
      let same : left u ≡ left t = let at : u ≡ t = cc in ap left at in omega arith
  all_left-set (u ∷ us) (suc i) t t' e h = omega (arith, all_left-set us i t t' e h)

  all_left-Step : (s s' : System T) → Step s s' → all_left s'.threads < all_left s.threads
  all_left-Step s s' (steps i t t' m found moves) =
      all_left-set s.threads i t t' found (subst (Less t) moves (step_thread-Less t s.mutex))

  -- A thread can step, and it is the one at some place.
  abbrev CanStep : List (Thread T) → Mutex T → Type 0
  CanStep ts m =
      (i : ℕ) × (t : Thread T) × (r : Thread T × Mutex T) × (get_elem? ts i ≡ some t)
      × (step_thread t m ≡ some r)

  CanStep-cons :
      (u : Thread T) (ts : List (Thread T)) (m : Mutex T) → CanStep ts m → CanStep (u ∷ ts) m
  CanStep-cons u ts m (i, t, r, e, f) = (suc i, t, r, e, f)

  -- The holder of the lock never waits.
  holder_steps : (ts : List (Thread T)) (m : Mutex T) → 1 ≤ holders ts → CanStep ts m
  unfolding step_thread
  holder_steps [] m h = absurd (omega arith)
  holder_steps (idle fs ∷ ts) m h = CanStep-cons _ ts m (holder_steps ts m (omega arith))
  holder_steps (locked f fs ∷ ts) m h = (0, _, _, refl, refl)
  holder_steps (loaded x f fs ∷ ts) m h = (0, _, _, refl, refl)
  holder_steps (stored fs ∷ ts) m h = (0, _, _, refl, refl)
  holder_steps (crashed fs ∷ ts) m h = CanStep-cons _ ts m (holder_steps ts m (omega arith))

  -- A free mutex can be locked, or its `unwrap` panics.
  lock_free :
      (f : Write T) (fs : List (Write T)) (m : Mutex T)
      → m.is_locked ≡ false
      → (r : Thread T × Mutex T) × (lock f fs m ≡ some r)
  unfolding lock
  lock_free f fs m e = elim (Bool-cases m.poisoned) [
    | inl q ↦ rw (e, q) (_, refl)
    | inr q ↦ rw (e, q) (_, refl)
  ]

  free_steps :
      (ts : List (Thread T)) (m : Mutex T) → m.is_locked ≡ false → All HasEnded ts ⊎ CanStep ts m
  unfolding step_thread
  free_steps [] m e = inl tt
  free_steps (idle [] ∷ ts) m e = elim (free_steps ts m e) [
    | inl all ↦ inl (tt, all)
    | inr can ↦ inr (CanStep-cons _ ts m can)
  ]
  free_steps (idle (f ∷ fs) ∷ ts) m e = let (r, q) = lock_free f fs m e in inr (0, _, r, refl, q)
  free_steps (locked f fs ∷ ts) m e = inr (0, _, _, refl, refl)
  free_steps (loaded x f fs ∷ ts) m e = inr (0, _, _, refl, refl)
  free_steps (stored fs ∷ ts) m e = inr (0, _, _, refl, refl)
  free_steps (crashed fs ∷ ts) m e = elim (free_steps ts m e) [
    | inl all ↦ inl (tt, all)
    | inr can ↦ inr (CanStep-cons _ ts m can)
  ]

  Step-of_can : (s : System T) → CanStep s.threads s.mutex → (s' : System T) × Step s s'
  Step-of_can s (i, t, (t', m), e, f) = (_, steps i t t' m e f)

module _ {T : Type 0} (value : T) (programs : List (List (Write T))) where
  goes_on :
      (s : System T)
      → Reach value programs s
      → All HasEnded s.threads ⊎ ((s' : System T) × Step s s')
  goes_on s reach = elim (Bool-cases s.mutex.is_locked) [
    | inl e ↦
        let h = (Reach-IsSerial value programs reach).exclusive in
        inr (
          Step-of_can s (
            holder_steps s.threads s.mutex (subst (λ n. 1 ≤ n) (sym (h ∙ ap bit e)) (omega arith))))
    | inr e ↦ elim (free_steps s.threads s.mutex e) [
      | inl all ↦ inl all
      | inr can ↦ inr (Step-of_can s can)
    ]
  ]

  Ends-below : (n : ℕ) (s : System T) → all_left s.threads < n → Reach value programs s → Ends s
  Ends-below zero s h reach = absurd (omega arith)
  Ends-below (suc n) s h reach =
      ends (goes_on s reach)
        (λ s' step. Ends-below n s' (omega (arith, all_left-Step s s' step)) (later reach step))

  -- From every state that threads reach which write through clones of one `Ref` over a `Mutex`,
  -- every run is finite, and can go on until each thread has stored all its writes or has
  -- panicked: there is no deadlock, also where a write panics and poisons the mutex.
  pub Reach-Ends : {s : System T} → Reach value programs s → Ends s
  Reach-Ends {s} reach = Ends-below (suc (all_left s.threads)) s (omega arith) reach
