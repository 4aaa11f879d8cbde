-- ===== src/Shared/Reference/Threads/Laws.antt =====
-- What one step of a thread does in Reference/Threads, and what it leaves of the other threads.
use naia_socket.Base.{
  ℕ, zero, suc, ◌+◌, ◌≤◌, ◌≡◌, refl, sym, ap, ◌∙◌, ◌⊎◌, inl, inr, Bool, true, false, Option, none,
  some, List, [], ◌∷◌, if◌then◌else◌, get_elem?, All, arith, subst,
}
use naia_socket.Shared.Reference.Threads.{
  Write, Thread, idle, locked, loaded, stored, crashed, Mutex, lock, store, step_thread, set,
}

abbrev pub bit : Bool → ℕ
bit b = if b then 1 else 0

module _ {T : Type 0} where
  -- Whether a thread holds the lock, as a number.
  abbrev pub holding : Thread T → ℕ
  holding (idle fs) = 0
  holding (locked f fs) = 1
  holding (loaded x f fs) = 1
  holding (stored fs) = 1
  holding (crashed fs) = 0

  abbrev pub holders : List (Thread T) → ℕ
  holders [] = 0
  holders (t ∷ ts) = holding t + holders ts

  -- The writes that a thread has not stored.
  abbrev pub todo : Thread T → List (Write T)
  todo (idle fs) = fs
  todo (locked f fs) = f ∷ fs
  todo (loaded x f fs) = f ∷ fs
  todo (stored fs) = fs
  todo (crashed fs) = fs

  -- The value that a thread has read is still that of the mutex.
  abbrev pub IsFresh : T → Thread T → Type 0
  IsFresh v (loaded x f fs) = x ≡ v
  IsFresh v _ = Unit

  -- What a step of `t` does: it stores nothing, or the first of its writes.
  abbrev pub Effect : Thread T → Mutex T → Option (Thread T × Mutex T) → Type 0
  Effect t m none = Unit
  Effect t m (some (t', m')) =
      (holding t' + bit m.is_locked ≡ holding t + bit m'.is_locked)
      × IsFresh m'.value t'
      × (((todo t' ≡ todo t) × (m'.value ≡ m.value))
          ⊎ ((f : Write T) × (todo t ≡ f ∷ todo t')
              × (f m.value ≡ some m'.value)
              × (holding t ≡ 1)
              × (holding t' ≡ 1)))

  abbrev pub mutex : T → Bool → Bool → Mutex T
  mutex v l p = record { value = v; is_locked = l; poisoned = p }

  store-Effect :
      (o : Option T) (v : T) (p : Bool) (f : Write T) (fs : List (Write T))
      → f v ≡ o
      → Effect (loaded v f fs) (mutex v true p) (some (store o f fs (mutex v true p)))
  unfolding store
  store-Effect none v p f fs e = (refl, tt, inl (refl, refl))
  store-Effect (some y) v p f fs e = (refl, tt, inr (f, refl, e, refl, refl))

  pub step_thread-Effect :
      (t : Thread T) (v : T) (l p : Bool)
      → IsFresh v t
      → holding t ≤ bit l
      → Effect t (mutex v l p) (step_thread t (mutex v l p))
  unfolding step_thread lock
  step_thread-Effect (idle []) v l p h b = tt
  step_thread-Effect (idle (f ∷ fs)) v true p h b = tt
  step_thread-Effect (idle (f ∷ fs)) v false true h b = (refl, tt, inl (refl, refl))
  step_thread-Effect (idle (f ∷ fs)) v false false h b = (refl, tt, inl (refl, refl))
  step_thread-Effect (locked f fs) v l p h b = (refl, refl, inl (refl, refl))
  step_thread-Effect (loaded x f fs) v true p h b =
      subst
        (λ y. Effect (loaded y f fs) (mutex v true p) (some (store (f y) f fs (mutex v true p))))
        (sym h) (store-Effect (f v) v p f fs refl)
  step_thread-Effect (loaded x f fs) v false p h b = absurd (omega arith)
  step_thread-Effect (stored fs) v true p h b = (refl, tt, inl (refl, refl))
  step_thread-Effect (stored fs) v false p h b = absurd (omega arith)
  step_thread-Effect (crashed fs) v l p h b = tt

  pub holders-set :
      (ts : List (Thread T)) (i : ℕ) (t t' : Thread T)
      → get_elem? ts i ≡ some t
      → holders (set ts i t') + holding t ≡ holders ts + holding t'
  holders-set [] i t t' e = cc
  holders-set (u ∷ us) zero t t' e = let same : u ≡ t = cc in rw same (omega arith)
  holders-set (u ∷ us) (suc i) t t' e = omega (arith, holders-set us i t t' e)

  pub holding_le :
      (ts : List (Thread T)) (i : ℕ) (t : Thread T)
      → get_elem? ts i ≡ some t
      → holding t ≤ holders ts
  holding_le [] i t e = cc
  holding_le (u ∷ us) zero t e = let same : u ≡ t = cc in rw same (omega arith)
  holding_le (u ∷ us) (suc i) t e = omega (arith, holding_le us i t e)

  -- A thread that holds no lock has read nothing.
  IsFresh-idle : (v : T) (t : Thread T) → holding t ≡ 0 → IsFresh v t
  IsFresh-idle v (idle fs) h = tt
  IsFresh-idle v (locked f fs) h = tt
  IsFresh-idle v (loaded x f fs) h = absurd (omega arith)
  IsFresh-idle v (stored fs) h = tt
  IsFresh-idle v (crashed fs) h = tt

  pub All-IsFresh_idle : (v : T) (ts : List (Thread T)) → holders ts ≡ 0 → All (IsFresh v) ts
  All-IsFresh_idle v [] h = tt
  All-IsFresh_idle v (t ∷ ts) h =
      (IsFresh-idle v t (omega arith), All-IsFresh_idle v ts (omega arith))

  -- The others are fresh for a new value where the thread that steps is the one that holds the lock.
  pub IsFresh-store :
      (v : T) (ts : List (Thread T)) (i : ℕ) (t t' : Thread T)
      → get_elem? ts i ≡ some t
      → holding t ≡ 1
      → holders ts ≤ 1
      → IsFresh v t'
      → All (IsFresh v) (set ts i t')
  IsFresh-store v [] i t t' e h n f = tt
  IsFresh-store v (u ∷ us) zero t t' e h n f =
      let same : u ≡ t = cc in
      let one : holding u ≡ 1 = ap holding same ∙ h in (f, All-IsFresh_idle v us (omega arith))
  IsFresh-store v (u ∷ us) (suc i) t t' e h n f =
      let most = holding_le us i t e in
      (IsFresh-idle v u (omega arith), IsFresh-store v us i t t' e h (omega arith) f)

  pub IsFresh-set :
      (v : T) (ts : List (Thread T)) (i : ℕ) (t' : Thread T)
      → All (IsFresh v) ts
      → IsFresh v t'
      → All (IsFresh v) (set ts i t')
  IsFresh-set v [] i t' a f = tt
  IsFresh-set v (u ∷ us) zero t' a f = (f, a.1)
  IsFresh-set v (u ∷ us) (suc i) t' a f = (a.0, IsFresh-set v us i t' a.1 f)
