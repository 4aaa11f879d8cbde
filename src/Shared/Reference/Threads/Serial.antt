-- ===== src/Shared/Reference/Threads/Serial.antt =====
-- Writes of several threads through clones of one `Ref` exclude each other, and none is lost.
use naia_socket.Base.{
  ℕ, zero, suc, ◌≤◌, ◌≡◌, refl, sym, ap, ◌∙◌, ◌⊎◌, inl, inr, Bool, true, false, some, List, [], ◌∷◌,
  ◌++◌, append_assoc, ◌==◌, if◌then◌else◌, get_elem?, All, All-get_elem?, arith, subst,
}
use naia_socket.Shared.Reference.Threads.{
  Write, Thread, idle, Mutex, step_thread, System, set, steps, starts, initial, Reach, start, later,
}
use naia_socket.Shared.Reference.Threads.Laws.{
  bit, holders, todo, IsFresh, Effect, step_thread-Effect, holders-set, holding_le, IsFresh-store,
  IsFresh-set, All-IsFresh_idle,
}

bit_le : (b : Bool) → bit b ≤ 1
bit_le true = omega arith
bit_le false = omega arith

module _ {T : Type 0} where
  -- The stored writes, the latest first, each with its thread: one after the other they take the first
  -- value to the last.
  abbrev pub Replays : T → List (ℕ × Write T) → T → Type 0
  Replays v₀ [] v = v₀ ≡ v
  Replays v₀ ((i, f) ∷ log) v = (u : T) × Replays v₀ log u × (f u ≡ some v)

  -- The writes of a thread in the log, in the order in which they were stored.
  abbrev pub writes_of : ℕ → List (ℕ × Write T) → List (Write T)
  writes_of i [] = []
  writes_of i ((j, f) ∷ log) = if j == i then writes_of i log ++ f ∷ [] else writes_of i log

  -- Each thread has stored the first of its writes, and has the others to store.
  abbrev pub Splits : List (List (Write T)) → List (ℕ × Write T) → List (Thread T) → Type 0
  Splits programs log ts =
      (i : ℕ) (t : Thread T)
      → get_elem? ts i ≡ some t
      → get_elem? programs i ≡ some (writes_of i log ++ todo t)

  get_elem?-set :
      (ts : List (Thread T)) (i j : ℕ) (t t' u : Thread T)
      → get_elem? ts i ≡ some t
      → get_elem? (set ts i t') j ≡ some u
      → ((j ≡ i) × (u ≡ t')) ⊎ (((j == i) ≡ false) × (get_elem? ts j ≡ some u))
  get_elem?-set [] i j t t' u e g = cc
  get_elem?-set (x ∷ ts) zero zero t t' u e g = let same : t' ≡ u = cc in inl (refl, sym same)
  get_elem?-set (x ∷ ts) zero (suc j) t t' u e g = inr (ground arith, g)
  get_elem?-set (x ∷ ts) (suc i) zero t t' u e g = inr (ground arith, g)
  get_elem?-set (x ∷ ts) (suc i) (suc j) t t' u e g = elim (get_elem?-set ts i j t t' u e g) [
    | inl (same, last) ↦ inl (omega arith, last)
    | inr (other, found) ↦ inr (ground arith, found)
  ]

  todo-starts :
      (programs : List (List (Write T))) (i : ℕ) (t : Thread T)
      → get_elem? (starts programs) i ≡ some t
      → get_elem? programs i ≡ some (todo t)
  todo-starts [] i t e = cc
  todo-starts (fs ∷ fss) zero t e = let same : idle fs ≡ t = cc in ap (λ u. some (todo u)) same
  todo-starts (fs ∷ fss) (suc i) t e = todo-starts fss i t e

  holders-starts : (programs : List (List (Write T))) → holders (starts programs) ≡ 0
  holders-starts [] = refl
  holders-starts (fs ∷ fss) = omega (arith, holders-starts fss)

module _ {T : Type 0} (value : T) (programs : List (List (Write T))) where
  -- At most one thread holds the lock, and then the mutex is locked; what a thread has read is still
  -- the value; and this is what the stored writes make of the first value, one after the other, where
  -- each thread has stored the first of its writes and has the others to store.
  pub record IsSerial (s : System T) : Type 0 where
    pub exclusive : holders s.threads ≡ bit s.mutex.is_locked
    pub fresh : All (IsFresh s.mutex.value) s.threads
    pub log : List (ℕ × Write T)
    pub replays : Replays value log s.mutex.value
    pub splits : Splits programs log s.threads

  start-IsSerial : IsSerial (initial value programs)
  start-IsSerial = record {
    exclusive = holders-starts programs;
    fresh = All-IsFresh_idle value (starts programs) (holders-starts programs);
    log = [];
    replays = refl;
    splits = todo-starts programs;
  }

  Splits-stay :
      (log : List (ℕ × Write T)) (ts : List (Thread T)) (i : ℕ) (t t' : Thread T)
      → get_elem? ts i ≡ some t
      → todo t' ≡ todo t
      → Splits programs log ts
      → Splits programs log (set ts i t')
  Splits-stay log ts i t t' e same h j u g = elim (get_elem?-set ts i j t t' u e g) [
    | inl (at, last) ↦ rw (at, last, same) (h i t e)
    | inr (other, found) ↦ h j u found
  ]

  Splits-store :
      (log : List (ℕ × Write T)) (ts : List (Thread T)) (i : ℕ) (t t' : Thread T) (f : Write T)
      → get_elem? ts i ≡ some t
      → todo t ≡ f ∷ todo t'
      → Splits programs log ts
      → Splits programs ((i, f) ∷ log) (set ts i t')
  Splits-store log ts i t t' f e first h j u g = elim (get_elem?-set ts i j t t' u e g) [
    | inl (at, last) ↦
        let same : (i == i) ≡ true = ground arith in
        let here : get_elem? programs i ≡ some (writes_of i ((i, f) ∷ log) ++ todo t') = rw same (
          h i t e
          ∙ ap (λ l. some (writes_of i log ++ l)) first
          ∙ ap some (sym (append_assoc (writes_of i log) (f ∷ []) (todo t')))) in
        rw last (
          subst (λ k. get_elem? programs k ≡ some (writes_of k ((i, f) ∷ log) ++ todo t')) (sym at)
            here)
    | inr (other, found) ↦ let apart : (i == j) ≡ false = ground arith in rw apart (h j u found)
  ]

  step-IsSerial :
      (s : System T) (i : ℕ) (t t' : Thread T) (m' : Mutex T)
      → get_elem? s.threads i ≡ some t
      → IsSerial s
      → Effect t s.mutex (some (t', m'))
      → IsSerial (record { mutex = m'; threads = set s.threads i t' })
  step-IsSerial s i t t' m' e h (balance, f, inl (same, kept)) = record {
    exclusive = omega (arith, h.exclusive, balance, holders-set s.threads i t t' e);
    fresh =
        IsFresh-set m'.value s.threads i t'
          (subst (λ v. All (IsFresh v) s.threads) (sym kept) h.fresh) f;
    log = h.log;
    replays = subst (Replays value h.log) (sym kept) h.replays;
    splits = Splits-stay h.log s.threads i t t' e same h.splits;
  }
  step-IsSerial s i t t' m' e h (balance, f, inr (w, first, put, held, holds)) = record {
    exclusive = omega (arith, h.exclusive, balance, holders-set s.threads i t t' e);
    fresh =
        IsFresh-store m'.value s.threads i t t' e held
          (omega (arith, h.exclusive, bit_le s.mutex.is_locked)) f;
    log = (i, w) ∷ h.log;
    replays = (s.mutex.value, h.replays, put);
    splits = Splits-store h.log s.threads i t t' w e first h.splits;
  }

  Effect-here :
      (s : System T) (i : ℕ) (t : Thread T)
      → get_elem? s.threads i ≡ some t
      → IsSerial s
      → Effect t s.mutex (step_thread t s.mutex)
  Effect-here s i t e h =
      step_thread-Effect t s.mutex.value s.mutex.is_locked s.mutex.poisoned
        (All-get_elem? _ s.threads i t e h.fresh)
        (omega (arith, h.exclusive, holding_le s.threads i t e))

  -- In every state that threads reach which write through clones of one `Ref` over a `Mutex`, in
  -- whatever order they step and whatever writes panic: at most one thread holds the lock, and
  -- just then the mutex is locked; what a thread has read is still the value; and the value is
  -- what the stored writes make of the first one, one after the other, where each thread has
  -- stored the first of its writes in their order and has the others to store.
  pub Reach-IsSerial : {s : System T} → Reach value programs s → IsSerial s
  Reach-IsSerial start = start-IsSerial
  Reach-IsSerial (later {s} reach (steps i t t' m found moves)) =
      let h = Reach-IsSerial reach in
      step-IsSerial s i t t' m found h (subst (Effect t s.mutex) moves (Effect-here s i t found h))
