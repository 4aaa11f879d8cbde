-- ===== src/Shared/Reference/Laws.antt =====
-- The two variants of shared/src/reference.rs compared, and what a write through a shared `Ref` does.
use naia_socket.Base.{
  ℕ, zero, suc, ◌≡◌, refl, true, false, Exec, done, panicked, ◌>>=◌, some, [], ◌∷◌, if◌then◌else◌,
  arith, ◌==◌,
}
use naia_socket.Shared.Reference.{Cell, Store, Ref, at, get_elem?, deref_mut, clone}
use naia_socket.Shared.Reference.Single
use naia_socket.Shared.Reference.Multi

module _ {T : Type 0} where
  -- No guard is alive on the cell.
  abbrev pub IsFree : Cell T → Type 0
  IsFree c = (c.readers ≡ 0) × (c.writing ≡ false)

  -- A guard of `borrow_mut` is the only guard of its cell.
  abbrev pub IsExclusive : Cell T → Type 0
  IsExclusive c = c.writing ≡ true → c.readers ≡ 0

  -- The outcome of an operation at the place `i`: the cell there becomes `c`, the others stay.
  abbrev pub Sets : ℕ → Cell T → Store T → Exec (Store T) → Type 0
  Sets i c s r =
      (s' : Store T) × (r ≡ done s')
      × ((j : ℕ) → get_elem? s' j ≡ (if j == i then some c else get_elem? s j))

  get_elem?_head :
      (c d : Cell T) (s : Store T) (j : ℕ)
      → get_elem? (c ∷ s) j ≡ (if j == 0 then some c else get_elem? (d ∷ s) j)
  get_elem?_head c d s zero = refl
  get_elem?_head c d s (suc j) = ground arith

  get_elem?_tail :
      (c d : Cell T) (s s' : Store T) (i j : ℕ)
      → ((k : ℕ) → get_elem? s' k ≡ (if k == i then some c else get_elem? s k))
      → get_elem? (d ∷ s') j ≡ (if j == suc i then some c else get_elem? (d ∷ s) j)
  get_elem?_tail c d s s' i zero h = ground arith
  get_elem?_tail c d s s' i (suc j) h = ground (arith, h j)

  -- An operation that succeeds on a cell sets that cell and no other.
  pub at-Sets :
      (f : Cell T → Exec (Cell T)) (i : ℕ) (s : Store T) (c c' : Cell T)
      → get_elem? s i ≡ some c
      → f c ≡ done c'
      → Sets i c' s (at f i s)
  unfolding at
  at-Sets f zero [] c c' g e = cc
  at-Sets f (suc i) [] c c' g e = cc
  at-Sets f zero (d ∷ s) c c' g e =
      let e' : f d ≡ done c' = cc in (c' ∷ s, rw e', get_elem?_head c' d s)
  at-Sets f (suc i) (d ∷ s) c c' g e =
      let (s', r, h) = at-Sets f i s c c' g e in (d ∷ s', rw r, λ j. get_elem?_tail c' d s s' i j h)

  -- One that panics on the cell panics.
  at_panics :
      (f : Cell T → Exec (Cell T)) (i : ℕ) (s : Store T) (c : Cell T)
      → get_elem? s i ≡ some c
      → f c ≡ panicked
      → at f i s ≡ panicked
  unfolding at
  at_panics f zero [] c g e = cc
  at_panics f (suc i) [] c g e = cc
  at_panics f zero (d ∷ s) c g e = let e' : f d ≡ panicked = cc in rw e'
  at_panics f (suc i) (d ∷ s) c g e = rw (at_panics f i s c g e)

  -- Operations one after the other on one cell are their sequence on the cell.
  at_then :
      (f g h : Cell T → Exec (Cell T)) (i : ℕ) (s : Store T)
      → (at f i s >>= λ s₁. at g i s₁ >>= λ s₂. at h i s₂) ≡ at (λ c. f c >>= λ c₁. g c₁ >>= h) i s
  unfolding at
  at_then f g h zero [] = refl
  at_then f g h (suc i) [] = refl
  at_then f g h zero (c ∷ s) = ground arith
  at_then f g h (suc i) (c ∷ s) = ground (arith, at_then f g h i s)

  at_twice :
      (f : Cell T → Exec (Cell T)) (i : ℕ) (s : Store T)
      → (at f i s >>= at f i) ≡ at (λ c. f c >>= f) i s
  unfolding at
  at_twice f zero [] = refl
  at_twice f (suc i) [] = refl
  at_twice f zero (c ∷ s) = ground arith
  at_twice f (suc i) (c ∷ s) = ground (arith, at_twice f i s)

  single_cell :
      (f : T → T) (c : Cell T)
      → IsFree c
      → (Single.borrow_mut_cell c >>= λ c₁. deref_mut f c₁ >>= Single.drop_guard_mut)
        ≡ done (record c { value = f c.value })
  unfolding Single.borrow_mut_cell Single.drop_guard_mut deref_mut
  single_cell f c (e, w) = ground arith

  multi_cell :
      (f : T → T) (c : Cell T)
      → IsFree c
      → (Multi.lock c >>= λ c₁. deref_mut f c₁ >>= Multi.unlock)
        ≡ done (record c { value = f c.value })
  unfolding Multi.lock Multi.unlock deref_mut
  multi_cell f c (e, w) = ground arith

  single_cell_taken : (c : Cell T) → ¬ IsFree c → Single.borrow_mut_cell c ≡ panicked
  unfolding Single.borrow_mut_cell
  single_cell_taken c h = ground arith

module _ {T : Type 0} where
  -- Where no guard is alive on the cell of a `Ref`, a write through it succeeds in both variants:
  -- the cell that a clone of the `Ref` points to then holds the new value and no guard, and every
  -- other cell is as before.
  pub update-Sets :
      (r : Ref) (f : T → T) (s : Store T) (c : Cell T)
      → get_elem? s (clone r).inner ≡ some c
      → IsFree c
      → Sets (clone r).inner (record c { value = f c.value }) s (Single.update r f s)
        × Sets (clone r).inner (record c { value = f c.value }) s (Multi.update r f s)
  unfolding Single.update Multi.update clone
  update-Sets r f s c g free = (
    rw (at_then Single.borrow_mut_cell (deref_mut f) Single.drop_guard_mut r.inner s)
        (at-Sets _ r.inner s c _ g (single_cell f c free)),
    rw (at_then Multi.lock (deref_mut f) Multi.unlock r.inner s)
        (at-Sets _ r.inner s c _ g (multi_cell f c free)),
  )

  -- While a guard is alive on a cell, a write through any clone panics over `RefCell`.
  pub update_taken :
      (r : Ref) (f : T → T) (s : Store T) (c : Cell T)
      → get_elem? s (clone r).inner ≡ some c
      → ¬ IsFree c
      → Single.update r f s ≡ panicked
  unfolding Single.update clone
  update_taken r f s c g taken =
      rw (at_panics Single.borrow_mut_cell r.inner s c g (single_cell_taken c taken))

  -- Where no guard is alive on the cell of a `Ref`, a `borrow` of it and then one of its clone
  -- both succeed over `RefCell`, and two readers are then counted on that cell alone; over
  -- `Mutex`, in one thread, the second one does not return.
  pub borrow_twice :
      (r : Ref) (s : Store T) (c : Cell T)
      → get_elem? s (clone r).inner ≡ some c
      → IsFree c
      → Sets r.inner (record c { readers = 2 }) s (Single.borrow r s >>= Single.borrow (clone r))
        × ((Multi.borrow r s >>= Multi.borrow (clone r)) ≡ panicked)
  unfolding Single.borrow Multi.borrow clone Single.borrow_cell Multi.lock
  borrow_twice r s c g free = (
    rw (at_twice Single.borrow_cell r.inner s) (at-Sets _ r.inner s c _ g (ground arith)),
    rw (at_twice Multi.lock r.inner s) (at_panics _ r.inner s c g (ground arith)),
  )
