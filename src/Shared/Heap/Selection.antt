-- ===== src/Shared/Heap/Selection.antt =====
-- A heap that keeps a plain list and looks for its least key: it shows that the laws of a heap can
-- be met, for every type of items that is compared by a number, the least number being greatest.
use mathlib.Core.List.{Mem, mem-cons, not-mem-nil}
use mathlib.Core.List.Perm
use mathlib.Core.Logic.Or
use native.Mathlib.Bridge.{le_prop}
use naia_socket.Base.{
  ℕ, ◌≤◌, ◌≡◌, refl, ◌≢◌, inl, inr, Option, none, some, List, [], ◌∷◌, Ordering, compare, Perm,
  arith, length, leb, if◌then◌else◌, perm_swap_front, Bool-cases,
}
use naia_socket.Shared.Heap.{BinaryHeap, Pops, IsLawful}

module _ {T : Type 0} (key : T → ℕ) where
  -- The item of least key among `x ∷ xs`, and the others.
  unfoldable pub select : T → List T → T × List T
  select x [] = (x, [])
  select x (y ∷ ys) =
      let (m, rest) = select y ys in if leb (key x) (key m) then (x, m ∷ rest) else (m, x ∷ rest)

  select-perm : (x : T) (xs : List T) → Perm (x ∷ xs) ((select x xs).0 ∷ (select x xs).1)
  unfolding select
  select-perm x [] = Perm.refl (x ∷ [])
  select-perm x (y ∷ ys) = elim (Bool-cases (leb (key x) (key (select y ys).0))) [
    | inl e ↦ rw e (Perm.cons x (select-perm y ys))
    | inr e ↦ rw e (Perm.trans (Perm.cons x (select-perm y ys)) (perm_swap_front x _ _))
  ]

  select_least : (x : T) (xs : List T) (y : T) → Mem y (x ∷ xs) → key (select x xs).0 ≤ key y
  unfolding select
  select_least x [] y m =
      Or.elim le_prop (mem-cons.0 m) (λ e. rw e (omega arith)) (λ n. absurd (not-mem-nil n))
  select_least x (z ∷ zs) y m =
      Or.elim le_prop (mem-cons.0 m) (λ e. rw e (ground arith))
        (λ n. ground (arith, select_least z zs y n))

  unfoldable pub peek : List T → Option T
  peek [] = none
  peek (x ∷ xs) = some (select x xs).0

  unfoldable pub pop : List T → Option (T × List T)
  pop [] = none
  pop (x ∷ xs) = some (select x xs)

  abbrev pub selection_heap : BinaryHeap T
  selection_heap = record {
    Heap = List T;
    new = [];
    push = λ h x. x ∷ h;
    pop = pop;
    peek = peek;
    len = length;
    contents = λ h. h;
  }

  peek-Pops : (h : List T) → Pops selection_heap h
  unfolding peek pop
  peek-Pops [] = inl (refl, refl, refl)
  peek-Pops (x ∷ xs) = inr ((select x xs).0, (select x xs).1, select-perm x xs, refl, refl)

  peek_least : (h : List T) (x y : T) → peek h ≡ some x → Mem y h → key x ≤ key y
  unfolding peek
  peek_least [] x y e m = cc
  peek_least (z ∷ zs) x y e m = ground (arith, select_least z zs y m)

  greatest_of_le : (x y : T) → key x ≤ key y → compare (key x) (key y) ≢ Ordering.gt
  greatest_of_le x y h = ground arith

  pub selection_heap-IsLawful : IsLawful selection_heap (λ a b. compare (key b) (key a))
  selection_heap-IsLawful = record {
    contents-new = refl;
    contents-push = λ h x. Perm.refl (x ∷ h);
    len-contents = λ h. refl;
    peek-Pops = peek-Pops;
    peek_greatest = λ h x y e m. greatest_of_le x y (peek_least h x y e m);
  }
