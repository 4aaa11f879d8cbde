-- ===== src/Shared/TimeQueue/Laws.antt =====
-- What the operations of shared/src/time_queue.rs promise over any lawful heap.
use mathlib.Core.List.{Mem, mem-cons_self, not-mem-nil}
use mathlib.Core.List.Perm
use naia_socket.Base.{
  ℕ, ◌≤◌, ◌<◌, ◌≡◌, sym, ◌∙◌, ap, ◌≢◌, ◌⊎◌, inl, inr, true, false, Option, none, some, List, [],
  ◌∷◌, Ordering, Perm, subst, arith, length, leb, Bool-cases, leb→le, leb→lt, le→leb,
}
use naia_socket.Shared.Heap.{BinaryHeap, IsLawful}
use naia_socket.Shared.TimeQueue.{ItemContainer, TimeQueue, cmp, add_item, has_item, pop_item}

module _ {T : Type 0} (B : BinaryHeap (ItemContainer T)) where
  -- The items of the queue with their instants, in no particular order.
  abbrev pub contents : TimeQueue B → List (ItemContainer T)
  contents q = B.contents q.queue

  -- Nothing in the queue is due yet.
  abbrev pub NoneDue : TimeQueue B → ℕ → Type 0
  NoneDue q now = (c : ItemContainer T) → Mem c (contents q) → now < c.instant

  -- `c` is due, and no item of the queue is due before it.
  abbrev pub IsFirstDue : TimeQueue B → ℕ → ItemContainer T → Type 0
  IsFirstDue q now c =
      (c.instant ≤ now) × ((d : ItemContainer T) → Mem d (contents q) → c.instant ≤ d.instant)

  -- The two outcomes of a pop at time `now`.
  abbrev pub Takes : TimeQueue B → ℕ → Option T × TimeQueue B → Type 0
  Takes q now r =
      (NoneDue q now × (r ≡ (none, q)))
      ⊎ ((c : ItemContainer T) × (q' : TimeQueue B) × IsFirstDue q now c
          × Perm (contents q) (c ∷ contents q')
          × (r ≡ (some c.item, q')))

le_of_cmp : {T : Type 0} (x y : ItemContainer T) → cmp y x ≢ Ordering.gt → x.instant ≤ y.instant
le_of_cmp x y h = ground arith

pub length_pos_of_perm {ℓ} :
    {A : Type ℓ} (l : List A) {x : A} {xs : List A} → Perm l (x ∷ xs) → length l ≢ 0
length_pos_of_perm [] p = absurd (not-mem-nil ((Perm.mem_iff p).1 mem-cons_self))
length_pos_of_perm (y ∷ ys) p = omega arith

module _ {T : Type 0} (B : BinaryHeap (ItemContainer T)) (L : IsLawful B cmp) where
  pub peek_first :
      (h : B.Heap) (x y : ItemContainer T)
      → B.peek h ≡ some x
      → Mem y (B.contents h)
      → x.instant ≤ y.instant
  peek_first h x y e m = le_of_cmp x y (L.peek_greatest h x y e m)

  -- What `has_item` tests, once the heap's two outcomes are known.
  has_item_empty : (q : TimeQueue B) (now : ℕ) → B.peek q.queue ≡ none → has_item B q now ≡ false
  unfolding has_item
  has_item_empty q now e = ground arith

  pub has_item_peek :
      (q : TimeQueue B) (now : ℕ) (x : ItemContainer T) {xs : List (ItemContainer T)}
      → Perm (contents B q) (x ∷ xs)
      → B.peek q.queue ≡ some x
      → has_item B q now ≡ leb x.instant now
  unfolding has_item
  has_item_peek q now x p e =
      ground (arith, L.len-contents q.queue, length_pos_of_perm (contents B q) p)

  -- Over a lawful heap, `pop_item` at any reading of the clock either leaves the queue as it is
  -- and returns nothing, and then nothing in the queue is due; or it returns the item of an entry
  -- that is due and of least instant, and exactly that entry leaves the queue.
  pub pop_item-Takes : (q : TimeQueue B) (now : ℕ) → Takes B q now (pop_item B q now)
  unfolding pop_item
  pop_item-Takes q now = elim (L.peek-Pops q.queue) [
    | inl (e, p, _) ↦
        inl (λ c m. absurd (not-mem-nil (subst (λ l. Mem c l) e m)), rw (has_item_empty q now p))
    | inr (x, h', p, e, f) ↦ elim (Bool-cases (leb x.instant now)) [
      | inl due ↦ inr (
        x,
        record { queue = h' },
        (leb→le _ _ due, λ d m. peek_first q.queue x d e m),
        p,
        rw (has_item_peek q now x p e, due, f),
      )
      | inr later ↦ inl (
        λ c m. omega (arith, leb→lt x.instant now later, peek_first q.queue x c e m),
        rw (has_item_peek q now x p e, later),
      )
    ]
  ]

  -- Over a lawful heap and at one reading of the clock, either `has_item` is true and `pop_item`
  -- returns an item, or `has_item` is false and `pop_item` returns none and leaves the queue as it
  -- is.
  pub has_item-pop_item :
      (q : TimeQueue B) (now : ℕ)
      → ((has_item B q now ≡ true) × ((pop_item B q now).0 ≢ none))
        ⊎ ((has_item B q now ≡ false) × (pop_item B q now ≡ (none, q)))
  unfolding pop_item
  has_item-pop_item q now = elim (L.peek-Pops q.queue) [
    | inl (e, p, f) ↦ inr (has_item_empty q now p, rw (has_item_empty q now p))
    | inr (x, h', p, e, f) ↦ elim (Bool-cases (leb x.instant now)) [
      | inl due ↦
          let t : has_item B q now ≡ true = has_item_peek q now x p e ∙ due in
          inl (t, rw (t, f) (λ z. cc))
      | inr later ↦
          let t : has_item B q now ≡ false = has_item_peek q now x p e ∙ later in inr (t, rw t)
    ]
  ]

  -- What is due at one reading of the clock is due at every later one.
  pub has_item_later :
      (q : TimeQueue B) (now later : ℕ)
      → now ≤ later
      → has_item B q now ≡ true
      → has_item B q later ≡ true
  has_item_later q now later le t = elim (L.peek-Pops q.queue) [
    | inl (e, p, f) ↦ cc (has_item_empty q now p)
    | inr (x, h', p, e, f) ↦
        has_item_peek q later x p e
        ∙ le→leb x.instant later
            (omega (arith, leb→le x.instant now (sym (has_item_peek q now x p e) ∙ t)))
  ]

  pub contents-add_item :
      (q : TimeQueue B) (instant : ℕ) (item : T)
      → Perm
          (contents B (add_item B q instant item))
          ((record { instant = instant; item = item }) ∷ contents B q)
  unfolding add_item
  contents-add_item q instant item = L.contents-push q.queue _

  pub NoneDue-of_not_ready :
      (q : TimeQueue B) (now : ℕ) → has_item B q now ≡ false → NoneDue B q now
  NoneDue-of_not_ready q now f = elim (pop_item-Takes q now) [
    | inl (n, _) ↦ n
    | inr (c, q', _, _, e) ↦ elim (has_item-pop_item q now) [ inl (t, _) ↦ cc | inr (_, e') ↦ cc ]
  ]

  pub pop_item_ready :
      (q : TimeQueue B) (now : ℕ)
      → has_item B q now ≡ true
      → (c : ItemContainer T) × (q' : TimeQueue B) × IsFirstDue B q now c
        × Perm (contents B q) (c ∷ contents B q')
        × (pop_item B q now ≡ (some c.item, q'))
  pop_item_ready q now t = elim (pop_item-Takes q now) [
    | inr taken ↦ taken
    | inl (_, e) ↦ elim (has_item-pop_item q now) [
      | inl (_, ne) ↦ absurd (ne (ap (λ r. r.0) e))
      | inr (f, _) ↦ cc
    ]
  ]
