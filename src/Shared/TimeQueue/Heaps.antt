-- ===== src/Shared/TimeQueue/Heaps.antt =====
-- What shared/src/time_queue.rs delivers does not depend on the heap below it.
use mathlib.Core.List.{Pairwise, Pairwise-cons, mem-cons, mem-cons_self}
use mathlib.Core.List.Perm
use mathlib.Core.HLevel.{¬_prop}
use mathlib.Core.Logic.Or
use naia_socket.Base.{
  ℕ, ◌≡◌, ◌≢◌, refl, sym, ap, ◌∙◌, inl, inr, subst, Option, none, some, List, [], ◌∷◌, ◌++◌, Perm,
  arith, perm_pull, perm_append_left, perm_of_eq, append-nil,
}
use naia_socket.Shared.Heap.{BinaryHeap, IsLawful}
use naia_socket.Shared.TimeQueue.{ItemContainer, TimeQueue, cmp, new, add_item, pop_item}
use naia_socket.Shared.TimeQueue.Laws.{contents, pop_item-Takes, contents-add_item}
use naia_socket.Shared.TimeQueue.History.{Call, adds, pops, added, delivered, run}

module _ {T : Type 0} where
  -- No two of the items are due at the same instant.
  abbrev pub Distinct : List (ItemContainer T) → Type 0
  Distinct = Pairwise (λ c d. c.instant ≢ d.instant)

  Distinct-perm : {xs ys : List (ItemContainer T)} → Perm xs ys → Distinct xs → Distinct ys
  Distinct-perm p h = Perm.pairwise (λ a b. ¬_prop) (λ a b n e. n (sym e)) p h

  Distinct-tail :
      {c : ItemContainer T} {xs : List (ItemContainer T)} → Distinct (c ∷ xs) → Distinct xs
  Distinct-tail h = (Pairwise-cons.0 h).1

  Distinct-suffix : (xs ys : List (ItemContainer T)) → Distinct (xs ++ ys) → Distinct ys
  Distinct-suffix [] ys h = h
  Distinct-suffix (x ∷ xs) ys h = Distinct-suffix xs ys (Distinct-tail h)

  same_entry :
      (set : IsSet T) (c c' : ItemContainer T) (xs xs' : List (ItemContainer T))
      → Distinct (c ∷ xs)
      → Perm (c ∷ xs) (c' ∷ xs')
      → c.instant ≡ c'.instant
      → c ≡ c'
  same_entry set c c' xs xs' h p e =
      Or.elim (container_set c c') (mem-cons.0 ((Perm.mem_iff p).1 mem-cons_self))
        (λ same. sym same) (λ m. absurd ((Pairwise-cons.0 h).0 c' m e))
    where
      container_set : IsSet (ItemContainer T)
      container_set = hlevel

module _ {T : Type 0} (set : IsSet T) (B B' : BinaryHeap (ItemContainer T)) (L : IsLawful B cmp)
    (L' : IsLawful B' cmp) where
  -- Two pops at one time of queues with the same contents, all distinct: they return the same, and the
  -- contents are then the same again, no more than before.
  abbrev BothTake : TimeQueue B → TimeQueue B' → ℕ → Type 0
  BothTake q q' now =
      (r : Option T) × (p : TimeQueue B) × (p' : TimeQueue B') × (taken : List (ItemContainer T))
      × (pop_item B q now ≡ (r, p))
      × (pop_item B' q' now ≡ (r, p'))
      × Perm (contents B q) (taken ++ contents B p)
      × Perm (contents B p) (contents B' p')

  both_take :
      (q : TimeQueue B) (q' : TimeQueue B') (now : ℕ)
      → Perm (contents B q) (contents B' q')
      → Distinct (contents B q)
      → BothTake q q' now
  both_take q q' now p h = elim (pop_item-Takes B L q now) [
    | inl (quiet, e) ↦ elim (pop_item-Takes B' L' q' now) [
      | inl (_, e') ↦ (none, q, q', [], e, e', Perm.refl _, p)
      | inr (c', r', due', p', e') ↦
          absurd (
            omega
              (arith, due'.0, quiet c' ((Perm.mem_iff p).1 ((Perm.mem_iff p').1 mem-cons_self))))
    ]
    | inr (c, r, due, pr, e) ↦ elim (pop_item-Takes B' L' q' now) [
      | inl (quiet', e') ↦
          absurd (
            omega (arith, due.0, quiet' c ((Perm.mem_iff p).0 ((Perm.mem_iff pr).1 mem-cons_self))))
      | inr (c', r', due', pr', e') ↦
          let both : Perm (c ∷ contents B r) (c' ∷ contents B' r') =
            Perm.trans (Perm.symm pr) (Perm.trans p pr') in
          let same : c ≡ c' =
            same_entry set c c' (contents B r) (contents B' r') (Distinct-perm pr h) both (
              omega (
                arith,
                due.1 c' ((Perm.mem_iff p).1 ((Perm.mem_iff pr').1 mem-cons_self)),
                due'.1 c ((Perm.mem_iff p).0 ((Perm.mem_iff pr).1 mem-cons_self)),
              )) in
          (
            some c.item,
            r,
            r',
            c ∷ [],
            e,
            e' ∙ ap (λ (x : ItemContainer T). (some x.item, r')) (sym same),
            pr,
            Perm.cons_inv
                (subst (λ x. Perm (c ∷ contents B r) (x ∷ contents B' r')) (sym same) both),
          )
    ]
  ]

  Distinct-drop :
      (xs taken ys : List (ItemContainer T)) → Distinct (xs ++ (taken ++ ys)) → Distinct (xs ++ ys)
  Distinct-drop xs [] ys h = h
  Distinct-drop xs (c ∷ taken) ys h =
      Distinct-drop xs taken ys
        (Distinct-tail (Distinct-perm (Perm.symm (perm_pull c xs (taken ++ ys))) h))

  run_any_heap_from :
      (cs : List (Call T)) (q : TimeQueue B) (q' : TimeQueue B')
      → Perm (contents B q) (contents B' q')
      → Distinct (added cs ++ contents B q)
      → (run B q cs).1 ≡ (run B' q' cs).1
  unfolding run
  run_any_heap_from [] q q' p h = refl
  run_any_heap_from (adds instant item ∷ cs) q q' p h =
      run_any_heap_from cs (add_item B q instant item) (add_item B' q' instant item)
        (Perm.trans (contents-add_item B L q instant item)
          (Perm.trans (Perm.cons _ p) (Perm.symm (contents-add_item B' L' q' instant item))))
        (Distinct-perm
          (Perm.trans (perm_pull _ (added cs) (contents B q))
            (perm_append_left (added cs) (Perm.symm (contents-add_item B L q instant item))))
          h)
  run_any_heap_from (pops now ∷ cs) q q' p h =
      let (r, b, b', taken, e, e', split, p') =
        both_take q q' now p (Distinct-suffix (added cs) (contents B q) h) in
      rw (e, e', run)
        (ap (delivered now r) (
          run_any_heap_from cs b b' p' (
            Distinct-drop (added cs) taken (contents B b)
              (Distinct-perm (perm_append_left (added cs) split) h))))

  -- Over two lawful heaps and any one history of adds and pops from an empty queue, where no two
  -- of the items added are due at one instant, the two queues deliver the same items in the same
  -- order.
  pub run_any_heap :
      (cs : List (Call T)) → Distinct (added cs) → (run B (new B) cs).1 ≡ (run B' (new B') cs).1
  unfolding new
  run_any_heap cs h =
      run_any_heap_from cs (new B) (new B') (perm_of_eq (L.contents-new ∙ sym L'.contents-new)) (
        subst (λ l. Distinct (added cs ++ l)) (sym L.contents-new)
          (subst Distinct (sym (append-nil (added cs))) h))
