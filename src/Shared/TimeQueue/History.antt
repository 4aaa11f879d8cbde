-- ===== src/Shared/TimeQueue/History.antt =====
-- What a whole history of calls of shared/src/time_queue.rs delivers.
use mathlib.Core.List.Perm
use naia_socket.Base.{
  ℕ, ◌≤◌, ◌≡◌, refl, inl, inr, subst, Option, none, some, List, [], ◌∷◌, ◌++◌, Perm, perm_pull,
  perm_append_left, append-nil,
}
use naia_socket.Shared.Heap.{BinaryHeap, IsLawful}
use naia_socket.Shared.TimeQueue.{ItemContainer, TimeQueue, cmp, new, add_item, pop_item}
use naia_socket.Shared.TimeQueue.Laws.{contents, pop_item-Takes, contents-add_item}

-- A call, with the reading of the clock that a pop takes.
pub data Call (T : Type 0) : Type 0 where
  adds : ℕ → T → Call T
  pops : ℕ → Call T

module _ {T : Type 0} where
  -- The items that a history hands in, with the instants at which they are due.
  abbrev pub added : List (Call T) → List (ItemContainer T)
  added [] = []
  added (adds instant item ∷ cs) = (record { instant = instant; item = item }) ∷ added cs
  added (pops now ∷ cs) = added cs

  -- The items `cs` are those of `ds`, and each came out when it was due.
  abbrev pub InTime : List (ItemContainer T) → List (ℕ × T) → Type 0
  InTime [] [] = Unit
  InTime (c ∷ cs) ((now, item) ∷ ds) = (c.instant ≤ now) × (c.item ≡ item) × InTime cs ds
  InTime _ _ = ⊥

  abbrev pub delivered : ℕ → Option T → List (ℕ × T) → List (ℕ × T)
  delivered now none ds = ds
  delivered now (some x) ds = (now, x) ∷ ds

module _ {T : Type 0} (B : BinaryHeap (ItemContainer T)) where
  -- The final queue, and what the pops returned with the moments at which they did.
  unfoldable pub run : TimeQueue B → List (Call T) → TimeQueue B × List (ℕ × T)
  run q [] = (q, [])
  run q (adds instant item ∷ cs) = run (add_item B q instant item) cs
  run q (pops now ∷ cs) =
      let (r, q') = pop_item B q now in let (q'', ds) = run q' cs in (q'', delivered now r ds)

  abbrev pub Accounts : List (ItemContainer T) → TimeQueue B × List (ℕ × T) → Type 0
  Accounts items (q, ds) =
      (cs : List (ItemContainer T)) × InTime cs ds × Perm items (cs ++ contents B q)

module _ {T : Type 0} (B : BinaryHeap (ItemContainer T)) (L : IsLawful B cmp) where
  run-Accounts_from :
      (q : TimeQueue B) (cs : List (Call T)) → Accounts B (added cs ++ contents B q) (run B q cs)
  unfolding run
  run-Accounts_from q [] = ([], tt, Perm.refl _)
  run-Accounts_from q (adds instant item ∷ cs) =
      let (out, t, p) = run-Accounts_from (add_item B q instant item) cs in
      (
        out,
        t,
        Perm.trans (perm_pull _ (added cs) (contents B q)) (
            Perm.trans
              (perm_append_left (added cs) (Perm.symm (contents-add_item B L q instant item))) p),
      )
  run-Accounts_from q (pops now ∷ cs) = elim (pop_item-Takes B L q now) [
    | inl (_, e) ↦ rw (e, run) (run-Accounts_from q cs)
    | inr (c, q', (due, _), p, e) ↦
        let (out, t, p') = run-Accounts_from q' cs in
        rw (e, run)
          (
            c ∷ out,
            (due, refl, t),
            Perm.trans (perm_append_left (added cs) p)
                (Perm.trans (Perm.symm (perm_pull c (added cs) _)) (Perm.cons c p')),
          )
  ]

  -- Over a lawful heap, after every history of adds and pops from an empty queue, the items handed
  -- in are, with their instants and as a multiset, those delivered together with those still
  -- queued, and each delivered item was due at the clock reading of the pop that returned it.
  pub run-Accounts : (cs : List (Call T)) → Accounts B (added cs) (run B (new B) cs)
  unfolding new
  run-Accounts cs = rw (← append-nil (added cs)) (
      subst (λ l. Accounts B (added cs ++ l) (run B (new B) cs)) L.contents-new
        (run-Accounts_from (new B) cs))
