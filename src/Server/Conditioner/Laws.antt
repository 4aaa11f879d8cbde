-- ===== src/Server/Conditioner/Laws.antt =====
-- What one wake-up of server/src/link_conditioner.rs does, on every branch.
use mathlib.Core.List.{mem-cons_self}
use mathlib.Core.List.Perm
use naia_socket.Base.{
  ℕ, ◌≤◌, ◌<◌, ◌≡◌, refl, ap, ◌∙◌, ◌⊎◌, inl, inr, true, false, Bool-cases, none, some, List, [],
  ◌∷◌, Perm, Exec, done, ltb, arith, length, le→leb,
}
use naia_socket.Shared.Config.{Rates}
use naia_socket.Shared.World.{World, IsMonotone, Profile}
use naia_socket.Shared.Heap.{BinaryHeap}
use naia_socket.Shared.Heap as H
use naia_socket.Shared.TimeQueue.{ItemContainer, TimeQueue, cmp, has_item, pop_item}
use naia_socket.Shared.TimeQueue as Q
use naia_socket.Shared.TimeQueue.Laws.{
  contents, IsFirstDue, pop_item-Takes, pop_item_ready, length_pos_of_perm, has_item_peek,
  peek_first,
}
use naia_socket.Server.{Packet, ok, Poll, pending, returned, ServerSocket}
use naia_socket.Server.Conditioner.{
  LinkConditioner, Round, timer_ready, queue_duration, start, has_fired, after_pop, on_timer, poll,
}

fired_later : (d now : ℕ) → ltb now d ≡ true → has_fired (some d) now ≡ false
fired_later d now e = rw e refl

fired_by : (d now : ℕ) → ltb now d ≡ false → has_fired (some d) now ≡ true
fired_by d now e = rw e refl

ltb→lt : (a b : ℕ) → ltb a b ≡ true → a < b
ltb→lt a b h = ground arith

ltb→le : (a b : ℕ) → ltb a b ≡ false → b ≤ a
ltb→le a b h = ground arith

module _ (B : BinaryHeap (ItemContainer Packet)) (HL : H.IsLawful B cmp) where
  -- The timer of a queue stands at the instant of an entry that is due first, or is the idle one
  -- where the queue is empty.
  pub queue_duration_lem :
      (q : TimeQueue B)
      → ((contents B q ≡ []) × (queue_duration B q ≡ none))
        ⊎ ((x : ItemContainer Packet) × (xs : List (ItemContainer Packet)) × Perm
              (contents B q)
              (x ∷ xs)
            × (B.peek q.queue ≡ some x)
            × (queue_duration B q ≡ some x.instant))
  unfolding queue_duration Q.len Q.peek_entry
  queue_duration_lem q = elim (HL.peek-Pops q.queue) [
    | inl (e, p, _) ↦ inl (e, ground (arith, p))
    | inr (x, h', p, e, f) ↦ inr (
      x,
      B.contents h',
      p,
      e,
      ground (arith, HL.len-contents q.queue, length_pos_of_perm (contents B q) p, e),
    )
  ]

  pop_item_empty : (q : TimeQueue B) (now : ℕ) → contents B q ≡ [] → pop_item B q now ≡ (none, q)
  pop_item_empty q now e = elim (pop_item-Takes B HL q now) [
    | inl (_, r) ↦ r
    | inr (c, q', _, p, _) ↦ absurd (length_pos_of_perm (contents B q) p (ap length e))
  ]

  -- At or after the instant of a first entry, a pop takes one.
  pop_item_fired :
      (q : TimeQueue B) (now : ℕ) (x : ItemContainer Packet) {xs : List (ItemContainer Packet)}
      → Perm (contents B q) (x ∷ xs)
      → B.peek q.queue ≡ some x
      → x.instant ≤ now
      → (c : ItemContainer Packet) × (q' : TimeQueue B) × IsFirstDue B q now c
        × Perm (contents B q) (c ∷ contents B q')
        × (pop_item B q now ≡ (some c.item, q'))
  pop_item_fired q now x p e le =
      pop_item_ready B HL q now (has_item_peek B HL q now x p e ∙ le→leb x.instant now le)

module _ {R : Rates} (V : World R) (profile : Profile) (B : BinaryHeap (ItemContainer Packet))
    (I : ServerSocket) where
  -- The timer of the round is that of the queue.
  abbrev pub IsCurrent : Round I → LinkConditioner R B I → Type 0
  IsCurrent round self = round.queue_duration ≡ queue_duration B self.time_queue

  -- What the timer brings, from two readings of the clock: that of the timer, and then that of the queue.
  -- The first one is before the instant of the timer, and nothing happens; or it is not, and an entry
  -- of that instant, which is due first at the second one, leaves the queue, and its packet is
  -- returned; or the timer is the idle one, the queue is empty, and a new round starts.
  abbrev pub TimerOutcome :
      Round I
      → LinkConditioner R B I
      → V.W
      → Exec (Poll (Round I) (LinkConditioner R B I × V.W))
      → Type 0
  TimerOutcome round self w r =
      ((d : ℕ) × (round.queue_duration ≡ some d)
        × ((V.now w).0 < d)
        × (r ≡ done (pending round (self, (V.now w).1))))
      ⊎ (((d : ℕ) × (c : ItemContainer Packet) × (q : TimeQueue B) × (round.queue_duration ≡ some d)
            × (d ≤ (V.now w).0)
            × (c.instant ≡ d)
            × IsFirstDue B self.time_queue (V.now (V.now w).1).0 c
            × Perm (contents B self.time_queue) (c ∷ contents B q)
            × (r
                ≡ done
                    (returned (ok c.item) (record self { time_queue = q }, (V.now (V.now w).1).1))))
          ⊎ ((w' : V.W) × (round.queue_duration ≡ none)
              × (contents B self.time_queue ≡ [])
              × (r ≡ done (pending (start R B I self) (self, w')))))

  poll_early :
      (round : Round I) (self : LinkConditioner R B I) (w : V.W)
      → has_fired round.queue_duration (V.now w).0 ≡ false
      → poll V profile B I timer_ready round (self, w) ≡ done (pending round (self, (V.now w).1))
  unfolding poll
  poll_early round self w e = rw e refl

  poll_fired :
      (round : Round I) (self : LinkConditioner R B I) (w : V.W)
      → has_fired round.queue_duration (V.now w).0 ≡ true
      → poll V profile B I timer_ready round (self, w)
        ≡ done (on_timer V profile B I (self, (V.now w).1))
  unfolding poll
  poll_fired round self w e = rw e refl

  pub on_timer-some :
      (self : LinkConditioner R B I) (w : V.W) {p : Packet} {q : TimeQueue B}
      → pop_item B self.time_queue (V.now w).0 ≡ (some p, q)
      → on_timer V profile B I (self, w)
        ≡ returned (ok p) (record self { time_queue = q }, (V.now w).1)
  unfolding on_timer
  on_timer-some self w e = ap (after_pop V profile B I self (V.now w).1) e

  pub on_timer-none :
      (self : LinkConditioner R B I) (w : V.W)
      → pop_item B self.time_queue (V.now w).0 ≡ (none, self.time_queue)
      → on_timer V profile B I (self, w) ≡ pending (start R B I self) (self, (V.now w).1)
  unfolding on_timer
  on_timer-none self w e = ap (after_pop V profile B I self (V.now w).1) e

module _ {R : Rates} (V : World R) (M : IsMonotone V) (profile : Profile)
    (B : BinaryHeap (ItemContainer Packet)) (HL : H.IsLawful B cmp) (I : ServerSocket) where
  -- Over a clock that does not go back and a lawful heap, when the timer wakes a round whose timer
  -- is that of the queue, one of three things happens: the first reading of the clock is before
  -- the instant of the timer, and the round waits on with the conditioner as it was; or that
  -- reading is not before it, an entry of just that instant, which is due first at the second
  -- reading, leaves the queue, and its packet is returned; or the timer is the idle one, the queue
  -- is empty, and a new round starts.
  pub poll-TimerOutcome :
      (round : Round I) (self : LinkConditioner R B I) (w : V.W)
      → IsCurrent V profile B I round self
      → TimerOutcome V profile B I round self w (poll V profile B I timer_ready round (self, w))
  unfolding poll
  poll-TimerOutcome round self w cur = elim (queue_duration_lem B HL self.time_queue) [
    | inl (e, d) ↦ inr (
        inr (
          (V.now (V.now w).1).1,
          cur ∙ d,
          e,
          poll_fired V profile B I round self w (ap (λ o. has_fired o (V.now w).0) (cur ∙ d))
              ∙ ap done (
                  on_timer-none V profile B I self (V.now w).1
                    (pop_item_empty B HL self.time_queue (V.now (V.now w).1).0 e)),
        ))
    | inr (x, xs, p, pk, d) ↦ elim (Bool-cases (ltb (V.now w).0 x.instant)) [
      | inl early ↦ inl (
        x.instant,
        cur ∙ d,
        ltb→lt (V.now w).0 x.instant early,
        poll_early V profile B I round self w
            (ap (λ o. has_fired o (V.now w).0) (cur ∙ d) ∙ fired_later x.instant (V.now w).0 early),
      )
      | inr fired ↦
          let (c, q, due, p', e) =
            pop_item_fired B HL self.time_queue (V.now (V.now w).1).0 x p pk (
              omega (
                arith,
                ltb→le (V.now w).0 x.instant fired,
                M.now_before w,
                M.now_after (V.now w).1,
              )) in
          inr (
            inl (
              x.instant,
              c,
              q,
              cur ∙ d,
              ltb→le (V.now w).0 x.instant fired,
              omega (
                arith,
                due.1 x ((Perm.mem_iff p).1 mem-cons_self),
                peek_first B HL self.time_queue.queue x c pk ((Perm.mem_iff p').1 mem-cons_self),
              ),
              due,
              p',
              poll_fired V profile B I round self w (
                    ap (λ o. has_fired o (V.now w).0) (cur ∙ d)
                    ∙ fired_by x.instant (V.now w).0 fired)
                  ∙ ap done (on_timer-some V profile B I self (V.now w).1 e),
            ))
    ]
  ]
