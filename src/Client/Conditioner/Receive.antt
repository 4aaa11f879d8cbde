-- ===== src/Client/Conditioner/Receive.antt =====
-- What `receive` of client/src/link_conditioner.rs returns, on every branch.
use mathlib.Core.List.{mem-cons_self}
use mathlib.Core.List.Perm
use naia_socket.Base.{
  ℕ, ◌≤◌, ◌<◌, ◌≡◌, refl, ◌⊎◌, inl, inr, true, false, Bool-cases, ◌==◌, none, some, List, ◌∷◌, Perm,
  Exec, done, panicked, arith, length,
}
use naia_socket.Shared.Config.{Rates, IsValid}
use naia_socket.Shared.World.{World, IsLawful, IsMonotone, Profile}
use naia_socket.Shared.Heap.{BinaryHeap}
use naia_socket.Shared.Heap as H
use naia_socket.Shared.TimeQueue.{ItemContainer, TimeQueue, cmp, has_item, len}
use naia_socket.Shared.TimeQueue.Laws.{
  contents, NoneDue, IsFirstDue, pop_item-Takes, has_item_later, NoneDue-of_not_ready,
  pop_item_ready,
}
use naia_socket.Client.{Packet, NaiaClientSocketError, Received, ok, err, ClientSocket}
use naia_socket.Client.Conditioner.{LinkConditioner, has_packet, hand_out, receive}
use naia_socket.Client.Conditioner.Laws.{Gives, Keeps, pump-Pumped}

module _ {R : Rates} (V : World R) (profile : Profile) (B : BinaryHeap (ItemContainer Packet))
    (I : ClientSocket) where
  has_item_none : (q : TimeQueue B) (now : ℕ) → (len B q == 0) ≡ true → has_item B q now ≡ false
  unfolding has_item len
  has_item_none q now z = rw z refl

  -- `has_packet` finds an entry due when it reads the clock; or none at the moment that it reads, or, on an
  -- empty queue, at any moment.
  has_packet-cases :
      (self : LinkConditioner R B I) (w : V.W) (any : ℕ)
      → ((w' : V.W) × (now : ℕ) × ((now ≡ any) ⊎ (now ≡ (V.now w).0))
          × (has_item B self.time_queue now ≡ false)
          × (has_packet V profile B I self w ≡ (false, w')))
        ⊎ ((has_item B self.time_queue (V.now w).0 ≡ true)
            × (has_packet V profile B I self w ≡ (true, (V.now w).1)))
  unfolding has_packet
  has_packet-cases self w any = elim (Bool-cases (len B self.time_queue == 0)) [
    | inl z ↦ inl (w, any, inl refl, has_item_none self.time_queue any z, rw z refl)
    | inr s ↦ elim (Bool-cases (has_item B self.time_queue (V.now w).0)) [
      | inr f ↦ inl ((V.now w).1, (V.now w).0, inr refl, f, rw (s, f) refl)
      | inl t ↦ inr (t, rw (s, t) refl)
    ]
  ]

  has_packet_ready :
      (self : LinkConditioner R B I) (w : V.W)
      → has_item B self.time_queue (V.now w).0 ≡ true
      → has_packet V profile B I self w ≡ (true, (V.now w).1)
  has_packet_ready self w t = elim (has_packet-cases self w (V.now w).0) [
    | inl (w', now, seen, f, e) ↦ elim seen [ inl s ↦ cc | inr s ↦ cc ]
    | inr (_, e) ↦ e
  ]

module _ {R : Rates} (V : World R) (M : IsMonotone V) (B : BinaryHeap (ItemContainer Packet))
    (I : ClientSocket) where
  -- The answer where the inner socket has nothing more: `None` where nothing in the queue was due
  -- when the clock was read, or else a packet that was due first, which leaves the queue.
  abbrev pub HandsOut :
      LinkConditioner R B I → V.W → Exec (Received × LinkConditioner R B I × V.W) → Type 0
  HandsOut self w r =
      ((now : ℕ) × (w' : V.W) × (M.clock w ≤ now)
        × NoneDue B self.time_queue now
        × (r ≡ done (ok none, self, w')))
      ⊎ ((now : ℕ) × (w' : V.W) × (c : ItemContainer Packet) × (q : TimeQueue B) × (now
            ≤ M.clock w')
          × IsFirstDue B self.time_queue now c
          × Perm (contents B self.time_queue) (c ∷ contents B q)
          × (r ≡ done (ok (some c.item), record self { time_queue = q }, w')))

module _ {R : Rates} (V : World R) (M : IsMonotone V) (profile : Profile)
    (B : BinaryHeap (ItemContainer Packet)) (HL : H.IsLawful B cmp) (I : ClientSocket) where
  -- The second reading of the clock, in `get_packet`, cannot undo what the first one found.
  hand_out-HandsOut :
      (self : LinkConditioner R B I) (w : V.W)
      → HandsOut V M B I self w (hand_out V profile B I (none, self, w))
  unfolding hand_out
  hand_out-HandsOut self w = elim (has_packet-cases V profile B I self w (M.clock w)) [
    | inl (w', now, seen, f, e) ↦ inl (
      now,
      w',
      omega (arith, seen, M.now_after w),
      NoneDue-of_not_ready B HL self.time_queue now f,
      rw e,
    )
    | inr (t, e₁) ↦
        let (c, q, due, p, e) = pop_item_ready B HL self.time_queue (V.now (V.now w).1).0 (
          has_item_later B HL self.time_queue (V.now w).0 (V.now (V.now w).1).0
            (omega (arith, M.now_before w, M.now_after (V.now w).1)) t) in
        inr (
          (V.now (V.now w).1).0,
          (V.now (V.now w).1).1,
          c,
          q,
          M.now_before (V.now w).1,
          due,
          p,
          rw (e₁, e),
        )
  ]

  module _ (L : IsLawful V) where
    -- Over a lawful random source, a clock that does not go back, a lawful heap and a valid
    -- configuration, where the inner socket gives the packets `ps` and then has nothing more,
    -- `receive` returns with any fuel above the number of `ps`, in either build: each packet of
    -- `ps` was queued or lost, once, and those queued are due no earlier than the least latency
    -- from the call; what was queued before is still there; the inner socket is in its last state;
    -- and the answer is an entry that is due first, which leaves the queue, or `Ok(None)` where
    -- nothing was due when the clock was read.
    pub receive-HandsOut :
        {s t : I.State} {ps : List Packet}
        → Gives I s ps none t
        → (fuel : ℕ) (self : LinkConditioner R B I) (w : V.W) → self.inner_socket ≡ s
        → length ps < fuel
        → IsValid R self.config
        → (self' : LinkConditioner R B I) × (w' : V.W) × (queued : List (ItemContainer Packet))
          × (lost : List Packet) × Keeps V M B I self w ps t self' w' queued lost
          × HandsOut V M B I self' w' (receive V profile B I fuel (self, w))
    unfolding receive
    receive-HandsOut g fuel self w same h v =
        let (self', w', queued, lost, e, k) =
          pump-Pumped V L M profile B HL I g fuel self w same h v in
        (self', w', queued, lost, k, rw e (hand_out-HandsOut self' w'))

    -- Over a lawful random source, a clock that does not go back, a lawful heap and a valid
    -- configuration, where the inner socket gives the packets `ps` and then fails, `receive`
    -- returns its error with any fuel above the number of `ps`; each packet of `ps` was queued or
    -- lost, once, and what was queued before is still there.
    pub receive_fails :
        {s t : I.State} {ps : List Packet} {error : NaiaClientSocketError}
        → Gives I s ps (some error) t
        → (fuel : ℕ) (self : LinkConditioner R B I) (w : V.W) → self.inner_socket ≡ s
        → length ps < fuel
        → IsValid R self.config
        → (self' : LinkConditioner R B I) × (w' : V.W) × (queued : List (ItemContainer Packet))
          × (lost : List Packet) × Keeps V M B I self w ps t self' w' queued lost
          × (receive V profile B I fuel (self, w) ≡ done (err error, self', w'))
    unfolding receive hand_out
    receive_fails g fuel self w same h v =
        let (self', w', queued, lost, e, k) =
          pump-Pumped V L M profile B HL I g fuel self w same h v in
        (self', w', queued, lost, k, rw e)

module _ {R : Rates} (V : World R) (profile : Profile) (B : BinaryHeap (ItemContainer Packet))
    (HL : H.IsLawful B cmp) (I : ClientSocket) where
  -- Over a lawful heap, where an entry is due at the first reading of the clock behind the loop of
  -- `receive` and none is due at the second one, `receive` panics there.
  pub hand_out_panics :
      (self : LinkConditioner R B I) (w : V.W)
      → has_item B self.time_queue (V.now w).0 ≡ true
      → NoneDue B self.time_queue (V.now (V.now w).1).0
      → hand_out V profile B I (none, self, w) ≡ panicked
  unfolding hand_out
  hand_out_panics self w t late = elim (pop_item-Takes B HL self.time_queue (V.now (V.now w).1).0) [
    | inl (_, e) ↦ rw (has_packet_ready V profile B I self w t, e)
    | inr (c, q, due, p, e) ↦
        absurd (omega (arith, due.0, late c ((Perm.mem_iff p).1 mem-cons_self)))
  ]
