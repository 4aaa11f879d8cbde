-- ===== src/Server/Conditioner/Current.antt =====
-- What a whole call of `receive` of server/src/link_conditioner.rs does with its queue, its timer and the
-- packets that come in meanwhile.
use naia_socket.Base.{
  ℕ, ◌≤◌, ◌≡◌, refl, sym, ap, ◌∙◌, inl, inr, Bool-cases, List, [], ◌∷◌, ◌++◌, append-nil, subst,
  done, arith,
}
use naia_socket.Shared.World.{World, IsLawful, IsMonotone, Profile}
use naia_socket.Shared.Config.{Rates, IsValid}
use naia_socket.Shared.Heap.{BinaryHeap}
use naia_socket.Shared.Heap as H
use naia_socket.Shared.TimeQueue.{ItemContainer, cmp}
use naia_socket.Shared.TimeQueue.Laws.{pop_item-Takes}
use naia_socket.Shared.Conditioner.Accounts.{Accounts-none}
use naia_socket.Server.{Packet, ok, err, Poll, pending, returned, ServerSocket}
use naia_socket.Server.Conditioner.{
  LinkConditioner, Round, Wake, socket_ready, timer_ready, start, has_fired, on_timer, poll,
  receive,
}
use naia_socket.Server.Conditioner.Laws.{IsCurrent, on_timer-some, on_timer-none}
use naia_socket.Server.Conditioner.Socket.{poll-SocketOutcome}
use naia_socket.Server.Conditioner.Calls.{came_from, left, arrived_now, arrived}
use naia_socket.Server.Conditioner.Calls.Laws.{Adds-Accounts}
use naia_socket.Server.Conditioner.Stands.{Stands, CallOutcome, Stands-append}

module _ {R : Rates} (V : World R) (L : IsLawful V) (M : IsMonotone V) (profile : Profile)
    (B : BinaryHeap (ItemContainer Packet)) (HL : H.IsLawful B cmp) (I : ServerSocket) where
  socket-CallOutcome :
      (x : I.Wake) (round : Round I) (self : LinkConditioner R B I) (w : V.W)
      (r : Poll I.Call I.State)
      → I.poll x round.socket_next self.inner_socket ≡ done r
      → IsValid R self.config
      → IsCurrent V profile B I round self
      → CallOutcome V M profile B I
          (came_from V M profile B I (done r) (M.clock w))
          self
          (M.clock w)
          (poll V profile B I (socket_ready x) round (self, w))
  unfolding start
  socket-CallOutcome x round self w (pending call s) e v cur = (
    _,
    poll-SocketOutcome V L M profile B I x round self w (pending call s) e v,
    refl,
    omega arith,
    (cur, Accounts-none B _ self.time_queue),
  )
  socket-CallOutcome x round self w (returned (ok p) s) e v cur =
      let (self', w', f, _, c, a, le) =
        poll-SocketOutcome V L M profile B I x round self w (returned (ok p) s) e v in
      (
        _,
        f,
        c,
        le,
        (
          refl,
          Adds-Accounts V L M profile B HL I self.config (M.clock w) self.time_queue p
              self'.time_queue a,
        ),
      )
  socket-CallOutcome x round self w (returned (err k) s) e v cur = (
    _,
    poll-SocketOutcome V L M profile B I x round self w (returned (err k) s) e v,
    refl,
    omega arith,
    Accounts-none B _ self.time_queue,
  )

  on_timer-CallOutcome :
      (self : LinkConditioner R B I) (w : V.W) (t : ℕ)
      → t ≤ M.clock w
      → CallOutcome V M profile B I [] self t (done (on_timer V profile B I (self, w)))
  unfolding start
  on_timer-CallOutcome self w t le = elim (pop_item-Takes B HL self.time_queue (V.now w).0) [
    | inl (_, e) ↦ (
      _,
      ap done (on_timer-none V profile B I self w e),
      refl,
      omega (arith, le, M.now_after w, M.now_before w),
      (refl, Accounts-none B _ self.time_queue),
    )
    | inr (c, q, due, p, e) ↦ (
      _,
      ap done (on_timer-some V profile B I self w e),
      refl,
      omega (arith, le, M.now_after w, M.now_before w),
      (
        self.time_queue,
        (V.now w).0,
        c,
        Accounts-none B _ self.time_queue,
        omega (arith, le, M.now_after w),
        M.now_before w,
        due,
        p,
        refl,
      ),
    )
  ]

  timer-CallOutcome :
      (round : Round I) (self : LinkConditioner R B I) (w : V.W)
      → IsCurrent V profile B I round self
      → CallOutcome V M profile B I [] self
          (M.clock w)
          (poll V profile B I timer_ready round (self, w))
  unfolding poll
  timer-CallOutcome round self w cur =
      let le : M.clock w ≤ M.clock (V.now w).1 = omega (arith, M.now_after w, M.now_before w) in
      elim (Bool-cases (has_fired round.queue_duration (V.now w).0)) [
        | inl fired ↦ rw fired (on_timer-CallOutcome self (V.now w).1 (M.clock w) le)
        | inr early ↦ rw early (_, refl, refl, le, (cur, Accounts-none B _ self.time_queue))
      ]

  module _
      (total : (x : I.Wake) (call : I.Call) (s : I.State)
        → (r : Poll I.Call I.State) × (I.poll x call s ≡ done r)) where
    poll-CallOutcome :
        (x : Wake I) (round : Round I) (self : LinkConditioner R B I) (w : V.W)
        → IsValid R self.config
        → IsCurrent V profile B I round self
        → CallOutcome V M profile B I
            (arrived_now V M profile B I x round (self, w))
            self
            (M.clock w)
            (poll V profile B I x round (self, w))
    poll-CallOutcome (socket_ready x) round self w v cur =
        let (r, e) = total x round.socket_next self.inner_socket in
        subst
          (λ m.
            CallOutcome V M profile B I (came_from V M profile B I m (M.clock w)) self (M.clock w)
              (poll V profile B I (socket_ready x) round (self, w)))
          (sym e) (socket-CallOutcome x round self w r e v cur)
    poll-CallOutcome timer_ready round self w v cur = timer-CallOutcome round self w cur

    -- The rest of the wake-ups, behind the first one.
    rest-CallOutcome :
        (xs : List (Wake I)) (came : List (ℕ × Packet)) (self : LinkConditioner R B I) (t : ℕ)
        (p : Poll (Round I) (LinkConditioner R B I × V.W))
        → IsValid R self.config
        → (left V M profile B I p).0.config ≡ self.config
        → t ≤ M.clock (left V M profile B I p).1
        → Stands V M profile B I came self t p
        → ((round : Round I) (self' : LinkConditioner R B I) (w : V.W)
            → IsValid R self'.config
            → IsCurrent V profile B I round self'
            → CallOutcome V M profile B I
                (arrived V M profile B I xs round (self', w))
                self'
                (M.clock w)
                (receive V profile B I xs round (self', w)))
        → CallOutcome V M profile B I
            (came ++ elim p [ pending round' s' ↦ arrived V M profile B I xs round' s' | _ ↦ [] ])
            self
            t
            (elim p [
              | pending round' s' ↦ receive V profile B I xs round' s'
              | returned r s' ↦ done (returned r s')
            ])
    rest-CallOutcome xs came self t (pending round (self', w)) v c le (cur, a) ih =
        let (p, e, d, le', s) = ih round self' w (subst (IsValid R) (sym c) v) cur in
        (
          p,
          e,
          d ∙ c,
          omega (arith, le, le'),
          Stands-append V M profile B I came (arrived V M profile B I xs round (self', w)) self
              self' t (M.clock w) p c le a s,
        )
    rest-CallOutcome xs came self t (returned r s) v c le a ih =
        rw (append-nil came) (returned r s, refl, c, le, a)

    receive_from :
        (xs : List (Wake I)) (round : Round I) (self : LinkConditioner R B I) (w : V.W)
        → IsValid R self.config
        → IsCurrent V profile B I round self
        → CallOutcome V M profile B I
            (arrived V M profile B I xs round (self, w))
            self
            (M.clock w)
            (receive V profile B I xs round (self, w))
    unfolding receive arrived
    receive_from [] round self w v cur =
        (_, refl, refl, omega arith, (cur, Accounts-none B _ self.time_queue))
    receive_from (x ∷ xs) round self w v cur =
        let (p, e, c, le, a) = poll-CallOutcome x round self w v cur in
        rw e (
          rest-CallOutcome xs (arrived_now V M profile B I x round (self, w)) self (M.clock w) p v c
            le a (receive_from xs))

    -- Over a lawful random source, a clock that does not go back, a lawful heap, a valid
    -- configuration and an inner socket whose polls all return, a new call of `receive` of the
    -- server conditioner, whatever becomes ready in whatever order, comes to no panic and keeps
    -- the configuration. Where it still waits, its timer is that of its queue; where it returned a
    -- packet, that was of the entry of the queue that was due first at a moment between the start
    -- of the call and the clock behind it, and just that entry left; where it failed, nothing
    -- left. In each case that queue holds, as a multiset, what it held at the start and the
    -- packets that the inner socket gave in the call, each of them kept, for a moment no earlier
    -- than the least latency from its coming, or lost: no packet reaches the caller past the
    -- queue.
    pub receive-CallOutcome :
        (xs : List (Wake I)) (self : LinkConditioner R B I) (w : V.W)
        → IsValid R self.config
        → CallOutcome V M profile B I
            (arrived V M profile B I xs (start R B I self) (self, w))
            self
            (M.clock w)
            (receive V profile B I xs (start R B I self) (self, w))
    unfolding start
    receive-CallOutcome xs self w v = receive_from xs (start R B I self) self w v refl
