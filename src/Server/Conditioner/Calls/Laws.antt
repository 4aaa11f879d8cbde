-- ===== src/Server/Conditioner/Calls/Laws.antt =====
-- That every call of `receive` of server/src/link_conditioner.rs accounts for its packets.
use naia_socket.Base.{
  ℕ, ◌≡◌, refl, Perm, append-nil, sym, ap, ◌∙◌, inl, inr, Bool-cases, List, [], ◌∷◌, ◌++◌, Exec,
  done, arith, subst,
}
use naia_socket.Shared.Config.{Rates, LinkConditionerConfig, IsValid}
use naia_socket.Shared.World.{World, IsLawful, IsMonotone, Profile}
use naia_socket.Shared.Heap.{BinaryHeap}
use naia_socket.Shared.Heap as H
use naia_socket.Shared.TimeQueue.{ItemContainer, TimeQueue, cmp}
use naia_socket.Shared.TimeQueue.Laws.{contents, contents-add_item, pop_item-Takes}
use naia_socket.Shared.Conditioner.Timing.{Adds}
use naia_socket.Shared.Conditioner.Accounts.{
  Accounts, Accounts-none, Accounts-lose, Accounts-keep, Accounts-hand, Accounts-append,
}
use naia_socket.Server.{Packet, ok, err, Poll, pending, returned, ServerSocket}
use naia_socket.Server.Conditioner.{
  LinkConditioner, Round, Wake, socket_ready, timer_ready, start, has_fired, on_timer, poll,
  receive,
}
use naia_socket.Server.Conditioner.Laws.{on_timer-some, on_timer-none}
use naia_socket.Server.Conditioner.Socket.{poll-SocketOutcome}
use naia_socket.Server.Conditioner.Calls.{
  came_from, left, given, arrived_now, arrived, Turn, placed, run, hold, Returns, Accounted,
}

module _ {R : Rates} (V : World R) (L : IsLawful V) (M : IsMonotone V) (profile : Profile)
    (B : BinaryHeap (ItemContainer Packet)) (HL : H.IsLawful B cmp) (I : ServerSocket) where
  pub Adds-Accounts :
      (config : LinkConditionerConfig R) (t : ℕ) (q : TimeQueue B) (p : Packet) (q' : TimeQueue B)
      → Adds V B config t q p q'
      → Accounts B (hold V M profile B I config) ((t, p) ∷ []) q [] q'
  Adds-Accounts config t q p q' (inl e) =
      subst (λ l. Accounts B (hold V M profile B I config) ((t, p) ∷ []) q [] l) (sym e)
        (Accounts-lose B _ t p q)
  Adds-Accounts config t q p q' (inr (at, b, e)) =
      Accounts-keep B _ t (record { instant = at; item = p }) q q' b
        (subst (λ l. Perm (contents B l) (record { instant = at; item = p } ∷ contents B q)) (sym e)
          (contents-add_item B HL q at p))

  socket-Returns :
      (x : I.Wake) (round : Round I) (self : LinkConditioner R B I) (w : V.W)
      (r : Poll I.Call I.State)
      → I.poll x round.socket_next self.inner_socket ≡ done r
      → IsValid R self.config
      → Returns V M profile B I
          (came_from V M profile B I (done r) (M.clock w))
          self
          (poll V profile B I (socket_ready x) round (self, w))
  socket-Returns x round self w (pending call s) e v = (
    pending (record round { socket_next = call }) (record self { inner_socket = s }, w),
    poll-SocketOutcome V L M profile B I x round self w (pending call s) e v,
    refl,
    Accounts-none B _ self.time_queue,
  )
  socket-Returns x round self w (returned (ok p) s) e v =
      let (self', w', f, _, c, a, _) =
        poll-SocketOutcome V L M profile B I x round self w (returned (ok p) s) e v in
      (
        pending (start R B I self') (self', w'),
        f,
        c,
        Adds-Accounts self.config (M.clock w) self.time_queue p self'.time_queue a,
      )
  socket-Returns x round self w (returned (err k) s) e v = (
    returned (err k) (record self { inner_socket = s }, w),
    poll-SocketOutcome V L M profile B I x round self w (returned (err k) s) e v,
    refl,
    Accounts-none B _ self.time_queue,
  )

  on_timer-Returns :
      (self : LinkConditioner R B I) (w : V.W)
      → Returns V M profile B I [] self (done (on_timer V profile B I (self, w)))
  on_timer-Returns self w = elim (pop_item-Takes B HL self.time_queue (V.now w).0) [
    | inl (_, e) ↦ (
      pending (start R B I self) (self, (V.now w).1),
      ap done (on_timer-none V profile B I self w e),
      refl,
      Accounts-none B _ self.time_queue,
    )
    | inr (c, q, due, p, e) ↦ (
      returned (ok c.item) (record self { time_queue = q }, (V.now w).1),
      ap done (on_timer-some V profile B I self w e),
      refl,
      Accounts-hand B _ c (M.clock (V.now w).1) self.time_queue q
          (omega (arith, due.0, M.now_before w)) p,
    )
  ]

  timer-Returns :
      (round : Round I) (self : LinkConditioner R B I) (w : V.W)
      → Returns V M profile B I [] self (poll V profile B I timer_ready round (self, w))
  unfolding poll
  timer-Returns round self w = elim (Bool-cases (has_fired round.queue_duration (V.now w).0)) [
    | inl fired ↦ rw fired (on_timer-Returns self (V.now w).1)
    | inr early ↦
        rw early (pending round (self, (V.now w).1), refl, refl, Accounts-none B _ self.time_queue)
  ]

  module _
      (total : (x : I.Wake) (call : I.Call) (s : I.State)
        → (r : Poll I.Call I.State) × (I.poll x call s ≡ done r)) where
    poll-Returns :
        (x : Wake I) (round : Round I) (self : LinkConditioner R B I) (w : V.W)
        → IsValid R self.config
        → Returns V M profile B I
            (arrived_now V M profile B I x round (self, w))
            self
            (poll V profile B I x round (self, w))
    poll-Returns (socket_ready x) round self w v =
        let (r, e) = total x round.socket_next self.inner_socket in
        subst
          (λ m.
            Returns V M profile B I (came_from V M profile B I m (M.clock w)) self
              (poll V profile B I (socket_ready x) round (self, w)))
          (sym e) (socket-Returns x round self w r e v)
    poll-Returns timer_ready round self w v = timer-Returns round self w

    -- One piece of a call, and then the rest of it.
    next-Returns :
        (came came' : List (ℕ × Packet)) (self self' : LinkConditioner R B I)
        (m : Exec (Poll (Round I) (LinkConditioner R B I × V.W)))
        → self'.config ≡ self.config
        → Accounts B (hold V M profile B I self.config) came self.time_queue [] self'.time_queue
        → Returns V M profile B I came' self' m
        → Returns V M profile B I (came ++ came') self m
    next-Returns came came' self self' m c a (p, e, d, b) = (
      p,
      e,
      d ∙ c,
      Accounts-append B _ a (
          subst
            (λ k.
              Accounts B (hold V M profile B I k) came' self'.time_queue (given V M profile B I p)
                (left V M profile B I p).0.time_queue)
            c b),
    )

    rest-Returns :
        (came : List (ℕ × Packet)) (xs : List (Wake I)) (self : LinkConditioner R B I)
        (p : Poll (Round I) (LinkConditioner R B I × V.W))
        → IsValid R self.config
        → ((left V M profile B I p).0.config ≡ self.config)
        → Accounts B
            (hold V M profile B I self.config)
            came
            self.time_queue
            (given V M profile B I p)
            (left V M profile B I p).0.time_queue
        → ((round : Round I) (self' : LinkConditioner R B I) (w : V.W)
            → IsValid R self'.config
            → Returns V M profile B I
                (arrived V M profile B I xs round (self', w))
                self'
                (receive V profile B I xs round (self', w)))
        → Returns V M profile B I
            (came ++ elim p [ pending round' s' ↦ arrived V M profile B I xs round' s' | _ ↦ [] ])
            self
            (elim p [
              | pending round' s' ↦ receive V profile B I xs round' s'
              | returned r s' ↦ done (returned r s')
            ])
    rest-Returns came xs self (pending round (self', w)) v c a ih =
        next-Returns came (arrived V M profile B I xs round (self', w)) self self'
          (receive V profile B I xs round (self', w)) c a
          (ih round self' w (subst (IsValid R) (sym c) v))
    rest-Returns came xs self (returned r s) v c a ih =
        rw (append-nil came) (returned r s, refl, c, a)

    pub receive-Returns :
        (xs : List (Wake I)) (round : Round I) (self : LinkConditioner R B I) (w : V.W)
        → IsValid R self.config
        → Returns V M profile B I
            (arrived V M profile B I xs round (self, w))
            self
            (receive V profile B I xs round (self, w))
    unfolding receive arrived
    receive-Returns [] round self w v =
        (pending round (self, w), refl, refl, Accounts-none B _ self.time_queue)
    receive-Returns (x ∷ xs) round self w v =
        let (p, e, c, a) = poll-Returns x round self w v in
        rw e (
          rest-Returns (arrived_now V M profile B I x round (self, w)) xs self p v c a
            (receive-Returns xs))

    run_step :
        (turn : Turn V M profile B I) (turns : List (Turn V M profile B I))
        (self : LinkConditioner R B I) {p : Poll (Round I) (LinkConditioner R B I × V.W)}
        {came : List (ℕ × Packet)} {out : List (Packet × ℕ)} {self'' : LinkConditioner R B I}
        → receive V profile B I turn.wakes
            (start R B I (placed V M profile B I turn self))
            (placed V M profile B I turn self, turn.world)
          ≡ done p
        → run V M profile B I turns (left V M profile B I p).0 ≡ done (came, out, self'')
        → run V M profile B I (turn ∷ turns) self
          ≡ done (
            arrived V M profile B I turn.wakes
                  (start R B I (placed V M profile B I turn self))
                  (placed V M profile B I turn self, turn.world)
                ++ came,
            given V M profile B I p ++ out,
            self'',
          )
    unfolding run
    run_step turn turns self e f = rw (e, f)

    -- Over a lawful random source, a clock that does not go back, a lawful heap, a valid
    -- configuration and an inner socket whose polls come to an end, whatever becomes ready in each
    -- call and whether it returns or is dropped before: the calls of `receive` of the server
    -- conditioner do not panic; each packet that the inner socket returned was kept or lost, once;
    -- each one kept is due no earlier than the least latency from that moment; the entries kept,
    -- with those queued at first, are as a multiset those handed out and those still queued; and
    -- the packets that the calls returned are those handed out, in order, each no earlier than it
    -- was due.
    pub run-Accounted :
        (turns : List (Turn V M profile B I)) (self : LinkConditioner R B I)
        → IsValid R self.config
        → Accounted V M profile B I turns self
    unfolding run
    run-Accounted [] self v = ([], [], self, refl, Accounts-none B _ self.time_queue)
    run-Accounted (turn ∷ turns) self v =
        let self' = placed V M profile B I turn self in
        let (p, e, c, a) = receive-Returns turn.wakes (start R B I self') self' turn.world v in
        let (came, out, self'', f, b) =
          run-Accounted turns (left V M profile B I p).0 (subst (IsValid R) (sym c) v) in
        (
          arrived V M profile B I turn.wakes (start R B I self') (self', turn.world) ++ came,
          given V M profile B I p ++ out,
          self'',
          run_step turn turns self e f,
          Accounts-append B _ a (
              subst
                (λ k.
                  Accounts B (hold V M profile B I k) came (left V M profile B I p).0.time_queue out
                    self''.time_queue)
                c b),
        )
