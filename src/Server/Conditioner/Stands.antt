-- ===== src/Server/Conditioner/Stands.antt =====
-- How a call of `receive` of server/src/link_conditioner.rs stands, and that its pieces add up.
use naia_socket.Base.{ℕ, ◌≤◌, ◌≡◌, Perm, List, [], ◌∷◌, ◌++◌, subst, Exec, done, arith}
use naia_socket.Shared.World.{World, IsMonotone, Profile}
use naia_socket.Shared.Config.{Rates}
use naia_socket.Shared.Heap.{BinaryHeap}
use naia_socket.Shared.TimeQueue.{ItemContainer, TimeQueue}
use naia_socket.Shared.TimeQueue.Laws.{contents, IsFirstDue}
use naia_socket.Shared.Conditioner.Accounts.{Accounts, Accounts-append}
use naia_socket.Server.{Packet, ok, err, Poll, pending, returned, ServerSocket}
use naia_socket.Server.Conditioner.{LinkConditioner, Round}
use naia_socket.Server.Conditioner.Laws.{IsCurrent}
use naia_socket.Server.Conditioner.Calls.{left, hold}

module _ {R : Rates} (V : World R) (M : IsMonotone V) (profile : Profile)
    (B : BinaryHeap (ItemContainer Packet)) (I : ServerSocket) where
  -- How a call stands that began with `self` at the moment `t`, where the inner socket gave the packets
  -- `came` since. It waits, and its timer is that of its queue, in which the packets that were kept have
  -- joined those of `self`; or it returned the packet of the entry of such a queue that was due first at
  -- a moment since, and just that entry left; or it failed, and nothing left the queue.
  abbrev pub Stands :
      List (ℕ × Packet)
      → LinkConditioner R B I
      → ℕ
      → Poll (Round I) (LinkConditioner R B I × V.W)
      → Type 0
  Stands came self t (pending round (self', w)) =
      IsCurrent V profile B I round self'
      × Accounts B (hold V M profile B I self.config) came self.time_queue [] self'.time_queue
  Stands came self t (returned (ok p) (self', w)) =
      (q : TimeQueue B) × (now : ℕ) × (c : ItemContainer Packet) × Accounts B
        (hold V M profile B I self.config) came self.time_queue [] q
      × (t ≤ now)
      × (now ≤ M.clock w)
      × IsFirstDue B q now c
      × Perm (contents B q) (c ∷ contents B self'.time_queue)
      × (c.item ≡ p)
  Stands came self t (returned (err e) (self', w)) =
      Accounts B (hold V M profile B I self.config) came self.time_queue [] self'.time_queue

  -- A call or a piece of it comes to an end, and how it stands then.
  abbrev pub CallOutcome :
      List (ℕ × Packet)
      → LinkConditioner R B I
      → ℕ
      → Exec (Poll (Round I) (LinkConditioner R B I × V.W))
      → Type 0
  CallOutcome came self t m =
      (p : Poll (Round I) (LinkConditioner R B I × V.W)) × (m ≡ done p)
      × ((left V M profile B I p).0.config ≡ self.config)
      × (t ≤ M.clock (left V M profile B I p).1)
      × Stands came self t p

  -- One piece of a call, and then what follows.
  pub Stands-append :
      (came came' : List (ℕ × Packet)) (self self' : LinkConditioner R B I) (t t' : ℕ)
      (p : Poll (Round I) (LinkConditioner R B I × V.W))
      → self'.config ≡ self.config
      → t ≤ t'
      → Accounts B (hold V M profile B I self.config) came self.time_queue [] self'.time_queue
      → Stands came' self' t' p
      → Stands (came ++ came') self t p
  Stands-append came came' self self' t t' (pending round (self'', w)) c le a (cur, b) = (
    cur,
    Accounts-append B _ a (
        subst (λ k. Accounts B (hold V M profile B I k) came' self'.time_queue [] self''.time_queue)
          c b),
  )
  Stands-append came came' self self' t t' (returned (ok p) (self'', w)) c le a
        (q, now, x, b, after, before, due, perm, e) =
      (
        q,
        now,
        x,
        Accounts-append B _ a
            (subst (λ k. Accounts B (hold V M profile B I k) came' self'.time_queue [] q) c b),
        omega (arith, le, after),
        before,
        due,
        perm,
        e,
      )
  Stands-append came came' self self' t t' (returned (err e) (self'', w)) c le a b =
      Accounts-append B _ a (
        subst (λ k. Accounts B (hold V M profile B I k) came' self'.time_queue [] self''.time_queue)
          c b)
