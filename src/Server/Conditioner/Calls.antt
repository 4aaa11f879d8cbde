-- ===== src/Server/Conditioner/Calls.antt =====
-- What becomes of every packet over many calls of `receive` of server/src/link_conditioner.rs, those that are
-- dropped before they return included.
pub mod Laws
use naia_socket.Base.{
  ℕ, ◌*◌, ◌≡◌, refl, Perm, append-nil, sym, ap, ◌∙◌, inl, inr, Bool-cases, List, [], ◌∷◌, ◌++◌,
  Exec, done, ◌>>=◌, arith, subst,
}
use naia_socket.Shared.Config.{Rates, LinkConditionerConfig, IsValid}
use naia_socket.Shared.World.{World, IsLawful, IsMonotone, Profile}
use naia_socket.Shared.Heap.{BinaryHeap}
use naia_socket.Shared.Heap as H
use naia_socket.Shared.TimeQueue.{ItemContainer, TimeQueue, cmp}
use naia_socket.Shared.TimeQueue.Laws.{contents, contents-add_item, pop_item-Takes}
use naia_socket.Shared.Conditioner.Timing.{least_latency, Adds}
use naia_socket.Shared.Conditioner.Accounts.{
  Accounts, Accounts-none, Accounts-lose, Accounts-keep, Accounts-hand, Accounts-append,
}
use naia_socket.Server.{Packet, Received, ok, err, Poll, pending, returned, ServerSocket}
use naia_socket.Server.Conditioner.{
  LinkConditioner, Round, Wake, socket_ready, timer_ready, start, has_fired, on_timer, poll,
  receive,
}
use naia_socket.Server.Conditioner.Laws.{on_timer-some, on_timer-none}
use naia_socket.Server.Conditioner.Socket.{poll-SocketOutcome}

-- The packet of an answer, with a moment by which it was returned.
abbrev pub note : Received → ℕ → List (Packet × ℕ)
note (ok p) t = (p, t) ∷ []
note (err e) t = []

module _ {R : Rates} (V : World R) (M : IsMonotone V) (profile : Profile)
    (B : BinaryHeap (ItemContainer Packet)) (I : ServerSocket) where
  -- What a call that waits or returned leaves, and what it gave its caller.
  abbrev pub left : Poll (Round I) (LinkConditioner R B I × V.W) → LinkConditioner R B I × V.W
  left (pending round s) = s
  left (returned r s) = s

  abbrev pub given : Poll (Round I) (LinkConditioner R B I × V.W) → List (Packet × ℕ)
  given (pending round s) = []
  given (returned r (self, w)) = note r (M.clock w)

  abbrev pub came_from : Exec (Poll I.Call I.State) → ℕ → List (ℕ × Packet)
  came_from (done (returned (ok p) s)) t = (t, p) ∷ []
  came_from _ t = []

  -- The packets that the inner socket returns in one wake-up, with the clock, and in a call.
  abbrev pub arrived_now : Wake I → Round I → LinkConditioner R B I × V.W → List (ℕ × Packet)
  arrived_now (socket_ready x) round (self, w) =
      came_from (I.poll x round.socket_next self.inner_socket) (M.clock w)
  arrived_now timer_ready round s = []

  unfoldable pub arrived : List (Wake I) → Round I → LinkConditioner R B I × V.W → List (ℕ × Packet)
  arrived [] round s = []
  arrived (x ∷ xs) round s = arrived_now x round s ++ elim (poll V profile B I x round s) [
    | done (pending round' s') ↦ arrived xs round' s'
    | _ ↦ []
  ]

  -- A call of `receive`: the inner socket and the world as the time before has left them, and what becomes
  -- ready. Where they end before it returns, the call is dropped.
  pub record Turn : Type 0 where
    pub inner : I.State
    pub world : V.W
    pub wakes : List (Wake I)

  -- The conditioner, with its inner socket as a call finds it.
  abbrev pub placed : Turn → LinkConditioner R B I → LinkConditioner R B I
  placed turn self = record self { inner_socket = turn.inner }

  -- What came in over some calls, what they returned, and the conditioner behind them.
  unfoldable pub run :
      List Turn
      → LinkConditioner R B I
      → Exec (List (ℕ × Packet) × List (Packet × ℕ) × LinkConditioner R B I)
  run [] self = done ([], [], self)
  run (turn ∷ turns) self = do
    let self' = placed turn self
    p ← receive V profile B I turn.wakes (start R B I self') (self', turn.world)
    (came, out, self'') ← run turns (left p).0
    done
        (arrived turn.wakes (start R B I self') (self', turn.world) ++ came, given p ++ out, self'')

  abbrev pub hold : LinkConditionerConfig R → ℕ
  hold config = least_latency config * V.per_milli

  -- Something returns and accounts for the packets that came in.
  abbrev pub Returns :
      List (ℕ × Packet)
      → LinkConditioner R B I
      → Exec (Poll (Round I) (LinkConditioner R B I × V.W))
      → Type 0
  Returns came self r =
      (p : Poll (Round I) (LinkConditioner R B I × V.W)) × (r ≡ done p)
      × ((left p).0.config ≡ self.config)
      × Accounts B (hold self.config) came self.time_queue (given p) (left p).0.time_queue

  -- The calls return or are dropped, and account for the packets that came in.
  abbrev pub Accounted : List Turn → LinkConditioner R B I → Type 0
  Accounted turns self =
      (came : List (ℕ × Packet)) × (out : List (Packet × ℕ)) × (self'' : LinkConditioner R B I)
      × (run turns self ≡ done (came, out, self''))
      × Accounts B (hold self.config) came self.time_queue out self''.time_queue
