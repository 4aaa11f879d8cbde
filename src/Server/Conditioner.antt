-- ===== src/Server/Conditioner.antt =====
-- server/src/link_conditioner.rs: a server socket that delays and drops what another one receives.
-- Each round of the loop starts a new call of the inner socket and a new timer, and forgets both
-- when it ends. A timer of the `None` branch, a year ahead, is one that may fire at any time.
pub mod Laws
pub mod Cancel
pub mod Socket
pub mod Current
pub mod Stands
pub mod Calls
pub mod Inner
use naia_socket.Base.{
  ℕ, Bool, true, false, Option, none, some, List, [], ◌∷◌, Exec, done, ◌>>=◌, ltb, ◌==◌,
  if◌then◌else◌,
}
use naia_socket.Shared.Config.{Rates, LinkConditionerConfig}
use naia_socket.Shared.World.{World, Profile}
use naia_socket.Shared.Heap.{BinaryHeap}
use naia_socket.Shared.TimeQueue.{ItemContainer, TimeQueue}
use naia_socket.Shared.TimeQueue
use naia_socket.Shared.Conditioner
use naia_socket.Server.{Packet, Received, ok, err, Poll, pending, returned, ServerSocket}

module _ (R : Rates) (B : BinaryHeap (ItemContainer Packet)) (I : ServerSocket) where
  pub record LinkConditioner : Type 0 where
    pub config : LinkConditionerConfig R
    pub inner_socket : I.State
    pub time_queue : TimeQueue B

-- A round of the loop: the call of the inner socket, and the instant of the timer.
pub record Round (I : ServerSocket) : Type 0 where
  pub socket_next : I.Call
  pub queue_duration : Option ℕ

-- What becomes ready: something of the inner call, or the timer.
pub data Wake (I : ServerSocket) : Type 0 where
  socket_ready : I.Wake → Wake I
  timer_ready : Wake I

module _ (B : BinaryHeap (ItemContainer Packet)) where
  -- The instant of the first entry, where the queue is not empty.
  unfoldable pub queue_duration : TimeQueue B → Option ℕ
  queue_duration q =
      if TimeQueue.len B q == 0
      then none
      else elim (TimeQueue.peek_entry B q) [ none ↦ none | some container ↦ some container.instant ]

module _ (R : Rates) (B : BinaryHeap (ItemContainer Packet)) (I : ServerSocket) where
  unfoldable pub new : LinkConditionerConfig R → I.State → LinkConditioner R B I
  new config socket = record {
    config = config;
    inner_socket = socket;
    time_queue = TimeQueue.new B;
  }

  -- The start of a round.
  unfoldable pub start : LinkConditioner R B I → Round I
  unfolding queue_duration
  start self = record {
    socket_next = I.start self.inner_socket;
    queue_duration = queue_duration B self.time_queue;
  }

-- Whether a timer for `instant` has fired by `now`.
abbrev pub has_fired : Option ℕ → ℕ → Bool
has_fired none now = true
has_fired (some instant) now = if ltb now instant then false else true

module _ {R : Rates} (V : World R) (profile : Profile) (B : BinaryHeap (ItemContainer Packet))
    (I : ServerSocket) where
  unfoldable pub process_packet :
      LinkConditioner R B I → Packet → V.W → Exec (LinkConditioner R B I × V.W)
  process_packet self packet w = do
    (q, w') ← Conditioner.process_packet V profile B self.config self.time_queue packet w
    done (record self { time_queue = q }, w')

  -- A new round.
  abbrev pub continue : LinkConditioner R B I × V.W → Poll (Round I) (LinkConditioner R B I × V.W)
  continue (self, w) = pending (start R B I self) (self, w)

  -- `Next::Event`, and a call of the inner socket that goes on waiting.
  unfoldable pub on_socket :
      Round I
      → LinkConditioner R B I × V.W
      → Poll I.Call I.State
      → Exec (Poll (Round I) (LinkConditioner R B I × V.W))
  on_socket round (self, w) (pending call inner) =
      done (pending (record round { socket_next = call }) (record self { inner_socket = inner }, w))
  on_socket round (self, w) (returned (ok packet) inner) = do
    (self', w') ← process_packet (record self { inner_socket = inner }) packet w
    done (continue (self', w'))
  on_socket round (self, w) (returned (err e) inner) =
      done (returned (err e) (record self { inner_socket = inner }, w))

  -- `Next::BufferedEvent`, once the queue was popped.
  unfoldable pub after_pop :
      LinkConditioner R B I
      → V.W
      → Option Packet × TimeQueue B
      → Poll (Round I) (LinkConditioner R B I × V.W)
  after_pop self w (some packet, q) = returned (ok packet) (record self { time_queue = q }, w)
  after_pop self w (none, q) = continue (record self { time_queue = q }, w)

  -- `pop_item` is handed a reading of the clock here also where the queue is empty; the source then reads none.
  unfoldable pub on_timer :
      LinkConditioner R B I × V.W → Poll (Round I) (LinkConditioner R B I × V.W)
  unfolding after_pop
  on_timer (self, w) =
      let (now, w') = V.now w in after_pop self w' (TimeQueue.pop_item B self.time_queue now)

  -- `receive`, from one `await` to the next.
  unfoldable pub poll :
      Wake I
      → Round I
      → LinkConditioner R B I × V.W
      → Exec (Poll (Round I) (LinkConditioner R B I × V.W))
  unfolding on_socket on_timer
  poll (socket_ready x) round (self, w) =
      I.poll x round.socket_next self.inner_socket >>= on_socket round (self, w)
  poll timer_ready round (self, w) =
      let (now, w') = V.now w in
      if has_fired round.queue_duration now
      then done (on_timer (self, w'))
      else done (pending round (self, w'))

  -- A call of `receive` that is polled until it returns, or the wake-ups end.
  unfoldable pub receive :
      List (Wake I)
      → Round I
      → LinkConditioner R B I × V.W
      → Exec (Poll (Round I) (LinkConditioner R B I × V.W))
  receive [] round s = done (pending round s)
  receive (x ∷ xs) round s = do
    p ← poll x round s
    elim p [ pending round' s' ↦ receive xs round' s' | returned r s' ↦ done (returned r s') ]

  -- The conditioner is a server socket again.
  abbrev pub conditioned : ServerSocket
  conditioned = record {
    State = LinkConditioner R B I × V.W;
    Call = Round I;
    Wake = Wake I;
    start = λ (self, w). start R B I self;
    poll = poll;
  }
