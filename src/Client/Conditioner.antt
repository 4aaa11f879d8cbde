-- ===== src/Client/Conditioner.antt =====
-- client/src/link_conditioner.rs: a client socket that delays and drops what another one receives.
pub mod Laws
pub mod Receive
pub mod Calls
use naia_socket.Base.{
  ℕ, zero, suc, Bool, true, false, Option, none, some, Exec, done, panicked, out_of_fuel, ◌>>=◌,
  if◌then◌else◌, ◌==◌,
}
use naia_socket.Shared.Config.{Rates, LinkConditionerConfig}
use naia_socket.Shared.World.{World, Profile}
use naia_socket.Shared.Heap.{BinaryHeap}
use naia_socket.Shared.TimeQueue.{ItemContainer, TimeQueue}
use naia_socket.Shared.TimeQueue
use naia_socket.Shared.Conditioner
use naia_socket.Client.{Packet, NaiaClientSocketError, Received, ok, err, ClientSocket}

module _ (R : Rates) (B : BinaryHeap (ItemContainer Packet)) (I : ClientSocket) where
  pub record LinkConditioner : Type 0 where
    pub config : LinkConditionerConfig R
    pub inner_socket : I.State
    pub time_queue : TimeQueue B

module _ (R : Rates) (B : BinaryHeap (ItemContainer Packet)) (I : ClientSocket) where
  unfoldable pub new : LinkConditionerConfig R → I.State → LinkConditioner R B I
  new config socket = record {
    config = config;
    inner_socket = socket;
    time_queue = TimeQueue.new B;
  }

module _ {R : Rates} (V : World R) (profile : Profile) (B : BinaryHeap (ItemContainer Packet))
    (I : ClientSocket) where
  unfoldable pub process_packet :
      LinkConditioner R B I → Packet → V.W → Exec (LinkConditioner R B I × V.W)
  process_packet self packet w = do
    (q, w') ← Conditioner.process_packet V profile B self.config self.time_queue packet w
    done (record self { time_queue = q }, w')

  unfoldable pub has_packet : LinkConditioner R B I → V.W → Bool × V.W
  has_packet self w =
      if TimeQueue.len B self.time_queue == 0
      then (false, w)
      else (let (now, w') = V.now w in (TimeQueue.has_item B self.time_queue now, w'))

  abbrev unwrap : {A : Type 0} → Option A → Exec A
  unwrap none = panicked
  unwrap (some a) = done a

  unfoldable pub get_packet :
      LinkConditioner R B I → V.W → Exec (Packet × LinkConditioner R B I × V.W)
  get_packet self w =
      let (now, w') = V.now w in
      let (item, q) = TimeQueue.pop_item B self.time_queue now in
      do packet ← unwrap item; done (packet, record self { time_queue = q }, w')

  -- The loop of `receive`, with fuel: why it stopped, an error of the inner socket or nothing more.
  unfoldable pub pump :
      ℕ
      → LinkConditioner R B I
      → V.W
      → Exec (Option NaiaClientSocketError × LinkConditioner R B I × V.W)
  pump zero self w = out_of_fuel
  pump (suc fuel) self w = do
    (event, inner) ← I.receive self.inner_socket
    let self' = record self { inner_socket = inner }
    elim event [
      | ok none ↦ done (none, self', w)
      | ok (some packet) ↦ do (self'', w') ← process_packet self' packet w; pump fuel self'' w'
      | err error ↦ done (some error, self', w)
    ]

  -- The rest of `receive`, behind the loop.
  unfoldable pub hand_out :
      Option NaiaClientSocketError × LinkConditioner R B I × V.W
      → Exec (Received × LinkConditioner R B I × V.W)
  unfolding get_packet
  hand_out (some error, self, w) = done (err error, self, w)
  hand_out (none, self, w) =
      let (ready, w') = has_packet self w in
      if ready
      then (do (packet, self', w'') ← get_packet self w'; done (ok (some packet), self', w''))
      else done (ok none, self, w')

  unfoldable pub receive :
      ℕ → LinkConditioner R B I × V.W → Exec (Received × LinkConditioner R B I × V.W)
  unfolding pump hand_out
  receive fuel (self, w) = pump fuel self w >>= hand_out

  -- `get_sender`
  unfoldable pub get_sender : LinkConditioner R B I × V.W → I.Sender
  get_sender (self, w) = I.get_sender self.inner_socket

  -- A conditioner is a client socket again, so conditioners can be stacked.
  abbrev pub conditioned : ℕ → ClientSocket
  conditioned fuel = record {
    State = LinkConditioner R B I × V.W;
    Sender = I.Sender;
    receive = λ s. receive fuel s >>= λ (r, self, w). done (r, (self, w));
    get_sender = get_sender;
  }
