-- ===== src/Server/Conditioner/Socket.antt =====
-- What becomes of a packet that the inner server socket returns, and that the timer of
-- server/src/link_conditioner.rs stays that of its queue.

use naia_socket.Base.{◌≤◌, ◌≡◌, refl, Exec, done}
use naia_socket.Shared.Config.{Rates, IsValid}
use naia_socket.Shared.World.{World, IsLawful, IsMonotone, Profile}
use naia_socket.Shared.Heap.{BinaryHeap}
use naia_socket.Shared.TimeQueue.{ItemContainer}
use naia_socket.Shared.Conditioner.Timing.{Adds, process_packet-Adds}
use naia_socket.Server.{Packet, ok, err, Poll, pending, returned, ServerSocket}
use naia_socket.Server.Conditioner.{
  LinkConditioner, Round, socket_ready, start, process_packet, on_socket, poll,
}

module _ {R : Rates} (V : World R) (M : IsMonotone V) (profile : Profile)
    (B : BinaryHeap (ItemContainer Packet)) (I : ServerSocket) where
  -- What follows from what the inner call does: it waits on, and the round with it; it returns a
  -- packet, which is dropped or queued before a new round starts; it fails, and so does the
  -- conditioner, whose queue stays.
  abbrev pub SocketOutcome :
      Round I
      → LinkConditioner R B I
      → V.W
      → Poll I.Call I.State
      → Exec (Poll (Round I) (LinkConditioner R B I × V.W))
      → Type 0
  SocketOutcome round self w (pending call s) r =
      r ≡ done (pending (record round { socket_next = call }) (record self { inner_socket = s }, w))
  SocketOutcome round self w (returned (ok p) s) r =
      (self' : LinkConditioner R B I) × (w' : V.W) × (r
        ≡ done (pending (start R B I self') (self', w')))
      × (self'.inner_socket ≡ s)
      × (self'.config ≡ self.config)
      × Adds V B self.config (M.clock w) self.time_queue p self'.time_queue
      × (M.clock w ≤ M.clock w')
  SocketOutcome round self w (returned (err e) s) r =
      r ≡ done (returned (err e) (record self { inner_socket = s }, w))

module _ {R : Rates} (V : World R) (L : IsLawful V) (M : IsMonotone V) (profile : Profile)
    (B : BinaryHeap (ItemContainer Packet)) (I : ServerSocket) where
  on_socket-SocketOutcome :
      (round : Round I) (self : LinkConditioner R B I) (w : V.W) (r : Poll I.Call I.State)
      → IsValid R self.config
      → SocketOutcome V M profile B I round self w r (on_socket V profile B I round (self, w) r)
  unfolding on_socket process_packet
  on_socket-SocketOutcome round self w (pending call s) v = refl
  on_socket-SocketOutcome round self w (returned (err e) s) v = refl
  on_socket-SocketOutcome round self w (returned (ok p) s) v =
      let (q, w', e, le, a) =
        process_packet-Adds V L M profile B self.config self.time_queue p w v in
      (record self { inner_socket = s; time_queue = q }, w', rw e refl, refl, refl, a, le)

  -- Over a lawful random source, a clock that does not go back and a valid configuration, when the
  -- inner call is woken and gives `r`: if it waits on, so does the round; if it returns a packet,
  -- this is dropped or queued for a moment no earlier than the least latency from the call, and a
  -- new round starts; if it fails, its error is returned, and the queue stays.
  pub poll-SocketOutcome :
      (x : I.Wake) (round : Round I) (self : LinkConditioner R B I) (w : V.W)
      (r : Poll I.Call I.State)
      → I.poll x round.socket_next self.inner_socket ≡ done r
      → IsValid R self.config
      → SocketOutcome V M profile B I round self w r
          (poll V profile B I (socket_ready x) round (self, w))
  unfolding poll
  poll-SocketOutcome x round self w r e v = rw e (on_socket-SocketOutcome round self w r v)
