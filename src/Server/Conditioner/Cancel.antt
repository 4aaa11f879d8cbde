-- ===== src/Server/Conditioner/Cancel.antt =====
-- A packet for a client that is being sent when the timer of server/src/link_conditioner.rs fires.
use naia_socket.Base.{ℕ, ◌≡◌, ◌⊎◌, refl, inl, inr, true, Option, none, some, List, ◌∷◌, Exec, done}
use naia_socket.Shared.Config.{Rates}
use naia_socket.Shared.World.{World, Profile}
use naia_socket.Shared.Heap.{BinaryHeap}
use naia_socket.Shared.TimeQueue.{ItemContainer, TimeQueue, pop_item}
use naia_socket.Server.{Packet, ok, Poll, pending, returned}
use naia_socket.Server.Webrtc.{RtcServer, sending, webrtc_socket}
use naia_socket.Server.Webrtc.Laws.{outgoing}
use naia_socket.Server.Conditioner.{
  LinkConditioner, Round, timer_ready, start, poll, after_pop, has_fired,
}

module _ {R : Rates} (V : World R) (profile : Profile) (B : BinaryHeap (ItemContainer Packet))
    (N : RtcServer) where
  -- The packets that a conditioned WebRTC socket has yet to send.
  abbrev pub outgoing_of :
      Round (webrtc_socket N) → LinkConditioner R B (webrtc_socket N) → List Packet
  outgoing_of round self = outgoing N round.socket_next self.inner_socket

  -- The conditioner returned a packet or started a new round; the inner socket is as it was, and
  -- the next round has the packets of the channel to send, and no other.
  abbrev pub GivesUp :
      LinkConditioner R B (webrtc_socket N)
      → Exec (Poll (Round (webrtc_socket N)) (LinkConditioner R B (webrtc_socket N) × V.W))
      → Type 0
  GivesUp self r =
      (self' : LinkConditioner R B (webrtc_socket N)) × (w' : V.W) × ((r
          ≡ done (pending (start R B (webrtc_socket N) self') (self', w')))
        ⊎ ((item : Packet) × (r ≡ done (returned (ok item) (self', w')))))
      × (self'.inner_socket ≡ self.inner_socket)
      × (outgoing_of (start R B (webrtc_socket N) self') self' ≡ self.inner_socket.to_client.queue)

  after_pop-GivesUp :
      (self : LinkConditioner R B (webrtc_socket N)) (w : V.W)
      (popped : Option Packet × TimeQueue B)
      → GivesUp self (done (after_pop V profile B (webrtc_socket N) self w popped))
  unfolding after_pop start
  after_pop-GivesUp self w (some item, q) =
      (record self { time_queue = q }, w, inr (item, refl), refl, refl)
  after_pop-GivesUp self w (none, q) = (record self { time_queue = q }, w, inl refl, refl, refl)

  -- Where the inner call of a conditioned WebRTC socket waits for a packet `p` to be sent and the
  -- timer has fired, `p` was the first packet to send, and behind that wake-up the inner socket
  -- and its network are as they were, and a new call has the packets of the channel to send and
  -- not `p`.
  pub timer_drops_send :
      (p : Packet) (d : Option ℕ) (self : LinkConditioner R B (webrtc_socket N)) (w : V.W)
      → has_fired d (V.now w).0 ≡ true
      → (outgoing_of (record { socket_next = sending p; queue_duration = d }) self
          ≡ p ∷ self.inner_socket.to_client.queue)
        × GivesUp self (
            poll V profile B
              (webrtc_socket N)
              timer_ready
              (record { socket_next = sending p; queue_duration = d })
              (self, w))
  unfolding poll
  timer_drops_send p d self w fired = (
    refl,
    rw fired (
        after_pop-GivesUp self (V.now (V.now w).1).1
          (pop_item B self.time_queue (V.now (V.now w).1).0)),
  )
