-- ===== src/Server/Conditioner/Inner.antt =====
-- What server/src/link_conditioner.rs leaves of its inner socket: a state that polls of the inner socket reach.
use naia_socket.Base.{
  inl, inr, Bool-cases, Option, none, some, List, [], ◌∷◌, Exec, done, panicked, out_of_fuel, ◌>>=◌,
}
use naia_socket.Shared.Config.{Rates}
use naia_socket.Shared.World.{World, Profile}
use naia_socket.Shared.Heap.{BinaryHeap}
use naia_socket.Shared.TimeQueue.{ItemContainer, TimeQueue, pop_item}
use naia_socket.Shared.Conditioner
use naia_socket.Server.{Packet, ok, err, Poll, pending, returned, ServerSocket}
use naia_socket.Server.Conditioner.{
  LinkConditioner, Round, Wake, socket_ready, timer_ready, has_fired, process_packet, continue,
  on_socket, after_pop, on_timer, poll, receive,
}

-- The state that a poll leaves, where it comes to an end.
abbrev pub Leaves : {F S : Type 0} → (S → Type 0) → Exec (Poll F S) → Type 0
Leaves P (done (pending call s)) = P s
Leaves P (done (returned r s)) = P s
Leaves P panicked = Unit
Leaves P out_of_fuel = Unit

module _ {R : Rates} (V : World R) (profile : Profile) (B : BinaryHeap (ItemContainer Packet))
    (I : ServerSocket) (P : I.State → Type 0) where
  abbrev pub Inner : LinkConditioner R B I × V.W → Type 0
  Inner (self, w) = P self.inner_socket

  queued-Leaves :
      (self : LinkConditioner R B I) (m : Exec (TimeQueue B × V.W))
      → P self.inner_socket
      → Leaves Inner (
          (m >>= λ (q, w). done (record self { time_queue = q }, w)) >>= λ (self', w).
          done (continue V profile B I (self', w)))
  queued-Leaves self (done (q, w)) h = h
  queued-Leaves self panicked h = tt
  queued-Leaves self out_of_fuel h = tt

  on_socket-Leaves :
      (round : Round I) (self : LinkConditioner R B I) (w : V.W) (m : Exec (Poll I.Call I.State))
      → Leaves P m
      → Leaves Inner (m >>= on_socket V profile B I round (self, w))
  unfolding on_socket process_packet
  on_socket-Leaves round self w (done (pending call s)) h = h
  on_socket-Leaves round self w (done (returned (ok p) s)) h =
      queued-Leaves (record self { inner_socket = s })
        (Conditioner.process_packet V profile B self.config self.time_queue p w) h
  on_socket-Leaves round self w (done (returned (err e) s)) h = h
  on_socket-Leaves round self w panicked h = tt
  on_socket-Leaves round self w out_of_fuel h = tt

  after_pop-Leaves :
      (self : LinkConditioner R B I) (w : V.W) (popped : Option Packet × TimeQueue B)
      → P self.inner_socket
      → Leaves Inner (done (after_pop V profile B I self w popped))
  unfolding after_pop
  after_pop-Leaves self w (some p, q) h = h
  after_pop-Leaves self w (none, q) h = h

  module _
      (polls : (x : I.Wake) (call : I.Call) (s : I.State) → P s → Leaves P (I.poll x call s)) where
    poll-Leaves :
        (x : Wake I) (round : Round I) (self : LinkConditioner R B I) (w : V.W)
        → P self.inner_socket
        → Leaves Inner (poll V profile B I x round (self, w))
    unfolding poll on_timer
    poll-Leaves (socket_ready x) round self w h =
        on_socket-Leaves round self w (I.poll x round.socket_next self.inner_socket)
          (polls x round.socket_next self.inner_socket h)
    poll-Leaves timer_ready round self w h =
        elim (Bool-cases (has_fired round.queue_duration (V.now w).0)) [
          | inl fired ↦ rw fired (
              after_pop-Leaves self (V.now (V.now w).1).1
                (pop_item B self.time_queue (V.now (V.now w).1).0) h)
          | inr early ↦ rw early h
        ]

    rest-Leaves :
        (xs : List (Wake I)) (m : Exec (Poll (Round I) (LinkConditioner R B I × V.W)))
        → Leaves Inner m
        → ((round : Round I) (self : LinkConditioner R B I) (w : V.W)
            → P self.inner_socket
            → Leaves Inner (receive V profile B I xs round (self, w)))
        → Leaves Inner (
            m >>= λ p. elim p [
              | pending round' s' ↦ receive V profile B I xs round' s'
              | returned r s' ↦ done (returned r s')
            ])
    rest-Leaves xs (done (pending round (self, w))) h ih = ih round self w h
    rest-Leaves xs (done (returned r s)) h ih = h
    rest-Leaves xs panicked h ih = tt
    rest-Leaves xs out_of_fuel h ih = tt

    pub receive-Leaves :
        (xs : List (Wake I)) (round : Round I) (self : LinkConditioner R B I) (w : V.W)
        → P self.inner_socket
        → Leaves Inner (receive V profile B I xs round (self, w))
    unfolding receive
    receive-Leaves [] round self w h = h
    receive-Leaves (x ∷ xs) round self w h =
        rest-Leaves xs (poll V profile B I x round (self, w)) (poll-Leaves x round self w h)
          (receive-Leaves xs)
