-- ===== src/Demo/Stage/Laws.antt =====
-- That a frame of demo/client/miniquad ends.
use naia_socket.Base.{
  ℕ, suc, ◌+◌, ◌^◌, ◌≤◌, ◌<◌, ◌≡◌, refl, ap, inl, inr, Option, none, some, List, [], map, done,
  length, arith, length-map,
}
use naia_socket.Shared.Config.{Rates}
use naia_socket.Shared.World.{World, IsLawful, IsMonotone, Profile}
use naia_socket.Shared.Heap.{BinaryHeap}
use naia_socket.Shared.Heap as H
use naia_socket.Shared.TimeQueue.{ItemContainer, cmp}
use naia_socket.Client.{Packet, NaiaClientSocketError, message, Received, ok, err}
use naia_socket.Client
use naia_socket.Client.Conditioner.{LinkConditioner}
use naia_socket.Client.Miniquad
use naia_socket.Client.Miniquad.{Script, Statics, pop_message, pop_error, receive, miniquad_socket}
use naia_socket.Client.Miniquad.Laws.{waiting}
use naia_socket.Demo.App.{App}
use naia_socket.Demo.App.Returns.{update-Branch}
use naia_socket.Demo.App.Conditioned.{Drains, Lighter, conditioned-Ends}
use naia_socket.Demo.App.Conditioned as C
use naia_socket.Demo.Stage.{sending, connection, Stage, update}
use naia_socket.Demo.Stage.Drains.{Stopped, Drains_lem}

module _ {R : Rates} (V : World R) (profile : Profile) (B : BinaryHeap (ItemContainer Packet))
    (J : Script) where
  lighter :
      (s t : Statics J) (stop : Option NaiaClientSocketError)
      → waiting t.message_queue ≡ []
      → Stopped J s stop t
      → Lighter stop
          (length (map Client.new_raw (waiting s.message_queue)) + (sending V profile B J).load t)
          ((sending V profile B J).load s)
  lighter s t none e (inl (_, le)) = omega (
    arith,
    le,
    length-map Client.new_raw (waiting s.message_queue),
    ap (λ (l : List (List ℕ)). length l) e,
  )
  lighter s t none e (inr (x, f, lt)) = cc
  lighter s t (some x) e (inl (f, le)) = cc
  lighter s t (some x) e (inr (_, _, lt)) = omega (
    arith,
    lt,
    length-map Client.new_raw (waiting s.message_queue),
    ap (λ (l : List (List ℕ)). length l) e,
  )

  lighter_send :
      (p : Packet) (s : Statics J)
      → (sending V profile B J).load (Miniquad.send J p s) ≤ (sending V profile B J).load s
  unfolding Miniquad.send
  lighter_send p s = omega arith

  miniquad-Drains : Drains (miniquad_socket J) (sending V profile B J)
  miniquad-Drains = record {
    drains = λ s.
        let (stop, t, g, e, o) = Drains_lem J s.message_queue s.error_queue s.page in
        (map Client.new_raw (waiting s.message_queue), stop, t, g, lighter s t stop e o);
    sends = λ p s. lighter_send p s;
  }

module _ {R : Rates} (V : World R) (M : IsMonotone V) (profile : Profile)
    (B : BinaryHeap (ItemContainer Packet)) (HL : H.IsLawful B cmp) (J : Script)
    (L : IsLawful V) where
  -- What a frame can still take: the messages and the errors that wait, and the packets in the queue.
  abbrev pub left : LinkConditioner R B (miniquad_socket J) × V.W → ℕ
  left = C.left V profile B (miniquad_socket J) (sending V profile B J)

  abbrev pub Valid : LinkConditioner R B (miniquad_socket J) × V.W → Type 0
  Valid = C.Valid V profile B (miniquad_socket J) (sending V profile B J)

  -- Over a lawful random source, a clock that does not go back and a lawful heap, a frame of the
  -- miniquad demo client, which calls `update` over the conditioned miniquad socket, returns in
  -- either build, with any fuel above the messages, the errors and the queued packets that wait,
  -- where the configuration is valid, at most ten pongs were counted, and the round and the next
  -- one are below 2 ^ 31; behind it the configuration is valid, no more waits than before, at most
  -- ten pongs are counted, and at most one round more.
  pub frame-Ends :
      (fuel : ℕ) (stage : Stage V profile B J)
      → Valid stage.app.client_socket
      → stage.app.message_count ≤ 10
      → suc stage.app.backoff_round < 2 ^ 31
      → left stage.app.client_socket < fuel
      → (app : App (connection V profile B J)) × (update V profile B J fuel stage
          ≡ done (record { app = app }))
        × Valid app.client_socket
        × (left app.client_socket ≤ left stage.app.client_socket)
        × (app.message_count ≤ 10)
        × (app.backoff_round ≤ suc stage.app.backoff_round)
  unfolding update
  frame-Ends fuel stage v c r f =
      let (app, e, v', le, c', r') =
        update-Branch (connection V profile B J) Valid left
          (conditioned-Ends V M profile B HL (miniquad_socket J) (sending V profile B J)
            (miniquad-Drains V profile B J) L)
          profile fuel stage.app v c r f in
      (app, rw e refl, v', le, c', r')
