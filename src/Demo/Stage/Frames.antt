-- ===== src/Demo/Stage/Frames.antt =====
-- Many frames of demo/client/miniquad, with what the page's script brings between them.
use Prim.Native.String.{String}
use naia_socket.Base.{
  ℕ, suc, ◌+◌, ◌^◌, ◌≤◌, ◌<◌, ◌≡◌, refl, List, [], ◌∷◌, Exec, done, ◌>>=◌, arith,
}
use naia_socket.Shared.Config.{Rates, good_condition-IsValid}
use naia_socket.Shared.World.{World, IsLawful, IsMonotone, Profile}
use naia_socket.Shared.Heap.{BinaryHeap}
use naia_socket.Shared.Heap as H
use naia_socket.Shared.TimeQueue.{ItemContainer, cmp}
use naia_socket.Client.{Packet}
use naia_socket.Client.Conditioner
use naia_socket.Client.Miniquad.{Script, Statics, on_receive, on_error}
use naia_socket.Demo.App
use naia_socket.Demo.App.{App}
use naia_socket.Demo.Stage.{connection, connect, new_app, Stage, update}
use naia_socket.Demo.Stage.Laws.{Valid, left, frame-Ends}

module _ {R : Rates} (V : World R) where
  -- A frame; a message or an error that the script brings; time goes by.
  pub data Event : Type 0 where
    frame : Event
    brings : List ℕ → Event
    breaks : String → Event
    waits : V.W → Event

  abbrev pub frames : List Event → ℕ
  frames [] = 0
  frames (frame ∷ es) = suc (frames es)
  frames (brings bytes ∷ es) = frames es
  frames (breaks text ∷ es) = frames es
  frames (waits w ∷ es) = frames es

module _ {R : Rates} (V : World R) (M : IsMonotone V) (profile : Profile)
    (B : BinaryHeap (ItemContainer Packet)) (HL : H.IsLawful B cmp) (J : Script)
    (L : IsLawful V) where
  -- What the script does to the queues.
  abbrev pub touch : (Statics J → Statics J) → Stage V profile B J → Stage V profile B J
  touch f stage =
      let (self, w) = stage.app.client_socket in
      record {
        app = record (stage.app) {
          client_socket = (record self { inner_socket = f self.inner_socket }, w);
        };
      }

  -- The events, where a frame has fuel for what waits.
  unfoldable pub run : List (Event V) → Stage V profile B J → Exec (Stage V profile B J)
  run [] stage = done stage
  run (frame ∷ es) stage =
      update V profile B J (suc (left V M profile B HL J L stage.app.client_socket)) stage
      >>= run es
  run (brings bytes ∷ es) stage = run es (touch (on_receive J bytes) stage)
  run (breaks text ∷ es) stage = run es (touch (on_error J text) stage)
  run (waits w ∷ es) stage =
      run es
        (record { app = record (stage.app) { client_socket = (stage.app.client_socket.0, w) } })

  -- The run comes to an end, and how the client is then.
  abbrev pub Ends : ℕ → List (Event V) → Stage V profile B J → Type 0
  Ends round es stage =
      (stage' : Stage V profile B J) × (run es stage ≡ done stage')
      × Valid V M profile B HL J L stage'.app.client_socket
      × (stage'.app.message_count ≤ 10)
      × (stage'.app.backoff_round ≤ round)

  run-Ends :
      (es : List (Event V)) (stage : Stage V profile B J) (round n : ℕ)
      → Valid V M profile B HL J L stage.app.client_socket
      → stage.app.message_count ≤ 10
      → stage.app.backoff_round ≤ round
      → round + frames V es ≤ n
      → n < 2 ^ 31
      → Ends n es stage
  unfolding run
  run-Ends [] stage round n v c r h l = (stage, refl, v, c, omega (arith, r, h))
  run-Ends (frame ∷ es) stage round n v c r h l =
      let (app, e, v', _, c', r') =
        frame-Ends V M profile B HL J L (suc (left V M profile B HL J L stage.app.client_socket))
          stage v c (omega (arith, r, h, l)) (omega arith) in
      let (stage', f, v'', c'', r'') =
        run-Ends es (record { app = app }) (suc round) n v' c' (omega (arith, r', r))
          (omega (arith, h)) l in
      (stage', rw e f, v'', c'', r'')
  run-Ends (brings bytes ∷ es) stage round n v c r h l =
      run-Ends es (touch (on_receive J bytes) stage) round n v c r h l
  run-Ends (breaks text ∷ es) stage round n v c r h l =
      run-Ends es (touch (on_error J text) stage) round n v c r h l
  run-Ends (waits w ∷ es) stage round n v c r h l =
      run-Ends es
        (record { app = record (stage.app) { client_socket = (stage.app.client_socket.0, w) } })
        round n v c r h l

  -- Over a lawful random source, a clock that does not go back within a frame and a lawful heap,
  -- in either build, from any state of the script: `App::new` of the miniquad demo client returns,
  -- and so does every later run of fewer than 2 ^ 31 frames, whatever messages and errors the
  -- script brings and whatever time goes by between them, where each frame has fuel for one round
  -- of `update` more than what waits; behind the run the configuration of the conditioner is
  -- valid, at most ten pongs are counted, and at most as many rounds as there were frames.
  pub new_app-Ends :
      (address : ℕ) (s : Statics J) (w : V.W) (es : List (Event V))
      → frames V es < 2 ^ 31
      → (app : App (connection V profile B J)) × (new_app V profile B J address s w ≡ done app)
        × Ends (frames V es) es (record { app = app })
  unfolding new_app App.new App.send_ping connect Conditioner.new
  new_app-Ends address s w es h = (
    _,
    refl,
    run-Ends es _ 0 (frames V es) (good_condition-IsValid R) (omega arith) (omega arith)
        (omega arith) h,
  )
