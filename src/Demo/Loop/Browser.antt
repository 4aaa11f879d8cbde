-- ===== src/Demo/Loop/Browser.antt =====
-- The client of demo/client/wasm_bindgen/src as the browser runs it: app.rs over the socket of
-- client/src/impls/wasm_bindgen behind a link conditioner, in the loop of loop_wasm.rs. Between two timeouts messages
-- arrive and time goes by.
use naia_socket.Base.{
  ℕ, suc, ◌+◌, ◌^◌, ◌≤◌, ◌<◌, ◌≡◌, refl, ◌∙◌, Bool, false, Option, List, [], ◌∷◌, Exec, done, ◌>>=◌,
  arith,
}
use naia_socket.Shared.Config.{Rates, good_condition, good_condition-IsValid}
use naia_socket.Shared.World.{World, IsLawful, IsMonotone, Profile}
use naia_socket.Shared.Heap.{BinaryHeap}
use naia_socket.Shared.Heap as H
use naia_socket.Shared.TimeQueue.{ItemContainer, cmp}
use naia_socket.Client.{Packet, NaiaClientSocketError, Received, ok, err}
use naia_socket.Client.Conditioner
use naia_socket.Client.Conditioner.{LinkConditioner}
use naia_socket.Client.Wasm.{DataChannel, wasm_socket, connected, on_message, resend}
use naia_socket.Client.Wasm
use naia_socket.Shared.TimeQueue
use naia_socket.Client
use naia_socket.Demo.App.{Connection, App, ping_msg, update}
use naia_socket.Demo.App
use naia_socket.Demo.App.Returns.{update-Branch}
use naia_socket.Demo.App.Conditioned.{Held, conditioned, left, Valid, conditioned-Ends}
use naia_socket.Demo.Loop.{Page, set_timeout, start_loop, turn}
use naia_socket.Demo.Loop.Laws.{page, turn_lem}
use naia_socket.Demo.Loop.Drains.{sending, wasm-Drains}

module _ {R : Rates} (V : World R) where
  -- A timeout ends; a message arrives, as bytes or as something else; time goes by.
  pub data Event : Type 0 where
    fires : Event
    arrives : Option (List ℕ) → Event
    waits : V.W → Event

  abbrev pub timeouts : List Event → ℕ
  timeouts [] = 0
  timeouts (fires ∷ es) = suc (timeouts es)
  timeouts (arrives body ∷ es) = timeouts es
  timeouts (waits w ∷ es) = timeouts es

module _ {R : Rates} (V : World R) (profile : Profile) (B : BinaryHeap (ItemContainer Packet))
    (D : DataChannel) (throws : List ℕ → Bool) where
  -- The `client_socket` and the `message_sender` of an `App`, and its start: `ClientSocket::connect`
  -- over a new channel, `.with_link_conditioner(..)`, and the first ping.
  abbrev pub connection : Connection
  connection = conditioned V profile B (wasm_socket D) (sending D)

  unfoldable pub new_app : D.Channel → V.W → Exec (App connection)
  new_app channel w =
      App.new connection
        (Conditioner.new R B (wasm_socket D) (good_condition R) (connected D channel), w)

  -- What happens to the socket and to the world between two timeouts.
  abbrev pub touch :
      (Held V profile B (wasm_socket D) (sending D) → Held V profile B (wasm_socket D) (sending D))
      → Page connection
      → Page connection
  touch f p = record p { rc = record (p.rc) { client_socket = f p.rc.client_socket } }

  abbrev pub hear :
      Option (List ℕ)
      → Held V profile B (wasm_socket D) (sending D)
      → Held V profile B (wasm_socket D) (sending D)
  hear body (self, w) = (record self { inner_socket = on_message D body self.inner_socket }, w)

  -- The events, where an `update` has fuel for what waits.
  unfoldable pub run : List (Event V) → Page connection → Exec (Page connection)
  run [] p = done p
  run (fires ∷ es) p =
      turn connection profile throws
        (suc (left V profile B (wasm_socket D) (sending D) p.rc.client_socket)) p
      >>= run es
  run (arrives body ∷ es) p = run es (touch (hear body) p)
  run (waits w ∷ es) p = run es (touch (λ (self, w'). (self, w)) p)

  -- The run comes to an end with one timeout set, and how the client is then.
  abbrev pub Ends : ℕ → List (Event V) → Page connection → Type 0
  Ends n es p =
      (app : App connection) × (run es p ≡ done (page connection profile throws app))
      × Valid V profile B (wasm_socket D) (sending D) app.client_socket
      × (app.message_count ≤ 10)
      × (app.backoff_round ≤ n)

module _ {R : Rates} (V : World R) (M : IsMonotone V) (profile : Profile)
    (B : BinaryHeap (ItemContainer Packet)) (HL : H.IsLawful B cmp) (D : DataChannel)
    (L : IsLawful V) (throws : List ℕ → Bool) (calm : (l : List ℕ) → throws l ≡ false) where
  fires_lem :
      (es : List (Event V)) (app : App (connection V profile B D throws))
      {app' : App (connection V profile B D throws)}
      → update
          (connection V profile B D throws)
          profile
          (suc (left V profile B (wasm_socket D) (sending D) app.client_socket))
          app
        ≡ done app'
      → run V profile B D throws
          (fires ∷ es)
          (page (connection V profile B D throws) profile throws app)
        ≡ run V profile B D throws es (page (connection V profile B D throws) profile throws app')
  unfolding run
  fires_lem es app e =
      rw
        (
          turn_lem (connection V profile B D throws) profile throws calm
              (suc (left V profile B (wasm_socket D) (sending D) app.client_socket)) app,
          e,
        )
        refl

  run-Ends :
      (es : List (Event V)) (app : App (connection V profile B D throws)) (round n : ℕ)
      → Valid V profile B (wasm_socket D) (sending D) app.client_socket
      → app.message_count ≤ 10
      → app.backoff_round ≤ round
      → round + timeouts V es ≤ n
      → n < 2 ^ 31
      → Ends V profile B D throws n es (page (connection V profile B D throws) profile throws app)
  unfolding run
  run-Ends [] app round n v c r h l = (app, refl, v, c, omega (arith, r, h))
  run-Ends (fires ∷ es) app round n v c r h l =
      let (app', e, v', _, c', r') =
        update-Branch (connection V profile B D throws)
          (Valid V profile B (wasm_socket D) (sending D))
          (left V profile B (wasm_socket D) (sending D))
          (conditioned-Ends V M profile B HL (wasm_socket D) (sending D) (wasm-Drains D) L) profile
          (suc (left V profile B (wasm_socket D) (sending D) app.client_socket)) app v c
          (omega (arith, r, h, l)) (omega arith) in
      let (app'', f, v'', c'', r'') =
        run-Ends es app' (suc round) n v' c' (omega (arith, r', r)) (omega (arith, h)) l in
      (app'', fires_lem es app e ∙ f, v'', c'', r'')
  run-Ends (arrives body ∷ es) app round n v c r h l =
      run-Ends es (record app { client_socket = hear V profile B D throws body app.client_socket })
        round n v c r h l
  run-Ends (waits w ∷ es) app round n v c r h l =
      run-Ends es (record app { client_socket = (app.client_socket.0, w) }) round n v c r h l

  -- The client behind its first ping.
  abbrev first : D.Channel → V.W → App (connection V profile B D throws)
  first channel w = record {
    client_socket = (
      record {
        config = good_condition R;
        inner_socket = Wasm.send D (Client.new ping_msg) (connected D channel);
        time_queue = TimeQueue.new B;
      },
      w,
    );
    got_one_response = false;
    backoff_round = 0;
    message_count = 0;
  }

  -- Over a lawful random source, a clock that does not go back within a call, a lawful heap and
  -- any data channel, where `set_timeout` does not fail, in either build: `App::new` of the demo
  -- client over the conditioned browser socket returns, so does `start_loop`, and so does every
  -- later run in which fewer than 2 ^ 31 timeouts end, whatever messages arrive and whatever time
  -- goes by between them, where each `update` has fuel for one round more than what waits; behind
  -- the run just one timeout is set, the configuration of the conditioner is valid, at most ten
  -- pongs are counted, and at most as many rounds as there were timeouts.
  pub browser-Ends :
      (channel : D.Channel) (w : V.W) (es : List (Event V))
      → timeouts V es < 2 ^ 31
      → (p : Page (connection V profile B D throws)) × ((new_app V profile B D throws channel w
            >>= start_loop (connection V profile B D throws) profile throws)
          ≡ done p)
        × Ends V profile B D throws (timeouts V es) es p
  unfolding new_app App.new App.send_ping Conditioner.new start_loop set_timeout
  browser-Ends channel w es h = (
    page (connection V profile B D throws) profile throws (first channel w),
    rw (calm []) refl,
    run-Ends es (first channel w) 0 (timeouts V es) (good_condition-IsValid R) (omega arith)
        (omega arith) (omega arith) h,
  )
