-- ===== src/Tests/Pages.antt =====
-- The frames of the demo's miniquad client, the browser loop and the development server on concrete inputs.
use naia_socket.Base.{
  ℕ, suc, ◌≡◌, refl, inl, inr, true, false, none, some, List, [], ◌∷◌, done, ◌>>=◌, arith,
}
use naia_socket.Shared.World.{debug}
use naia_socket.Client.Miniquad.{Script, Statics}
use naia_socket.Demo.App.{App, pong_msg}
use naia_socket.Demo.App.Packets.{pipe, app, ping}
use naia_socket.Demo.Stage.{connection, new_app}
use naia_socket.Demo.Stage.Frames.{frame, brings, breaks, waits, Ends, new_app-Ends}
use naia_socket.Demo.Stage.Frames as Frames
use naia_socket.Demo.Loop.Browser.{browser-Ends}
use naia_socket.Demo.Loop.Browser as Browser
use naia_socket.Client.Wasm.{DataChannel}
use naia_socket.Demo.Loop.{Page, start_loop, start_loop_native, run}
use naia_socket.Demo.Loop.Laws.{page, loop_same}
use naia_socket.Demo.Reload.{
  Message, text, ping as ping_frame, pong, binary, ok, Event, interval, message, MyWebSocket,
}
use naia_socket.Demo.Reload as Reload
use naia_socket.Demo.Reload.Laws.{answers, last_heard, run-IsLively}
use naia_socket.Demo.Reload.Silent.{Stops, run-IsSilent}
use naia_socket.Tests.Fixtures.{calm, calm-IsLawful, calm-IsMonotone, heap, heap-IsLawful}

abbrev script : Script
script = record {
  Page = ℕ;
  naia_connect = λ a n. n;
  naia_send = λ bytes n. suc n;
  naia_resend_dropped_messages = λ n. n;
}

-- A pong and an error come in, and their time passes.
abbrev events : List (Frames.Event calm)
events = frame ∷ brings pong_msg ∷ breaks "lost" ∷ frame ∷ waits 200_000_000 ∷ frame ∷ []

abbrev fresh : Statics script
fresh = record { message_queue = none; error_queue = none; page = 0 }

new_app-Ends_example :
    (app : App (connection calm debug heap script)) × (new_app calm debug heap script 14191 fresh
        100
      ≡ done app)
    × Ends calm calm-IsMonotone debug heap heap-IsLawful script calm-IsLawful 3 events
        (record { app = app })
new_app-Ends_example =
    new_app-Ends calm calm-IsMonotone debug heap heap-IsLawful script calm-IsLawful 14191 fresh 100
      events (omega arith)

-- A channel that sends all.
abbrev wire : DataChannel
wire = record { Channel = ℕ; send_with_u8_array = λ n bytes. (true, suc n) }

abbrev browser_events : List (Browser.Event calm)
browser_events =
    Browser.fires
    ∷ Browser.arrives (some pong_msg)
    ∷ Browser.arrives none
    ∷ Browser.fires
    ∷ Browser.waits 200_000_000
    ∷ Browser.fires
    ∷ []

browser-Ends_example :
    (p : Page (Browser.connection calm debug heap wire (λ l. false))) × ((Browser.new_app calm debug
          heap wire
          (λ l. false)
          0
          100
        >>= start_loop (Browser.connection calm debug heap wire (λ l. false)) debug (λ l. false))
      ≡ done p)
    × Browser.Ends calm debug heap wire (λ l. false) 3 browser_events p
browser-Ends_example =
    browser-Ends calm calm-IsMonotone debug heap heap-IsLawful wire calm-IsLawful (λ l. false)
      (λ l. refl) 0 100 browser_events (omega arith)

loop_same_example :
    (start_loop pipe debug (λ l. false) (app (ping ∷ []) [] false 0 0)
      >>= run pipe debug (λ l. false) (2 ∷ 1 ∷ []))
    ≡ (start_loop_native pipe debug (2 ∷ 1 ∷ []) (app (ping ∷ []) [] false 0 0) >>= λ app'.
        done (page pipe debug (λ l. false) app'))
loop_same_example =
    loop_same pipe debug (λ l. false) (λ l. refl) (2 ∷ 1 ∷ []) (app (ping ∷ []) [] false 0 0)

-- A page that is heard in time.
abbrev lively : List (ℕ × Event)
lively =
    (500_000_000, interval)
    ∷ (600_000_000, message (ok (pong [])))
    ∷ (700_000_000, message (ok (text (1 ∷ []))))
    ∷ (5_500_000_000, interval)
    ∷ []

run-IsLively_example :
    Reload.run lively (record { hb = 7 })
    ≡ (answers lively, record { hb = last_heard 7 lively }, false)
run-IsLively_example = run-IsLively lively 7 (omega arith)

-- A page that is heard no more.
abbrev silent : List (ℕ × Event)
silent =
    (4_900_000_000, interval)
    ∷ (5_000_000_000, message (ok (binary [])))
    ∷ (5_400_000_000, interval)
    ∷ (5_900_000_000, interval)
    ∷ []

run-IsSilent_example : Stops 500_000_000 7 silent
run-IsSilent_example =
    run-IsSilent 500_000_000 7 4_400_000_000 silent (omega arith) (omega arith)
      (inr (inl (omega arith)))
