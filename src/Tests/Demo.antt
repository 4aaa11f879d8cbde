-- ===== src/Tests/Demo.antt =====
-- The client and the exchange of the demo on concrete inputs.
use naia_socket.Base.{ℕ, ◌≡◌, Bool, true, false, List, [], ◌∷◌, ◌++◌, done, ◌>>=◌, replicate, arith}
use naia_socket.Shared.World.{debug}
use naia_socket.Client.{Packet}
use naia_socket.Client
use naia_socket.Demo.App.{pong_msg, backoff_enabled, update}
use naia_socket.Demo.App
use naia_socket.Demo.App.Packets.{pipe, ping, app, answered, pongs}
use naia_socket.Demo.App.Update.{settled, Due, update-Settles}
use naia_socket.Demo.Exchange.{run}
use naia_socket.Demo.Exchange.Progress.{IsThrough, new-IsThrough}
use naia_socket.Demo.Exchange.Stall.{run_stalls}

abbrev round : ℕ
round = 24

abbrev arrived : List Packet
arrived = Client.new pong_msg ∷ ping ∷ Client.new pong_msg ∷ []

update-Settles_example :
    (b : Bool) × Due 4 b
    × (update pipe debug 4 (app arrived [] false 4 9)
        ≡ done (settled (answered 9 (pongs arrived)) b [] false 4 9))
update-Settles_example =
    update-Settles debug arrived [] false 4 9 4 (omega arith) (omega arith) (omega arith)

new-IsThrough_example : IsThrough debug 7 (
    App.new pipe (record { inbox = []; outbox = [] })
    >>= run debug 7 (replicate 5 false ++ replicate 16 true))
new-IsThrough_example = new-IsThrough debug 7 5 16 (omega arith) (omega arith)

run_stalls_example :
    run debug 7 (false ∷ true ∷ true ∷ []) (app [] (ping ∷ []) true 3 4) ≡ done (app [] [] true 3 4)
run_stalls_example =
    run_stalls debug 7 (true ∷ true ∷ []) (ping ∷ []) 3 4 (omega arith) (omega arith)
