-- ===== src/Tests/Histories.antt =====
-- Runs of the two link conditioners, and of the server of the demo over one, on concrete inputs.
use naia_socket.Base.{ℕ, suc, refl, true, none, some, List, [], ◌∷◌, done, arith, ◌==◌}
use naia_socket.Shared.Config.{good_condition-IsValid}
use naia_socket.Shared.World.{debug}
use naia_socket.Shared.TimeQueue.{ItemContainer, add_item}
use naia_socket.Shared.TimeQueue
use naia_socket.Client.{Received, ok, err, wrapped, ClientSocket}
use naia_socket.Client
use naia_socket.Client.Conditioner.Laws.{stops, fails, gives}
use naia_socket.Client.Conditioner as C
use naia_socket.Client.Conditioner.Calls.{Given, Runs, run-Runs, arrivals}
use naia_socket.Client.Conditioner.Calls as Calls
use naia_socket.Server
use naia_socket.Server.Webrtc.{
  RtcServer, WebrtcSocket, message, from_client, to_client, sends, webrtc_socket,
}
use naia_socket.Server.Webrtc
use naia_socket.Server.Conditioner.{LinkConditioner, Wake, socket_ready, timer_ready}
use naia_socket.Server.Conditioner.Calls.{Accounted}
use naia_socket.Server.Conditioner.Calls.Laws.{run-Accounted}
use naia_socket.Demo.App.{ping_msg}
use naia_socket.Tests.Fixtures.{
  rates, calm, calm-IsLawful, calm-IsMonotone, heap, heap-IsLawful, good,
}

-- A socket that answers from a list.
abbrev listed : ClientSocket
listed = record {
  State = List Received;
  Sender = ℕ;
  receive = λ s. elim s [ [] ↦ done (ok none, []) | r ∷ rs ↦ done (r, rs) ];
  get_sender = λ s. 0;
}

abbrev first : Client.Packet
first = Client.new (1 ∷ [])

abbrev busy : Calls.Turn calm listed
busy = record {
  fuel = 3;
  inner = ok (some first) ∷ ok (some first) ∷ err (wrapped 4) ∷ [];
  world = 100;
}

abbrev idle : Calls.Turn calm listed
idle = record { fuel = 1; inner = []; world = 100_000_000 }

abbrev busy_given : Given calm listed busy
busy_given = record {
  packets = first ∷ first ∷ [];
  stop = some (wrapped 4);
  end = [];
  gives =
      gives {t = ok (some first) ∷ err (wrapped 4) ∷ []} refl
        (gives {t = err (wrapped 4) ∷ []} refl (fails refl));
  enough = omega arith;
}

abbrev idle_given : Given calm listed idle
idle_given = record {
  packets = [];
  stop = none;
  end = [];
  gives = stops refl;
  enough = omega arith;
}

-- Two packets and an error, and then a call behind the moment at which the packets are due.
run-Runs_example :
    Runs calm calm-IsMonotone debug heap heap-IsLawful listed calm-IsLawful
      (busy ∷ idle ∷ [])
      (arrivals calm calm-IsMonotone listed (busy ∷ idle ∷ []) (busy_given, (idle_given, tt)))
      (C.new rates heap listed good [])
unfolding C.new
run-Runs_example =
    run-Runs calm calm-IsMonotone debug heap heap-IsLawful listed calm-IsLawful (busy ∷ idle ∷ [])
      (busy_given, (idle_given, tt)) (C.new rates heap listed good [])
      (good_condition-IsValid rates)

-- A server that gets the same ping again, and sends to the client 7 alone.
abbrev network : RtcServer
network = record {
  Net = ℕ;
  recv = λ n. (message 7 ping_msg, suc n);
  send = λ bytes a n. (a == 7, suc n);
}

abbrev host : LinkConditioner rates heap (webrtc_socket network)
host = record {
  config = good;
  inner_socket = record {
    rtc_server = 0;
    to_client = record { queue = []; receiver_alive = true };
  };
  time_queue = add_item heap (TimeQueue.new heap) 20 (Server.new 7 ping_msg);
}

abbrev ready : List (Wake (webrtc_socket network))
ready = socket_ready from_client ∷ timer_ready ∷ []

run-Accounted_example :
    Accounted calm calm-IsMonotone debug heap
      (webrtc_socket network)
      (record { inner = host.inner_socket; world = 30; wakes = ready } ∷ [])
      host
run-Accounted_example =
    run-Accounted calm calm-IsLawful calm-IsMonotone debug heap heap-IsLawful
      (webrtc_socket network) (λ x call s. (Webrtc.poll network x call s, refl))
      (record { inner = host.inner_socket; world = 30; wakes = ready } ∷ []) host
      (good_condition-IsValid rates)

-- A ping is answered, and another one comes in; then the pong is sent.
abbrev calls : List (List (Wake (webrtc_socket network)))
calls = ready ∷ (socket_ready to_client ∷ socket_ready sends ∷ []) ∷ []
