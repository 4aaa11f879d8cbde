-- ===== src/Tests/Servers.antt =====
-- The server sockets and the session on concrete inputs.
use naia_socket.Base.{
  List, Perm, ℕ, suc, ◌≡◌, refl, true, some, [], ◌∷◌, ◌++◌, map, done, arith, if◌then◌else◌, ◌==◌,
}
use naia_socket.Shared.Config.{good_condition-IsValid}
use naia_socket.Shared.World.{debug}
use naia_socket.Shared.TimeQueue.{TimeQueue, ItemContainer, add_item}
use naia_socket.Shared.TimeQueue
use naia_socket.Server.{Packet, Received, ok, err, Poll, pending, returned}
use naia_socket.Server
use naia_socket.Server.Webrtc.{
  RtcServer, WebrtcSocket, message, io_error, Call, selecting, sending, from_client, to_client,
  sends, webrtc_socket,
}
use naia_socket.Server.Webrtc
use naia_socket.Server.Webrtc.Laws.{Outcome, receive-Outcome}
use naia_socket.Server.Udp.{Udp, UdpSocket}
use naia_socket.Server.Udp
use naia_socket.Server.Udp.Laws.{as_rtc, view, Same, udp_receive-Same}
use naia_socket.Server.Conditioner.{LinkConditioner, Round, socket_ready, timer_ready, start, poll}
use naia_socket.Server.Conditioner
use naia_socket.Server.Conditioner.Calls.{arrived}
use naia_socket.Server.Conditioner.Stands.{CallOutcome}
use naia_socket.Server.Conditioner.Current.{receive-CallOutcome}
use naia_socket.Server.Conditioner.Laws.{TimerOutcome, poll-TimerOutcome}
use naia_socket.Server.Conditioner.Socket.{SocketOutcome, poll-SocketOutcome}
use naia_socket.Server.Conditioner.Cancel.{outgoing_of, GivesUp, timer_drops_send}
use naia_socket.Server.Session.{
  line, waiting, Lines, starts_with, post_new_rtc_session, response_bad, items, new, Http, answer,
  serve,
}
use naia_socket.Server.Session.Laws.{body, nonempty, items-body, serve_lem}
use naia_socket.Server.Session.Listen.{
  connection, accept_error, Event, accepts, finishes, run, start_session_server,
}
use naia_socket.Server.Session.Listen.Laws.{accepted, answered, served-perm}
use naia_socket.Server.Session.Header.{Response, Writer}
use naia_socket.Tests.Fixtures.{
  rates, calm, calm-IsLawful, calm-IsMonotone, heap, heap-IsLawful, good,
}

abbrev ping : Packet
ping = Server.new 7 (1 ∷ 2 ∷ [])

-- A server that gives the same message again, and sends to the client 7 alone.
abbrev rtc : RtcServer
rtc = record {
  Net = ℕ;
  recv = λ n. (message 7 (9 ∷ []), suc n);
  send = λ bytes a n. (a == 7, suc n);
}

abbrev socket : WebrtcSocket rtc
socket = record {
  rtc_server = 0;
  to_client = record { queue = ping ∷ Server.new 8 [] ∷ ping ∷ []; receiver_alive = true };
}

receive-Outcome_example :
    Outcome rtc selecting socket
      (Webrtc.receive rtc (to_client ∷ sends ∷ to_client ∷ sends ∷ []) selecting socket)
receive-Outcome_example =
    receive-Outcome rtc (to_client ∷ sends ∷ to_client ∷ sends ∷ []) selecting socket

abbrev udp : Udp
udp = record {
  Net = ℕ;
  recv_from = λ n. (message 7 (9 ∷ 8 ∷ 7 ∷ []), suc n);
  send_to = λ bytes a n. (a == 7, suc n);
}

abbrev udp_socket : UdpSocket udp
udp_socket = record {
  socket = 0;
  to_client = record { queue = ping ∷ []; receiver_alive = true };
  receive_buffer = 0 ∷ 0 ∷ [];
}

udp_receive-Same_example :
    Same udp 2 (Udp.receive udp (to_client ∷ sends ∷ from_client ∷ []) selecting udp_socket) (
      Webrtc.receive
        (as_rtc udp 2)
        (to_client ∷ sends ∷ from_client ∷ [])
        selecting
        (view udp 2 udp_socket))
udp_receive-Same_example =
    udp_receive-Same udp 2 (to_client ∷ sends ∷ from_client ∷ []) selecting udp_socket refl

-- A conditioner over that server with a packet that is due at 20.
abbrev conditioner : LinkConditioner rates heap (webrtc_socket rtc)
conditioner = record {
  config = good;
  inner_socket = socket;
  time_queue = add_item heap (TimeQueue.new heap) 20 ping;
}

poll-TimerOutcome_example :
    TimerOutcome calm debug heap
      (webrtc_socket rtc)
      (start rates heap (webrtc_socket rtc) conditioner)
      conditioner
      30
      (poll calm debug heap
        (webrtc_socket rtc)
        timer_ready
        (start rates heap (webrtc_socket rtc) conditioner)
        (conditioner, 30))
unfolding start
poll-TimerOutcome_example =
    poll-TimerOutcome calm calm-IsMonotone debug heap heap-IsLawful (webrtc_socket rtc)
      (start rates heap (webrtc_socket rtc) conditioner) conditioner 30 refl

-- The conditioner's call takes a message from the inner socket, and then its timer fires.
receive-CallOutcome_example :
    CallOutcome calm calm-IsMonotone debug heap
      (webrtc_socket rtc)
      (arrived calm calm-IsMonotone debug heap
        (webrtc_socket rtc)
        (socket_ready from_client ∷ timer_ready ∷ [])
        (start rates heap (webrtc_socket rtc) conditioner)
        (conditioner, 30))
      conditioner
      (calm-IsMonotone.clock 30)
      (Conditioner.receive calm debug heap
        (webrtc_socket rtc)
        (socket_ready from_client ∷ timer_ready ∷ [])
        (start rates heap (webrtc_socket rtc) conditioner)
        (conditioner, 30))
receive-CallOutcome_example =
    receive-CallOutcome calm calm-IsLawful calm-IsMonotone debug heap heap-IsLawful
      (webrtc_socket rtc) (λ x call s. (Webrtc.poll rtc x call s, refl))
      (socket_ready from_client ∷ timer_ready ∷ []) conditioner 30 (good_condition-IsValid rates)

abbrev round : Round (webrtc_socket rtc)
round = record { socket_next = selecting; queue_duration = some 20 }

poll-SocketOutcome_example :
    SocketOutcome calm calm-IsMonotone debug heap
      (webrtc_socket rtc)
      round
      conditioner
      30
      (Webrtc.poll rtc from_client selecting socket)
      (poll calm debug heap (webrtc_socket rtc) (socket_ready from_client) round (conditioner, 30))
poll-SocketOutcome_example =
    poll-SocketOutcome calm calm-IsLawful calm-IsMonotone debug heap (webrtc_socket rtc) from_client
      round conditioner 30 (Webrtc.poll rtc from_client selecting socket) refl
      (good_condition-IsValid rates)

timer_drops_send_example :
    (outgoing_of calm debug heap rtc
        (record { socket_next = sending ping; queue_duration = some 20 })
        conditioner
      ≡ ping ∷ socket.to_client.queue)
    × GivesUp calm debug heap rtc conditioner (
        poll calm debug heap
          (webrtc_socket rtc)
          timer_ready
          (record { socket_next = sending ping; queue_duration = some 20 })
          (conditioner, 30))
timer_drops_send_example = timer_drops_send calm debug heap rtc ping (some 20) conditioner 30 refl

abbrev response : Response
response = record {
  status = b'2' ∷ b'0' ∷ b'0' ∷ [];
  canonical_reason = some (b'O' ∷ b'K' ∷ []);
  headers = [];
  body = b'x' ∷ [];
}

abbrev http : Http
http = record { http_session_request = λ is. some response; insert = λ n v hs. (n, v) ∷ hs }

abbrev rest : Lines
rest = line (b'a' ∷ []) ∷ waiting ∷ line (b'b' ∷ []) ∷ []

serve_lem_example :
    serve http 7
      (line post_new_rtc_session ∷ (map nonempty ((b'H' ∷ [], b'h') ∷ []) ++ line [] ∷ rest))
    ≡ done (
        if starts_with post_new_rtc_session post_new_rtc_session
        then answer http (body rest)
        else response_bad)
serve_lem_example =
    serve_lem http post_new_rtc_session ((b'H' ∷ [], b'h') ∷ []) rest 7 (omega arith)

items-body_example : items 7 (new rest) ≡ done (body rest)
items-body_example = items-body 7 rest (omega arith)

abbrev empty_writer : Writer
empty_writer = record { io = []; len = 0 }

-- Two connections, of which the second is answered first, and one behind a failed accept.
abbrev session_events : List (Event http)
session_events =
    accepts (connection rest)
    ∷ accepts (connection [])
    ∷ finishes 1
    ∷ accepts accept_error
    ∷ accepts (connection [])
    ∷ finishes 0
    ∷ []

served-perm_example : Perm (map (answered http) (accepted http true session_events)) (
    map (answered http) (run http session_events (start_session_server (λ a. true) 80)).serving
    ++ (run http session_events (start_session_server (λ a. true) 80)).served)
served-perm_example = served-perm http (λ a. true) 80 session_events
