-- ===== src/Tests/Clients.antt =====
-- The client sockets on concrete inputs.
use naia_socket.Base.{
  Perm, ℕ, zero, suc, ◌≡◌, refl, true, false, none, some, List, [], ◌∷◌, ◌++◌, map, done, panicked,
  arith, take,
}
use naia_socket.Shared.Config.{good_condition-IsValid}
use naia_socket.Shared.World.{debug}
use naia_socket.Shared.TimeQueue.{ItemContainer, add_item, has_item}
use naia_socket.Shared.TimeQueue
use naia_socket.Shared.TimeQueue.Laws.{NoneDue-of_not_ready}
use naia_socket.Client.{Packet, NaiaClientSocketError, wrapped, Received, ok, err, ClientSocket}
use naia_socket.Client
use naia_socket.Client.Conditioner.{LinkConditioner, receive, hand_out}
use naia_socket.Client.Conditioner
use naia_socket.Client.Conditioner.Laws.{stops, gives, Keeps}
use naia_socket.Client.Conditioner.Receive.{HandsOut, receive-HandsOut, hand_out_panics}
use naia_socket.Client.Native.{NativeSocket, connected, Udp, datagram, failed}
use naia_socket.Client.Native
use naia_socket.Client.Native.Laws.{receive_from_server}
use naia_socket.Client.Wasm.{DataChannel, Page}
use naia_socket.Client.Wasm.History.{
  Event, sends, arrives, receives, message, arrived, run, run_in_order,
}
use naia_socket.Client.Wasm.Sent.{handed_in, accepted, run-perm}
use naia_socket.Client.Miniquad.{Script, Statics}
use naia_socket.Tests.Fixtures.{
  rates, calm, calm-IsLawful, calm-IsMonotone, stormy, heap, heap-IsLawful, good,
}

-- A socket that answers from a list.
abbrev scripted : ClientSocket
scripted = record {
  State = List Received;
  Sender = ℕ;
  receive = λ s. elim s [ [] ↦ done (ok none, []) | r ∷ rs ↦ done (r, rs) ];
  get_sender = λ s. 0;
}

abbrev ping : Packet
ping = Client.new (1 ∷ 2 ∷ [])

abbrev pong : Packet
pong = Client.new (3 ∷ [])

abbrev conditioner : List Received → LinkConditioner rates heap scripted
conditioner rs = Conditioner.new rates heap scripted good rs

receive-HandsOut_example :
    (self' : LinkConditioner rates heap scripted) × (w' : calm.W) × (queued : List
      (ItemContainer Packet))
    × (lost : List Packet) × Keeps calm calm-IsMonotone heap scripted
        (conditioner (ok (some ping) ∷ ok (some pong) ∷ []))
        100
        (ping ∷ pong ∷ [])
        []
        self'
        w'
        queued
        lost
    × HandsOut calm calm-IsMonotone heap scripted self' w' (
        receive calm debug heap scripted 3
          (conditioner (ok (some ping) ∷ ok (some pong) ∷ []), 100))
unfolding Conditioner.new
receive-HandsOut_example =
    receive-HandsOut calm calm-IsMonotone debug heap heap-IsLawful scripted calm-IsLawful
      (gives {t = ok (some pong) ∷ []} refl (gives {t = []} refl (stops refl))) 3
      (conditioner (ok (some ping) ∷ ok (some pong) ∷ [])) 100 refl (omega arith)
      (good_condition-IsValid rates)

-- A packet that is due at 100, read at 100 and then at 99.
abbrev late : LinkConditioner rates heap scripted
late = record {
  config = good;
  inner_socket = [];
  time_queue = add_item heap (TimeQueue.new heap) 100 ping;
}

hand_out_panics_example : hand_out stormy debug heap scripted (none, late, 100) ≡ panicked
unfolding has_item add_item TimeQueue.new naia_socket.Shared.Heap.Selection.peek
    naia_socket.Shared.Heap.Selection.select
hand_out_panics_example =
    hand_out_panics stormy debug heap heap-IsLawful scripted late 100 refl
      (NoneDue-of_not_ready heap heap-IsLawful late.time_queue 99 refl)

-- A network that brings one datagram.
abbrev net : Udp
net = record {
  Net = ℕ;
  recv_from = λ n. (datagram (1 ∷ 2 ∷ []) 7, n);
  send_to = λ bytes a n. (none, n);
}

receive_from_server_example :
    (bytes : List ℕ) × ((net.recv_from 0).0 ≡ datagram bytes 7)
    × (Client.payload ping ≡ take 1472 bytes)
unfolding Native.receive Native.handle connected
receive_from_server_example = receive_from_server net 7 0 ping refl

-- A channel that refuses the first `n` packets.
abbrev channel : DataChannel
channel = record {
  Channel = ℕ;
  send_with_u8_array = λ n bytes. elim n [ zero ↦ (true, 0) | suc m ↦ (false, m) ];
}

abbrev page : Page channel
page = record {
  data_channel = 1;
  dropped_outgoing_messages = ping ∷ pong ∷ [];
  message_queue = message ping ∷ [];
}

abbrev events : List Event
events = receives ∷ sends ping ∷ arrives (some (5 ∷ [])) ∷ arrives none ∷ receives ∷ receives ∷ []

run_in_order_example :
    (left : List Packet) × ((run channel page events).0.message_queue ≡ map message left)
    × ((ping ∷ []) ++ arrived events ≡ (run channel page events).1 ++ left)
run_in_order_example = run_in_order channel events page (ping ∷ []) refl

run-perm_example :
    Perm
      ((ping ∷ pong ∷ []) ++ handed_in events)
      (accepted channel page events ++ (run channel page events).0.dropped_outgoing_messages)
run-perm_example = run-perm channel events page

abbrev script : Script
script = record {
  Page = ℕ;
  naia_connect = λ a n. n;
  naia_send = λ bytes n. n;
  naia_resend_dropped_messages = λ n. n;
}

abbrev statics : Statics script
statics = record { message_queue = some []; error_queue = some ("lost" ∷ []); page = 0 }
