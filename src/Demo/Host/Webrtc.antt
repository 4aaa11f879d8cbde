-- ===== src/Demo/Host/Webrtc.antt =====
-- demo/server/src/main.rs over the WebRTC socket of server/src/impls/webrtc/server_socket.rs.
use naia_socket.Base.{◌≡◌, true, Option}
use naia_socket.Shared.World.{World}
use naia_socket.Shared.Heap as H
use naia_socket.Server
use naia_socket.Server.{Packet, ServerSocket, Poll, pending, returned}
use naia_socket.Server.Webrtc.{RtcServer, WebrtcSocket, Wake, to_client, webrtc_socket}
use naia_socket.Server.Webrtc
use naia_socket.Server.Conditioner.{Wake as Ready}
use naia_socket.Demo.Host.{Sender}

module _ (N : RtcServer) where
  -- The clone of `to_client_sender` that `get_sender` gives.
  abbrev pub webrtc_sender : Sender (webrtc_socket N)
  webrtc_sender = record {
    send = λ packet s.
        let (refused, channel) = Server.send packet s.to_client in
        (refused, record s { to_client = channel });
  }

  -- The socket that holds the receiver is there.
  abbrev pub IsAlive : WebrtcSocket N → Type 0
  IsAlive s = s.to_client.receiver_alive ≡ true

  abbrev taken : WebrtcSocket N → Option Packet × Server.ToClient → Option Packet × WebrtcSocket N
  taken s (r, channel) = (r, record s { to_client = channel })
