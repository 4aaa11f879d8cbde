-- ===== src/Demo/Exchange.antt =====
-- demo/server/src/main.rs answers each ping with a pong. Here the client of Demo/App talks to it over a
-- network that brings everything in order in a turn where the server is up, and drops what the
-- client has sent where it is down.
pub mod Turns
pub mod Progress
pub mod Stall
use naia_socket.Base.{
  ℕ, suc, Bool, true, false, Option, none, some, List, [], ◌∷◌, ◌++◌, Exec, done, ◌>>=◌, length,
  if◌then◌else◌,
}
use naia_socket.Shared.World.{Profile}
use naia_socket.Client.{Packet}
use naia_socket.Client
use naia_socket.Server
use naia_socket.Demo.App.{App, eq, ping_msg, pong_msg, update}
use naia_socket.Demo.App.Packets.{pipe}

-- The body of the server's loop for a packet: what it sends.
unfoldable pub reply : Server.Packet → Option Server.Packet
reply packet =
    if eq (Server.payload packet) ping_msg
    then some (Server.new (Server.address packet) pong_msg)
    else none

-- The server's replies to the packets of the client at an address, as they reach the client.
unfoldable pub replies : ℕ → List Packet → List Packet
unfolding reply
replies address [] = []
replies address (p ∷ ps) = elim (reply (Server.new address (Client.payload p))) [
  | none ↦ replies address ps
  | some packet ↦ Client.new (Server.payload packet) ∷ replies address ps
]

module _ (p : Profile) (address : ℕ) where
  -- What the client gets and then does in one turn.
  unfoldable pub deliver : List Packet → App pipe → Exec (App pipe)
  deliver arrived self =
      update pipe p (suc (length arrived))
        (record self { client_socket = record { inbox = arrived; outbox = [] } })

  unfoldable pub turn : Bool → App pipe → Exec (App pipe)
  unfolding deliver
  turn up self = deliver (if up then replies address self.client_socket.outbox else []) self

  unfoldable pub run : List Bool → App pipe → Exec (App pipe)
  run [] self = done self
  run (up ∷ ups) self = turn up self >>= run ups
