-- ===== src/Demo/Host.antt =====
-- demo/server/src/main.rs: the server of the demo, whose socket is one of server/src behind a link conditioner. The
-- sender that it holds puts a packet into the channel of the inner socket, which is `send` here; each call
-- of `receive` is driven by a list of what becomes ready. The `await` on the result of `send`, which is no
-- future, is left out.
pub mod Laws
pub mod Webrtc
use naia_socket.Base.{ℕ, Option, none, some, List, [], ◌∷◌, ◌++◌, Exec, done, panicked, ◌>>=◌}
use naia_socket.Shared.Config.{Rates, good_condition}
use naia_socket.Shared.World.{World, Profile}
use naia_socket.Shared.Heap.{BinaryHeap}
use naia_socket.Shared.TimeQueue.{ItemContainer}
use naia_socket.Server
use naia_socket.Server.{Packet, ServerSocket, ok, err, Poll, pending, returned}
use naia_socket.Server.Conditioner
use naia_socket.Server.Conditioner.{LinkConditioner, Round, Wake, start, receive}
use naia_socket.Demo.Exchange.{reply}

-- `get_sender` of a server socket, as the call of `send` on what it gives.
pub record Sender (I : ServerSocket) : Type 0 where
  pub send : Packet → I.State → Option Packet × I.State

-- What is sent for a packet.
abbrev pub answer : Packet → List Packet
answer packet = elim (reply packet) [ none ↦ [] | some pong ↦ pong ∷ [] ]

module _ {R : Rates} (V : World R) (profile : Profile) (B : BinaryHeap (ItemContainer Packet))
    (I : ServerSocket) (S : Sender I) where
  -- `.with_link_conditioner(..)`, behind `listen`.
  unfoldable pub conditioned : I.State → LinkConditioner R B I
  conditioned socket = Conditioner.new R B I (good_condition R) socket

  abbrev pub Host : Type 0
  Host = LinkConditioner R B I × V.W

  -- The sender's packet was taken, or it is given back.
  abbrev pub expect : Option Packet × I.State → LinkConditioner R B I → Exec (LinkConditioner R B I)
  expect (none, inner) self = done (record self { inner_socket = inner })
  expect (some packet, inner) self = panicked

  -- `sender.send(..).expect("send error")`
  unfoldable pub send_all : List Packet → LinkConditioner R B I → Exec (LinkConditioner R B I)
  send_all [] self = done self
  send_all (packet ∷ packets) self =
      expect (S.send packet self.inner_socket) self >>= send_all packets

  -- The body of the loop, behind `receive`, and then the rest; where the events of a call end before it
  -- returns, so does the run.
  unfoldable pub on_received :
      (Host → Exec (List Packet × Host)) → Poll (Round I) Host → Exec (List Packet × Host)
  unfolding send_all
  on_received rest (pending round s) = done ([], s)
  on_received rest (returned (ok packet) (self, w)) = do
    self' ← send_all (answer packet) self
    (sent, s) ← rest (self', w)
    done (answer packet ++ sent, s)
  on_received rest (returned (err error) s) = rest s

  -- The loop of `main`: what is sent, and the socket then.
  unfoldable pub serve_loop : List (List (Wake I)) → Host → Exec (List Packet × Host)
  unfolding on_received
  serve_loop [] s = done ([], s)
  serve_loop (wakes ∷ calls) (self, w) =
      receive V profile B I wakes (start R B I self) (self, w) >>= on_received (serve_loop calls)
