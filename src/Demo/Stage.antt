-- ===== src/Demo/Stage.antt =====
-- demo/client/miniquad/src: the demo client over the miniquad socket, in app.rs and main.rs. Its `App` is that of
-- Demo/App, of which app.rs is a copy but for the logger. The socket that it holds is the miniquad one behind
-- a link conditioner, and its sender is one more handle on the page's script. The loop of the conditioner
-- has fuel for the messages that wait: the script runs between two frames, and not during one.
pub mod Drains
pub mod Laws
pub mod Frames
use naia_socket.Base.{
  ◌+◌, ℕ, zero, suc, ◌+◌, true, Option, none, some, List, [], ◌∷◌, Exec, done, ◌>>=◌, length,
}
use naia_socket.Shared.Config.{Rates, good_condition}
use naia_socket.Shared.World.{World, Profile}
use naia_socket.Shared.Heap.{BinaryHeap}
use naia_socket.Shared.TimeQueue.{ItemContainer}
use naia_socket.Client.{Packet}
use naia_socket.Client.Conditioner
use naia_socket.Client.Conditioner.{LinkConditioner}
use naia_socket.Client.Miniquad
use naia_socket.Client.Miniquad.{Script, Statics, miniquad_socket}
use naia_socket.Client.Miniquad.Laws.{waiting}
use naia_socket.Demo.App
use naia_socket.Demo.App.{Connection, App}
use naia_socket.Demo.App.Conditioned.{Sending, conditioned}

module _ {R : Rates} (V : World R) (profile : Profile) (B : BinaryHeap (ItemContainer Packet))
    (J : Script) where
  -- The sender of the socket, and the messages and errors that wait in it.
  abbrev pub sending : Sending (miniquad_socket J)
  sending = record {
    send = Miniquad.send J;
    load = λ s. length (waiting s.message_queue) + length (waiting s.error_queue);
  }

  -- The `client_socket` and the `message_sender` of an `App`. `send` of the miniquad sender returns
  -- `Ok(())`.
  abbrev pub connection : Connection
  connection = conditioned V profile B (miniquad_socket J) sending

  -- `ClientSocket::connect(..).with_link_conditioner(..)` of `App::new`.
  unfoldable pub connect : ℕ → Statics J → LinkConditioner R B (miniquad_socket J)
  connect server_socket_address s =
      Conditioner.new R B (miniquad_socket J) (good_condition R)
        (Miniquad.connect J server_socket_address s)

  unfoldable pub new_app : ℕ → Statics J → V.W → Exec (App connection)
  unfolding connect
  new_app server_socket_address s w = App.new connection (connect server_socket_address s, w)

  -- `App::update`
  unfoldable pub update_app : ℕ → App connection → Exec (App connection)
  update_app fuel self = App.update connection profile fuel self

  -- `Stage`, less its drawing context.
  pub record Stage : Type 0 where
    pub app : App connection

  -- `EventHandlerFree::update`, once a frame.
  unfoldable pub update : ℕ → Stage → Exec Stage
  unfolding update_app
  update fuel self = do app ← update_app fuel self.app; done (record { app = app })
