-- ===== src/Demo/App.antt =====
-- demo/client/wasm_bindgen/src/app.rs (demo/client/miniquad/src/app.rs is the same but for the logger):
-- a client that sends a ping for each of its first ten pongs, and until the first one sends a ping
-- at every call of `update` whose number is a power of two. `i32` and `u8` are their bit patterns. The
-- payload is compared byte by byte: a lossy text is `pong` exactly where the bytes are.
pub mod Backoff
pub mod Packets
pub mod Update
pub mod Returns
pub mod Conditioned
use naia_socket.Base.{
  ℕ, zero, suc, ◌+◌, ◌-◌, ◌*◌, ◌/◌, ◌%◌, ◌^◌, Bool, true, false, ◌&&◌, not, none, some, List, [],
  ◌∷◌, Exec, done, panicked, out_of_fuel, ◌>>=◌, ◌==◌, ltb, if◌then◌else◌,
}
use naia_socket.Shared.World.{Profile, overflow}
use naia_socket.Client.{Packet, Received, ok, err}
use naia_socket.Client

-- A connected socket with its sender, over one state; `send` tells whether it succeeded.
pub record Connection : Type 1 where
  pub State : Type 0
  pub receive : State → Exec (Received × State)
  pub send : Packet → State → Bool × State

abbrev pub ping_msg : List ℕ
ping_msg = b'p' ∷ b'i' ∷ b'n' ∷ b'g' ∷ []

abbrev pub pong_msg : List ℕ
pong_msg = b'p' ∷ b'o' ∷ b'n' ∷ b'g' ∷ []

unfoldable pub eq : List ℕ → List ℕ → Bool
eq [] [] = true
eq [] (b ∷ ys) = false
eq (a ∷ xs) [] = false
eq (a ∷ xs) (b ∷ ys) = a == b && eq xs ys

abbrev pub i32_mod : ℕ
i32_mod = 2 ^ 32

-- `+ 1` and `- 1` on `i32`.
unfoldable pub incr_i32 : Profile → ℕ → Exec ℕ
incr_i32 p a = if a == 2 ^ 31 - 1 then overflow p (2 ^ 31) else done ((a + 1) % i32_mod)

unfoldable pub decr_i32 : Profile → ℕ → Exec ℕ
decr_i32 p a = if a == 2 ^ 31 then overflow p (2 ^ 31 - 1) else done ((a + (i32_mod - 1)) % i32_mod)

unfoldable pub incr_u8 : Profile → ℕ → Exec ℕ
incr_u8 p a = if a == 255 then overflow p 0 else done (a + 1)

-- `&` on the lowest bits.
unfoldable pub bit_and : ℕ → ℕ → ℕ → ℕ
bit_and zero a b = 0
bit_and (suc width) a b = a % 2 * (b % 2) + 2 * bit_and width (a / 2) (b / 2)

unfoldable pub backoff_enabled : Profile → ℕ → Exec Bool
unfolding decr_i32
backoff_enabled p round = do previous ← decr_i32 p round; done (bit_and 32 round previous == 0)

module _ (C : Connection) where
  pub record App : Type 0 where
    pub client_socket : C.State
    pub got_one_response : Bool
    pub backoff_round : ℕ
    pub message_count : ℕ

module _ (C : Connection) where
  -- `send(..).expect("send error")`
  unfoldable pub send_ping : C.State → Exec C.State
  send_ping s =
      let (sent, s') = C.send (Client.new ping_msg) s in if sent then done s' else panicked

  -- `App::new`, behind `connect`.
  unfoldable pub new : C.State → Exec (App C)
  unfolding send_ping
  new socket = do
    s ← send_ping socket
    done (record {
      client_socket = s;
      got_one_response = false;
      backoff_round = 0;
      message_count = 0;
    })

module _ (C : Connection) (p : Profile) where
  -- The branch of `update` for a packet: what it does for one of the first ten pongs, and else.
  unfoldable pub on_pong : App C → Exec (App C)
  unfolding incr_u8 send_ping
  on_pong self = do
    count ← incr_u8 p self.message_count
    s ← send_ping C self.client_socket
    done (record self { client_socket = s; got_one_response = true; message_count = count })

  unfoldable pub on_packet : Packet → App C → Exec (App C)
  unfolding on_pong
  on_packet packet self =
      if eq (Client.payload packet) pong_msg && ltb self.message_count 10
      then on_pong self
      else done self

  -- The branch for no packet: what it does before the first pong, and else.
  unfoldable pub back_off : App C → Exec (App C)
  unfolding backoff_enabled send_ping incr_i32
  back_off self = do
    enabled ← backoff_enabled p self.backoff_round
    s ← if enabled then send_ping C self.client_socket else done self.client_socket
    round ← incr_i32 p self.backoff_round
    done (record self { client_socket = s; backoff_round = round })

  unfoldable pub on_none : App C → Exec (App C)
  unfolding back_off
  on_none self = if self.got_one_response then done self else back_off self

  -- `App::update`; an error is logged, and the loop goes on.
  unfoldable pub update : ℕ → App C → Exec (App C)
  unfolding on_packet on_none
  update zero self = out_of_fuel
  update (suc fuel) self = do
    (r, s) ← C.receive self.client_socket
    elim r [
      | ok (some packet) ↦ on_packet packet (record self { client_socket = s }) >>= update fuel
      | ok none ↦ on_none (record self { client_socket = s })
      | err e ↦ update fuel (record self { client_socket = s })
    ]
