-- ===== src/Demo/App/Returns.antt =====
-- When `update` of app.rs returns, over any connection whose `receive` comes to an end.
use naia_socket.Base.{
  ℕ, zero, suc, ◌+◌, ◌^◌, ◌≤◌, ◌<◌, ◌≡◌, refl, ◌⊎◌, inl, inr, Bool, true, false, Bool-cases, ◌&&◌,
  none, some, Exec, done, ◌>>=◌, ltb, if◌then◌else◌, arith,
}
use naia_socket.Shared.World.{Profile}
use naia_socket.Client.{Packet, Received, ok, err}
use naia_socket.Client
use naia_socket.Demo.App.{
  Connection, App, eq, ping_msg, pong_msg, send_ping, incr_u8, on_pong, on_packet, back_off,
  on_none, update,
}
use naia_socket.Demo.App.Backoff.{backoff_enabled_iff}
use naia_socket.Demo.App.Update.{incr_round}

-- A connection that ends: its sends succeed, and each answer but `Ok(None)` brings it nearer to its end.
pub record Ends (C : Connection) (Inv : C.State → Type 0) (left : C.State → ℕ) : Type 0 where
  pub receives :
      (s : C.State)
      → Inv s
      → (r : Received) × (s' : C.State) × (C.receive s ≡ done (r, s'))
        × Inv s'
        × (left s' ≤ left s)
        × ((r ≡ ok none) ⊎ (left s' < left s))
  pub sends :
      (p : Packet) (s : C.State)
      → Inv s
      → (s' : C.State) × (C.send p s ≡ (true, s')) × Inv s' × (left s' ≤ left s)

module _ (C : Connection) (Inv : C.State → Type 0) (left : C.State → ℕ) (E : Ends C Inv left)
    (p : Profile) where
  send_ping_lem :
      (s : C.State)
      → Inv s
      → (s' : C.State) × (send_ping C s ≡ done s') × Inv s' × (left s' ≤ left s)
  unfolding send_ping
  send_ping_lem s i =
      let (s', e, i', le) = E.sends (Client.new ping_msg) s i in (s', rw e refl, i', le)

  -- A branch of `update` returns: at most ten pongs are counted, and the rounds so far are `round`.
  abbrev pub Branch : ℕ → App C → Exec (App C) → Type 0
  Branch round self m =
      (self' : App C) × (m ≡ done self')
      × Inv self'.client_socket
      × (left self'.client_socket ≤ left self.client_socket)
      × (self'.message_count ≤ 10)
      × (self'.backoff_round ≤ round)

  on_pong-Branch :
      (self : App C)
      → Inv self.client_socket
      → self.message_count < 10
      → Branch self.backoff_round self (on_pong C p self)
  unfolding on_pong incr_u8
  on_pong-Branch self i h =
      let (s', e, i', le) = send_ping_lem self.client_socket i in
      (
        record self {
          client_socket = s';
          got_one_response = true;
          message_count = self.message_count + 1;
        },
        ground (arith, e),
        i',
        le,
        omega (arith, h),
        omega arith,
      )

  on_packet-Branch :
      (packet : Packet) (self : App C)
      → Inv self.client_socket
      → self.message_count ≤ 10
      → Branch self.backoff_round self (on_packet C p packet self)
  unfolding on_packet
  on_packet-Branch packet self i h =
      elim (Bool-cases (eq (Client.payload packet) pong_msg && ltb self.message_count 10)) [
        | inl e ↦ rw e (on_pong-Branch self i (ground (arith, e)))
        | inr e ↦ rw e (self, refl, i, omega arith, h, omega arith)
      ]

  send_if :
      (b : Bool) (s : C.State)
      → Inv s
      → (s' : C.State) × ((if b then send_ping C s else done s) ≡ done s')
        × Inv s'
        × (left s' ≤ left s)
  send_if true s i = send_ping_lem s i
  send_if false s i = (s, refl, i, omega arith)

  back_off-Branch :
      (self : App C)
      → Inv self.client_socket
      → self.message_count ≤ 10
      → suc self.backoff_round < 2 ^ 31
      → Branch (suc self.backoff_round) self (back_off C p self)
  unfolding back_off
  back_off-Branch self i h r =
      let (b, e, _) = backoff_enabled_iff p self.backoff_round (omega (arith, r)) in
      let (s', f, i', le) = send_if b self.client_socket i in
      (
        record self { client_socket = s'; backoff_round = suc self.backoff_round },
        rw (e, f, incr_round p self.backoff_round r) refl,
        i',
        le,
        h,
        omega arith,
      )

  -- What `on_none` does by whether a pong has come.
  waits-Branch :
      (got : Bool) (self : App C)
      → Inv self.client_socket
      → self.message_count ≤ 10
      → suc self.backoff_round < 2 ^ 31
      → Branch (suc self.backoff_round) self (if got then done self else back_off C p self)
  waits-Branch true self i h r = (self, refl, i, omega arith, h, omega arith)
  waits-Branch false self i h r = back_off-Branch self i h r

  on_none-Branch :
      (self : App C)
      → Inv self.client_socket
      → self.message_count ≤ 10
      → suc self.backoff_round < 2 ^ 31
      → Branch (suc self.backoff_round) self (on_none C p self)
  unfolding on_none
  on_none-Branch self i h r = waits-Branch self.got_one_response self i h r

  abbrev Returns : ℕ → Type 0
  Returns fuel =
      (self : App C)
      → Inv self.client_socket
      → self.message_count ≤ 10
      → suc self.backoff_round < 2 ^ 31
      → left self.client_socket < fuel
      → Branch (suc self.backoff_round) self (update C p fuel self)

  -- The rest of a round, behind `receive`.
  round-Branch :
      (fuel : ℕ) (self : App C) (r : Received) (s' : C.State)
      → Returns fuel
      → Inv s'
      → self.message_count ≤ 10
      → suc self.backoff_round < 2 ^ 31
      → left self.client_socket < suc fuel
      → ((r ≡ ok none) ⊎ (left s' < left self.client_socket))
      → left s' ≤ left self.client_socket
      → Branch (suc self.backoff_round) self (elim r [
        | ok (some packet) ↦
            on_packet C p packet (record self { client_socket = s' }) >>= update C p fuel
        | ok none ↦ on_none C p (record self { client_socket = s' })
        | err e ↦ update C p fuel (record self { client_socket = s' })
      ])
  round-Branch fuel self (ok none) s' ih i h r f o le =
      let (self', e, i', le', c, b) = on_none-Branch (record self { client_socket = s' }) i h r in
      (self', e, i', omega (arith, le, le'), c, b)
  round-Branch fuel self (ok (some packet)) s' ih i h r f (inl e) le = cc
  round-Branch fuel self (ok (some packet)) s' ih i h r f (inr lt) le =
      let (self', e, i', le', c, b) =
        on_packet-Branch packet (record self { client_socket = s' }) i h in
      let (self'', e', i'', le'', c', b') =
        ih self' i' c (omega (arith, b, r)) (omega (arith, lt, le', f)) in
      (self'', rw e e', i'', omega (arith, lt, le', le''), c', omega (arith, b, b'))
  round-Branch fuel self (err e) s' ih i h r f (inl e') le = cc
  round-Branch fuel self (err e) s' ih i h r f (inr lt) le =
      let (self', e, i', le', c, b) =
        ih (record self { client_socket = s' }) i h r (omega (arith, lt, f)) in
      (self', e, i', omega (arith, lt, le'), c, b)

  pub update-Branch : (fuel : ℕ) → Returns fuel
  unfolding update
  update-Branch zero self i h r f = absurd (omega (arith, f))
  update-Branch (suc fuel) self i h r f =
      let (r', s', e, i', le, o) = E.receives self.client_socket i in
      rw e (round-Branch fuel self r' s' (update-Branch fuel) i' h r f o le)
