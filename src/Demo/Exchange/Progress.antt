-- ===== src/Demo/Exchange/Progress.antt =====
-- The exchange of the demo gets through all its ten pongs once the server stays up.
use naia_socket.Base.{
  ℕ, zero, suc, ◌+◌, ◌-◌, ◌*◌, ◌^◌, ◌<◌, ◌≤◌, ◌≡◌, refl, sym, ap, ◌∙◌, ◌⊎◌, inl, inr, ◌↔◌, Bool,
  true, false, Bool-cases, some, List, [], ◌∷◌, ◌++◌, Exec, done, ◌>>=◌, replicate, if◌then◌else◌,
  arith, subst,
}
use naia_socket.Shared.World.{Profile}
use naia_socket.Client.{Packet}
use naia_socket.Demo.App.{App, eq, pong_msg}
use naia_socket.Demo.App
use naia_socket.Demo.App.Backoff.{IsPower, double}
use naia_socket.Demo.App.Packets.{pipe, ping, app}
use naia_socket.Demo.App.Update.{Due}
use naia_socket.Demo.Exchange.{run}
use naia_socket.Demo.Exchange.Turns.{awaiting, playing, turn-awaiting, turn-playing, turn_last}

-- A power of two is close above each number.
power_above : (n : ℕ) → (k : ℕ) × (suc n ≤ 2 ^ k) × (2 ^ k < 2 * suc n)
power_above zero = (0, omega arith, omega arith)
power_above (suc n) =
    let (k, low, high) = power_above n in
    elim (Bool-cases (naia_socket.Base.leb (suc (suc n)) (2 ^ k))) [
      | inl e ↦ (k, ground arith, omega arith)
      | inr e ↦
          let same : 2 ^ k ≡ suc n = ground arith in
          (suc k, omega (arith, double k), omega (arith, double k))
    ]

module _ (p : Profile) (address : ℕ) where
  -- The client has had ten pongs.
  abbrev pub IsThrough : Exec (App pipe) → Type 0
  IsThrough r = (outbox : List Packet) × (round : ℕ) × (r ≡ done (app [] outbox true round 10))

  stays :
      (n : ℕ) (outbox : List Packet) (round : ℕ)
      → suc round < 2 ^ 31
      → (outbox ≡ []) ⊎ (outbox ≡ ping ∷ [])
      → IsThrough (run p address (replicate n true) (app [] outbox true round 10))
  unfolding run
  stays zero outbox round r o = (outbox, round, refl)
  stays (suc n) outbox round r o =
      rw (turn_last p address outbox round r o) (stays n [] round r (inl refl))

  plays :
      (n round count : ℕ)
      → suc round < 2 ^ 31
      → count ≤ 10
      → 10 ≤ n + count
      → IsThrough (run p address (replicate n true) (playing round count))
  unfolding run
  plays zero round count r c h =
      let ten : count ≡ 10 = omega arith in rw ten (ping ∷ [], round, refl)
  plays (suc n) round count r c h = elim (Bool-cases (naia_socket.Base.ltb count 10)) [
    | inl few ↦
        rw (turn-playing p address true round count (ground arith) r)
          (plays n round (suc count) r (ground arith) (omega arith))
    | inr many ↦
        let ten : count ≡ 10 = ground arith in rw ten (stays (suc n) (ping ∷ []) round r (inr refl))
  ]

  -- What has been decided of the ping on its way where the client waits in a round.
  abbrev Sent : ℕ → Bool → Type 0
  Sent round f = Due (round - 1) f

  -- A client that waits gets through `d` rounds before one whose ping is on its way.
  waits :
      (d n round : ℕ) (f : Bool)
      → Sent round f
      → Sent (round + d) true
      → suc (round + d) < 2 ^ 31
      → d + 10 ≤ n
      → IsThrough (run p address (replicate n true) (awaiting f round))
  unfolding run
  waits d zero round f s t r h = absurd (omega arith)
  waits d (suc n) round true s t r h =
      rw (turn-playing p address false round 0 (omega arith) (omega arith))
        (plays n round 1 (omega arith) (omega arith) (omega arith))
  waits zero (suc n) round false s t r h =
      let same : round + 0 ≡ round = omega arith in
      let sent : false ≡ true = s.1 (subst (λ m. (m - 1 ≡ 0) ⊎ IsPower (m - 1)) same (t.0 refl)) in
      cc
  waits (suc d) (suc n) round false s t r h =
      let (b, due, e) = turn-awaiting p address true false round (omega arith) (inr refl) in
      let same : round + suc d ≡ suc round + d = omega arith in
      let due' : Sent (suc round) b = subst (λ m. Due m b) (omega arith) due in
      rw e
        (waits d n (suc round) b due' (subst (λ m. Sent m true) same t) (omega arith) (omega arith))

  -- The server is down for `m` turns.
  down :
      (m round : ℕ) (f : Bool) (ups : List Bool)
      → suc (round + m) < 2 ^ 31
      → Sent round f
      → (b : Bool) × Sent (round + m) b
        × (run p address (replicate m false ++ ups) (awaiting f round)
            ≡ run p address ups (awaiting b (round + m)))
  unfolding run
  down zero round f ups r s =
      let same : round ≡ round + 0 = omega arith in
      (f, subst (λ m. Sent m f) same s, ap (λ m. run p address ups (awaiting f m)) same)
  down (suc m) round f ups r s =
      let (b, due, e) = turn-awaiting p address false f round (omega arith) (inl refl) in
      let due' : Sent (suc round) b = subst (λ k. Due k b) (omega arith) due in
      let (b', s', e') = down m (suc round) b ups (omega arith) due' in
      let same : suc round + m ≡ round + suc m = omega arith in
      (
        b',
        subst (λ k. Sent k b') same s',
        rw e (e' ∙ ap (λ k. run p address ups (awaiting b' k)) same),
      )

  -- The next round that has a ping on its way is close.
  next-Sent : (m : ℕ) → (d : ℕ) × Sent (m + d) true × (d ≤ m)
  next-Sent zero = (0, ((λ e. inl refl), (λ o. refl)), omega arith)
  next-Sent (suc zero) = (0, ((λ e. inl refl), (λ o. refl)), omega arith)
  next-Sent (suc (suc m)) =
      let (k, low, high) = power_above m in
      let at_power : suc (suc m) + (2 ^ k - suc m) - 1 ≡ 2 ^ k = omega (arith, low) in
      (2 ^ k - suc m, ((λ e. inr (k, at_power)), (λ o. refl)), omega (arith, high))

  -- Where the server of the demo is down for `m` turns, with `m` below 2 ^ 29, and then up for at
  -- least `m + 10`, and the network keeps what is sent while it is up, the client of the demo,
  -- from `App::new` on, gets through its ten pongs without a panic.
  pub new-IsThrough :
      (m n : ℕ)
      → m < 2 ^ 29
      → m + 10 ≤ n
      → IsThrough (
          App.new pipe (record { inbox = []; outbox = [] })
          >>= run p address (replicate m false ++ replicate n true))
  unfolding App.new App.send_ping
  new-IsThrough m n small h =
      let (b, s, e) =
        down m 0 true (replicate n true) (omega arith) ((λ e. inl refl), (λ o. refl)) in
      let (d, t, close) = next-Sent m in
      let same : m ≡ 0 + m = omega arith in
      rw e
        (waits d n (0 + m) b s (subst (λ k. Sent (k + d) true) same t) (omega arith) (omega arith))
