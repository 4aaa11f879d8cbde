-- ===== src/Shared/Native/Laws.antt =====
-- The native platform meets what the library asks of a platform, and its timer rings when it should.
use naia_socket.Base.{ℕ, ◌+◌, ◌-◌, ◌*◌, ◌≤◌, ◌<◌, ◌≡◌, ◌↔◌, ◌⊎◌, true, done, arith}
use naia_socket.Shared.Config.{Rates}
use naia_socket.Shared.World.{IsLawful}
use naia_socket.Shared.Native.{
  Host, IsRand, Timer, new, reset, ringing, ring_manual, gen_range_u32, native_world, add_millis,
  until, elapsed,
}

module _ {R : Rates} (H : Host R) (I : IsRand H) where
  gen_range_u32_drawn :
      (lower upper : ℕ) (s : H.State)
      → lower < upper
      → gen_range_u32 H lower upper s ≡ done (H.sample_u32 lower upper s)
  unfolding gen_range_u32
  gen_range_u32_drawn lower upper s h = ground arith

  -- Where rand keeps to half-open ranges, `gen_range_u32` of the native platform returns, without
  -- a panic, a value of every half-open range that is not empty and ends below 2 ^ 32.
  pub native_world-IsLawful : IsLawful (native_world H)
  native_world-IsLawful = record {
    gen_range_u32_bounds = λ lower upper s h u. (
      (H.sample_u32 lower upper s).0,
      (H.sample_u32 lower upper s).1,
      gen_range_u32_drawn lower upper s h,
      (I.sample_u32_bounds lower upper s h).0,
      (I.sample_u32_bounds lower upper s h).1,
    );
  }

-- A timer rings exactly when more than its duration has gone by since it was made or last reset.
pub ringing-reset :
    (t : Timer) (start now : ℕ)
    → ((ringing (reset t start) now ≡ true) ↔ (start + t.duration < now))
      × ((ringing (new start t.duration) now ≡ true) ↔ (start + t.duration < now))
unfolding ringing reset new
ringing-reset t start now = ground arith

-- Where the duration of a native timer does not exceed its last reset, `ring_manual` does not
-- panic, and the timer then rings exactly when the clock is past that reset.
pub ringing-ring_manual :
    (t : Timer) (now : ℕ)
    → t.duration ≤ t.last
    → (t' : Timer) × (ring_manual t ≡ done t') × ((ringing t' now ≡ true) ↔ (t.last < now))
unfolding ringing ring_manual
ringing-ring_manual t now h = (record t { last = t.last - t.duration }, ground arith, ground arith)

-- An instant that lies `millis` ahead is reached after exactly that time.
pub until-add_millis :
    (start now millis : ℕ)
    → start ≤ now
    → until (add_millis start millis) now + elapsed start now ≡ millis * 1_000_000
      ⊎ (millis * 1_000_000 < elapsed start now)
unfolding until add_millis elapsed
until-add_millis start now millis h = omega arith
