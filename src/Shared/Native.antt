-- ===== src/Shared/Native.antt =====
-- shared/src/impls/native: `Instant`, `Random`, `Timer` and `Timestamp::now` over the standard
-- library's clocks and the crate rand. Instants and durations are numbers of nanoseconds.
pub mod Laws
use naia_socket.Base.{
  ℕ, ◌+◌, ◌-◌, ◌*◌, ◌/◌, ◌≤◌, ◌<◌, ◌≡◌, Bool, Option, none, some, Exec, done, panicked, ltb,
  if◌then◌else◌,
}
use naia_socket.Shared.Config.{Rates}
use naia_socket.Shared.World.{World}
use naia_socket.Shared.Reader.{Timestamp}

-- `std::time::Instant::now`, `SystemTime::now` since the epoch in seconds (`none` before the
-- epoch), and what `thread_rng` draws.
pub record Host (R : Rates) : Type 1 where
  pub State : Type 0
  pub instant_now : State → ℕ × State
  pub since_epoch : State → Option ℕ
  pub sample_f32 : R.F → R.F → State → R.F × State
  pub sample_u32 : ℕ → ℕ → State → ℕ × State
  pub sample_bool : State → Bool × State

-- What rand documents of `gen_range`: a value of the half-open range.
pub record IsRand {R : Rates} (H : Host R) : Type 0 where
  pub sample_u32_bounds :
      (lower upper : ℕ) (s : H.State)
      → lower < upper
      → (lower ≤ (H.sample_u32 lower upper s).0) × ((H.sample_u32 lower upper s).0 < upper)

-- `Instant`
unfoldable pub elapsed : ℕ → ℕ → ℕ
elapsed self now = now - self

unfoldable pub until : ℕ → ℕ → ℕ
until self now = self - now

unfoldable pub add_millis : ℕ → ℕ → ℕ
add_millis self millis = self + millis * 1_000_000

pub record Timer : Type 0 where
  pub duration : ℕ
  pub last : ℕ

-- `Timer::new`, `reset`, `ringing` and `ring_manual`, each with its reading of the clock.
unfoldable pub new : ℕ → ℕ → Timer
new now duration = record { duration = duration; last = now }

unfoldable pub reset : Timer → ℕ → Timer
reset self now = record self { last = now }

unfoldable pub ringing : Timer → ℕ → Bool
ringing self now = ltb self.duration (now - self.last)

-- `Instant -= Duration` panics where the moment cannot be represented; instants count from the
-- earliest one that can.
unfoldable pub ring_manual : Timer → Exec Timer
ring_manual self =
    if ltb self.last self.duration
    then panicked
    else done (record self { last = self.last - self.duration })

module _ {R : Rates} (H : Host R) where
  -- `Random`: `gen_range` of rand panics on an empty range.
  unfoldable pub gen_range_f32 : R.F → R.F → H.State → R.F × H.State
  gen_range_f32 lower upper s = H.sample_f32 lower upper s

  unfoldable pub gen_range_u32 : ℕ → ℕ → H.State → Exec (ℕ × H.State)
  gen_range_u32 lower upper s =
      if ltb lower upper then done (H.sample_u32 lower upper s) else panicked

  unfoldable pub gen_bool : H.State → Bool × H.State
  gen_bool s = H.sample_bool s

  -- `Timestamp::now`: `expect` panics where the clock stands before the epoch.
  unfoldable pub timestamp_now : H.State → Exec Timestamp
  timestamp_now s = elim (H.since_epoch s) [
    | none ↦ panicked
    | some secs ↦ done (record { time = secs })
  ]

  -- The platform that the conditioner runs on.
  abbrev pub native_world : World R
  native_world = record {
    W = H.State;
    per_milli = 1_000_000;
    now = H.instant_now;
    gen_range_f32 = gen_range_f32;
    gen_range_u32 = gen_range_u32;
    gen_bool = gen_bool;
  }
