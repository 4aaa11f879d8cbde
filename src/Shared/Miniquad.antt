-- ===== src/Shared/Miniquad.antt =====
-- shared/src/impls/miniquad: `Instant`, `Random`, `Timer` and `Timestamp::now` over the functions `naia_now`
-- and `naia_random` that the page's script gives. A reading of the clock is a whole number of
-- milliseconds, which an `f64` holds exactly below 2 ^ 53; rounding beyond that is not modelled. The casts
-- and the `Duration` are those of Shared/Web.
pub mod Laws
use naia_socket.Base.{ℕ, ◌+◌, ◌-◌, ◌*◌, ◌/◌, ◌%◌, Bool, Exec, done, ◌>>=◌, Ordering, if◌then◌else◌}
use naia_socket.Base.Int.{ℤ, pos, ◌-ℤ◌, ◌+ℤ◌, ltb_ℤ, eq_ℤ}
use naia_socket.Shared.Config.{Rates}
use naia_socket.Shared.Reader.{Timestamp}
use naia_socket.Shared.World.{World, Profile, add_u32, sub_u32}
use naia_socket.Shared.Web.{Duration, as_u64, as_u32, Browser}

unfoldable pub elapsed : ℤ → ℤ → Duration
elapsed self now =
    let inner_duration = now -ℤ self in
    record { secs = as_u64 inner_duration / 1000; nanos = as_u32 inner_duration % 1000 * 1_000_000 }

unfoldable pub until : ℤ → ℤ → Duration
until self now =
    let inner_duration = self -ℤ now in
    record { secs = as_u64 inner_duration / 1000; nanos = as_u32 inner_duration % 1000 * 1_000_000 }

unfoldable pub add_millis : ℤ → ℕ → ℤ
add_millis self millis = self +ℤ pos millis

-- `Ord` of two instants.
unfoldable pub cmp : ℤ → ℤ → Ordering
cmp self other =
    if eq_ℤ self other then Ordering.eq else if ltb_ℤ self other then Ordering.lt else Ordering.gt

-- `Timestamp::now` of timestamp.rs.
unfoldable pub timestamp_now : ℤ → Timestamp
timestamp_now now = record { time = as_u64 now }

pub record Timer : Type 0 where
  pub duration : ℕ
  pub last : ℤ

-- `Timer::new` of a duration in nanoseconds: `as_millis` drops the part of a millisecond.
unfoldable pub new : ℤ → ℕ → Timer
new now duration = record { duration = duration / 1_000_000; last = now }

unfoldable pub reset : Timer → ℤ → Timer
reset self now = record self { last = now }

unfoldable pub ringing : Timer → ℤ → Bool
ringing self now = ltb_ℤ (pos self.duration) (now -ℤ self.last)

unfoldable pub ring_manual : Timer → Timer
ring_manual self = record self { last = self.last -ℤ pos self.duration }

-- `naia_now` and `naia_random` stand for `date_now` and the `random` functions of a browser.
module _ {R : Rates} (N : Browser R) (profile : Profile) where
  unfoldable pub gen_range_f32 : R.F → R.F → N.State → R.F × N.State
  gen_range_f32 lower upper s =
      let (r, s') = N.random_f32 s in (N.add_f32 (N.mul_f32 r (N.sub_f32 upper lower)) lower, s')

  unfoldable pub gen_range_u32 : ℕ → ℕ → N.State → Exec (ℕ × N.State)
  gen_range_u32 lower upper s = do
    width ← sub_u32 profile upper lower
    let (rand_range, s') = N.random_times width s
    n ← add_u32 profile rand_range lower
    done (n, s')

  unfoldable pub gen_bool : N.State → Bool × N.State
  gen_bool s = N.random_lt_half s

  abbrev pub miniquad_world : World R
  miniquad_world = record {
    W = N.State;
    per_milli = 1;
    now = N.date_now;
    gen_range_f32 = gen_range_f32;
    gen_range_u32 = gen_range_u32;
    gen_bool = gen_bool;
  }
