-- ===== src/Shared/Web.antt =====
-- shared/src/impls/wasm_bindgen: `Instant`, `Random`, `Timer` and `Timestamp::now` over `Date.now()` and
-- `Math.random()` of the browser. A reading of the clock is a whole number of milliseconds,
-- which an `f64` holds exactly below 2 ^ 53; rounding beyond that is not modelled.
pub mod Laws
use Prim.Native.Nat.{min}
use naia_socket.Base.{
  ℕ, suc, ◌+◌, ◌-◌, ◌*◌, ◌/◌, ◌%◌, ◌^◌, Bool, Exec, done, ◌>>=◌, Ordering, compare, if◌then◌else◌,
}
use naia_socket.Base.Int.{ℤ, pos, negsuc, pos_part, neg_part, ◌-ℤ◌, ◌+ℤ◌, ltb_ℤ, eq_ℤ}
use naia_socket.Shared.Config.{Rates}
use naia_socket.Shared.Reader.{Timestamp}
use naia_socket.Shared.World.{World, Profile, add_u32, sub_u32}

-- `std::time::Duration`
pub record Duration : Type 0 where
  pub secs : ℕ
  pub nanos : ℕ

-- A cast from `f64` stays within the range of the type.
unfoldable pub as_u64 : ℤ → ℕ
as_u64 (pos n) = min n (2 ^ 64 - 1)
as_u64 (negsuc n) = 0

unfoldable pub as_u32 : ℤ → ℕ
as_u32 (pos n) = min n (2 ^ 32 - 1)
as_u32 (negsuc n) = 0

-- The common end of `elapsed` and `until`.
abbrev pub to_duration : ℤ → Duration
to_duration inner_duration = record {
  secs = as_u64 inner_duration / 1000;
  nanos = as_u32 inner_duration % 1000 * 1_000_000;
}

unfoldable pub elapsed : ℤ → ℤ → Duration
elapsed self now = to_duration (now -ℤ self)

unfoldable pub until : ℤ → ℤ → Duration
until self now = to_duration (self -ℤ now)

unfoldable pub add_millis : ℤ → ℕ → ℤ
add_millis self millis = self +ℤ pos millis

-- `Ord` of two instants.
unfoldable pub cmp : ℤ → ℤ → Ordering
cmp self other =
    if eq_ℤ self other then Ordering.eq else if ltb_ℤ self other then Ordering.lt else Ordering.gt

-- `Timestamp::now` of timestamp.rs.
unfoldable pub timestamp_now : ℤ → Timestamp
timestamp_now now = record { time = as_u64 now }

pub record Timer : Type 0 where
  pub duration : ℕ
  pub last : ℤ

-- `Timer::new` of a duration in nanoseconds: `as_millis` drops the part of a millisecond.
unfoldable pub new : ℤ → ℕ → Timer
new now duration = record { duration = duration / 1_000_000; last = now }

unfoldable pub reset : Timer → ℤ → Timer
reset self now = record self { last = now }

unfoldable pub ringing : Timer → ℤ → Bool
ringing self now = ltb_ℤ (pos self.duration) (now -ℤ self.last)

unfoldable pub ring_manual : Timer → Timer
ring_manual self = record self { last = self.last -ℤ pos self.duration }

-- `Date.now()` and `Math.random()`, the latter as the source uses it: as an `f32`, times a width
-- and cut down to a whole number, and compared with 0.5.
pub record Browser (R : Rates) : Type 1 where
  pub State : Type 0
  pub date_now : State → ℕ × State
  pub random_f32 : State → R.F × State
  pub random_times : ℕ → State → ℕ × State
  pub random_lt_half : State → Bool × State
  pub add_f32 : R.F → R.F → R.F
  pub sub_f32 : R.F → R.F → R.F
  pub mul_f32 : R.F → R.F → R.F

module _ {R : Rates} (N : Browser R) (profile : Profile) where
  unfoldable pub gen_range_f32 : R.F → R.F → N.State → R.F × N.State
  gen_range_f32 lower upper s =
      let (r, s') = N.random_f32 s in (N.add_f32 (N.mul_f32 r (N.sub_f32 upper lower)) lower, s')

  unfoldable pub gen_range_u32 : ℕ → ℕ → N.State → Exec (ℕ × N.State)
  gen_range_u32 lower upper s = do
    width ← sub_u32 profile upper lower
    let (rand_range, s') = N.random_times width s
    n ← add_u32 profile rand_range lower
    done (n, s')

  unfoldable pub gen_bool : N.State → Bool × N.State
  gen_bool s = N.random_lt_half s

  abbrev pub web_world : World R
  web_world = record {
    W = N.State;
    per_milli = 1;
    now = N.date_now;
    gen_range_f32 = gen_range_f32;
    gen_range_u32 = gen_range_u32;
    gen_bool = gen_bool;
  }
