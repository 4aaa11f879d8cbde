-- ===== src/Shared/Web/Laws.antt =====
-- What the browser's clock and random source are good for, for shared/src/impls/wasm_bindgen.
use naia_socket.Base.{
  ℕ, ◌+◌, ◌-◌, ◌*◌, ◌/◌, ◌^◌, ◌≤◌, ◌<◌, ◌≡◌, refl, ◌↔◌, true, done, arith, Ordering,
}
use naia_socket.Base.Int.{ℤ, pos, ◌-ℤ◌, ◌+ℤ◌, ◌<ℤ◌}
use naia_socket.Shared.Config.{Rates}
use naia_socket.Shared.World.{IsLawful, Profile, add_u32_small, sub_u32_small, u32_mod}
use naia_socket.Shared.Web.{
  Duration, as_u64, as_u32, elapsed, until, add_millis, cmp, Timer, new, reset, ringing,
  ring_manual, Browser, gen_range_u32, web_world,
}

-- `Math.random()` is at least 0 and less than 1.
pub record IsRandom {R : Rates} (N : Browser R) : Type 0 where
  pub random_times_lt : (width : ℕ) (s : N.State) → 0 < width → (N.random_times width s).0 < width

module _ {R : Rates} (N : Browser R) (I : IsRandom N) (profile : Profile) where
  gen_range_u32_drawn :
      (lower upper : ℕ) (s : N.State)
      → lower < upper
      → upper < u32_mod
      → gen_range_u32 N profile lower upper s
        ≡ done ((N.random_times (upper - lower) s).0 + lower, (N.random_times (upper - lower) s).1)
  unfolding gen_range_u32
  gen_range_u32_drawn lower upper s h u =
      rw
        (
          sub_u32_small profile upper lower (omega arith),
          add_u32_small profile (N.random_times (upper - lower) s).0 lower
              (omega (arith, I.random_times_lt (upper - lower) s (omega arith))),
        )
        refl

  -- Where `Math.random()` is below 1, `gen_range_u32` of the browser returns, in either build and
  -- without an overflow, a value of every half-open range that is not empty and ends below 2 ^ 32.
  pub web_world-IsLawful : IsLawful (web_world N profile)
  web_world-IsLawful = record {
    gen_range_u32_bounds = λ lower upper s h u. (
      (N.random_times (upper - lower) s).0 + lower,
      (N.random_times (upper - lower) s).1,
      gen_range_u32_drawn lower upper s h u,
      omega arith,
      omega (arith, I.random_times_lt (upper - lower) s (omega arith)),
    );
  }

-- The milliseconds of a duration.
abbrev pub millis : Duration → ℕ
millis d = d.secs * 1000 + d.nanos / 1_000_000

-- Where `a` is at most `b` and less than 2 ^ 32 milliseconds before it, `elapsed` of `a` at `b`
-- and `until` of `b` at `a` in the browser are `b - a` milliseconds, and the part below a second
-- of the former is below a second.
pub elapsed_exact :
    (a b : ℕ)
    → a ≤ b
    → b - a < 2 ^ 32
    → (millis (elapsed (pos a) (pos b)) ≡ b - a)
      × (millis (until (pos b) (pos a)) ≡ b - a)
      × ((elapsed (pos a) (pos b)).nanos < 1_000_000_000)
unfolding elapsed until as_u64 as_u32 ◌-ℤ◌
elapsed_exact a b h k = ground arith

-- An instant to which less than 2 ^ 32 milliseconds were added is so many milliseconds away.
pub until-add_millis : (a m : ℕ) → m < 2 ^ 32 → millis (until (add_millis (pos a) m) (pos a)) ≡ m
unfolding until add_millis as_u64 as_u32 ◌-ℤ◌ ◌+ℤ◌
until-add_millis a m k = ground arith

-- The order of instants is that of the readings of the clock, also for those in the past.
pub cmp_iff :
    (a b : ℤ) → ((cmp a b ≡ Ordering.lt) ↔ (a <ℤ b)) × ((cmp a b ≡ Ordering.gt) ↔ (b <ℤ a))
unfolding cmp
cmp_iff a b = ground arith

-- Where `b` is at least 2 ^ 32 and less than 2 ^ 64 milliseconds behind `a`, `elapsed` of `a` at
-- `b` in the browser has the right number of whole seconds, and always 295 milliseconds below the
-- second.
pub elapsed_stuck :
    (a b : ℕ)
    → a + 2 ^ 32 ≤ b
    → b - a < 2 ^ 64
    → ((elapsed (pos a) (pos b)).secs ≡ (b - a) / 1000)
      × ((elapsed (pos a) (pos b)).nanos ≡ 295_000_000)
unfolding elapsed as_u64 as_u32 ◌-ℤ◌
elapsed_stuck a b h k = ground arith

-- A timer rings exactly when more than the whole milliseconds of its duration have gone by.
pub web_ringing-reset :
    (t : Timer) (start now duration : ℕ)
    → ((ringing (reset t (pos start)) (pos now) ≡ true) ↔ (start + t.duration < now))
      × ((ringing (new (pos start) duration) (pos now) ≡ true)
          ↔ (start + duration / 1_000_000 < now))
unfolding ringing reset new ◌-ℤ◌
web_ringing-reset t start now duration = ground arith

-- After `ring_manual` a timer rings exactly when the clock has moved since it was made or reset.
pub web_ringing-ring_manual :
    (t : Timer) (now : ℤ) → (ringing (ring_manual t) now ≡ true) ↔ (t.last <ℤ now)
unfolding ringing ring_manual ◌-ℤ◌
web_ringing-ring_manual t now = ground arith
