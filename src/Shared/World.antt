-- ===== src/Shared/World.antt =====
-- What the library asks of its platform: `Instant` and `Random` of shared/src/impls. A world holds
-- the state of the clock and of the random source; each call returns the world after it.
use naia_socket.Base.{
  ℕ, ◌≤◌, ◌<◌, ◌+◌, ◌-◌, ◌^◌, ◌%◌, ◌≡◌, Bool, Exec, done, panicked, ltb, leb, if◌then◌else◌, arith,
}
use naia_socket.Shared.Config.{Rates}

abbrev pub u32_mod : ℕ
u32_mod = 2 ^ 32

-- Instants are counted in ticks, of which a millisecond has `per_milli`.
pub record World (R : Rates) : Type 1 where
  pub W : Type 0
  pub per_milli : ℕ
  pub now : W → ℕ × W
  pub gen_range_f32 : R.F → R.F → W → R.F × W
  pub gen_range_u32 : ℕ → ℕ → W → Exec (ℕ × W)
  pub gen_bool : W → Bool × W

-- `gen_range_u32` is documented to return a value of the half-open range, where that is
-- not empty.
pub record IsLawful {R : Rates} (V : World R) : Type 0 where
  pub gen_range_u32_bounds :
      (lower upper : ℕ) (w : V.W)
      → lower < upper
      → upper < u32_mod
      → (n : ℕ) × (w' : V.W) × (V.gen_range_u32 lower upper w ≡ done (n, w'))
        × (lower ≤ n)
        × (n < upper)

-- The readings of the clock do not go back: `clock` is what a reading is at least.
pub record IsMonotone {R : Rates} (V : World R) : Type 0 where
  pub clock : V.W → ℕ
  pub now_after : (w : V.W) → clock w ≤ (V.now w).0
  pub now_before : (w : V.W) → (V.now w).0 ≤ clock (V.now w).1
  pub gen_range_f32_after : (a b : R.F) (w : V.W) → clock w ≤ clock (V.gen_range_f32 a b w).1
  pub gen_bool_after : (w : V.W) → clock w ≤ clock (V.gen_bool w).1
  pub gen_range_u32_after :
      (a b : ℕ) (w : V.W) (n : ℕ) (w' : V.W)
      → V.gen_range_u32 a b w ≡ done (n, w')
      → clock w ≤ clock w'

-- How the crate is built: with checks for overflow, which panic, or with wrap-around.
pub data Profile : Type 0 where
  debug release : Profile

abbrev pub overflow {ℓ} : {A : Type ℓ} → Profile → A → Exec A
overflow debug a = panicked
overflow release a = done a

unfoldable pub add_u32 : Profile → ℕ → ℕ → Exec ℕ
add_u32 p a b = if ltb (a + b) u32_mod then done (a + b) else overflow p ((a + b) % u32_mod)

unfoldable pub sub_u32 : Profile → ℕ → ℕ → Exec ℕ
sub_u32 p a b = if leb b a then done (a - b) else overflow p (a + u32_mod - b)

pub add_u32_small : (p : Profile) (a b : ℕ) → a + b < u32_mod → add_u32 p a b ≡ done (a + b)
unfolding add_u32
add_u32_small p a b h = ground arith

pub sub_u32_small : (p : Profile) (a b : ℕ) → b ≤ a → sub_u32 p a b ≡ done (a - b)
unfolding sub_u32
sub_u32_small p a b h = ground arith
