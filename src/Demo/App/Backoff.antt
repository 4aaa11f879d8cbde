-- ===== src/Demo/App/Backoff.antt =====
-- `backoff_enabled` of app.rs is true for 0 and for the powers of two.
use naia_socket.Base.{
  ℕ, zero, suc, ◌+◌, ◌-◌, ◌*◌, ◌/◌, ◌%◌, ◌^◌, ◌<◌, ◌≡◌, refl, sym, ◌↔◌, ◌⊎◌, inl, inr, true, Bool,
  done, subst, ◌==◌, arith, ==_iff,
}
use naia_socket.Shared.World.{Profile}
use naia_socket.Demo.App.{bit_and, backoff_enabled, decr_i32}

abbrev pub IsPower : ℕ → Type 0
IsPower n = (k : ℕ) × (n ≡ 2 ^ k)

pub double : (k : ℕ) → 2 ^ suc k ≡ 2 * 2 ^ k
double k = omega arith

pub positive : (k : ℕ) → 0 < 2 ^ k
positive zero = omega arith
positive (suc k) = omega (arith, double k, positive k)

sum_zero : (a c : ℕ) → a + 2 * c ≡ 0 → (a ≡ 0) × (c ≡ 0)
sum_zero a c e = (omega arith, omega arith)

parity : (n : ℕ) → (n % 2 ≡ 0) ⊎ (n % 2 ≡ 1)
parity n = omega arith

bit_and_self : (width n : ℕ) → n < 2 ^ width → bit_and width n n ≡ 0 → n ≡ 0
unfolding bit_and
bit_and_self zero n h e = omega arith
bit_and_self (suc width) n h e =
    let (bit, rest) = sum_zero _ _ e in
    let half : n / 2 ≡ 0 = bit_and_self width (n / 2) (omega (arith, double width)) rest in
    elim (parity n) [
      | inl even ↦ omega arith
      | inr odd ↦ let one : 1 * 1 ≡ 0 = subst (λ b. b * b ≡ 0) odd bit in omega arith
    ]

-- A number that has no bit in common with the one before it is a power of two.
bit_and_pred : (width n : ℕ) → 0 < n → n < 2 ^ width → bit_and width n (n - 1) ≡ 0 → IsPower n
unfolding bit_and
bit_and_pred zero n pos h e = absurd (omega arith)
bit_and_pred (suc width) n pos h e =
    let rest = (sum_zero _ _ e).1 in
    elim (parity n) [
      | inl even ↦
          let same : (n - 1) / 2 ≡ n / 2 - 1 = omega arith in
          let (k, q) =
            bit_and_pred width (n / 2) (omega arith) (omega (arith, double width))
              (subst (λ m. bit_and width (n / 2) m ≡ 0) same rest) in
          (suc k, omega (arith, double k))
      | inr odd ↦
          let same : (n - 1) / 2 ≡ n / 2 = omega arith in
          let half =
            bit_and_self width (n / 2) (omega (arith, double width))
              (subst (λ m. bit_and width (n / 2) m ≡ 0) same rest) in
          (0, omega arith)
    ]

bit_and_zero : (width a : ℕ) → bit_and width a 0 ≡ 0
unfolding bit_and
bit_and_zero zero a = refl
bit_and_zero (suc width) a = omega (arith, bit_and_zero width (a / 2))

zero_bit_and : (width a : ℕ) → bit_and width 0 a ≡ 0
unfolding bit_and
zero_bit_and zero a = refl
zero_bit_and (suc width) a = omega (arith, zero_bit_and width (a / 2))

bit_and-power : (width k : ℕ) → bit_and width (2 ^ k) (2 ^ k - 1) ≡ 0
unfolding bit_and
bit_and-power zero k = refl
bit_and-power (suc width) zero = omega (arith, zero_bit_and width 0)
bit_and-power (suc width) (suc k) =
    let half : 2 ^ suc k / 2 ≡ 2 ^ k = omega (arith, double k) in
    let pred : (2 ^ suc k - 1) / 2 ≡ 2 ^ k - 1 = omega (arith, double k, positive k) in
    let even : 2 ^ suc k % 2 ≡ 0 = omega (arith, double k) in
    rw (half, pred, even) (omega (arith, bit_and-power width k))

decr_small : (p : Profile) (n : ℕ) → n < 2 ^ 31 → 0 < n → decr_i32 p n ≡ done (n - 1)
unfolding decr_i32
decr_small p n h pos = ground arith

backoff_enabled_zero : (p : Profile) → backoff_enabled p 0 ≡ done true
unfolding backoff_enabled bit_and decr_i32
backoff_enabled_zero p = refl

-- For a round below 2 ^ 31, `backoff_enabled` returns, in either build, and is true exactly where
-- the round is 0 or a power of two.
pub backoff_enabled_iff :
    (p : Profile) (round : ℕ)
    → round < 2 ^ 31
    → (b : Bool) × (backoff_enabled p round ≡ done b) × ((b ≡ true) ↔ ((round ≡ 0) ⊎ IsPower round))
unfolding backoff_enabled
backoff_enabled_iff p zero h = (true, backoff_enabled_zero p, ((λ e. inl refl), (λ e. refl)))
backoff_enabled_iff p (suc n) h =
    let none = bit_and 32 (suc n) (suc n - 1) == 0 in
    rw (decr_small p (suc n) h (omega arith)) (
      none,
      refl,
      ((
        λ e. inr (bit_and_pred 32 (suc n) (omega arith) (omega arith) ((==_iff _ 0).0 e)),
        λ o. elim o [
          | inl e ↦ absurd (omega arith)
          | inr (k, e) ↦
              let at_power : bit_and 32 (suc n) (suc n - 1) ≡ 0 =
                subst (λ m. bit_and 32 m (m - 1) ≡ 0) (sym e) (bit_and-power 32 k) in
              (==_iff _ 0).1 at_power
        ],
      )),
    )
