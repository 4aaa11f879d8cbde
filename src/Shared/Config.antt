-- ===== src/Shared/Config.antt =====
-- shared/src/link_conditioner_config.rs. The two rates are `f32` in the source: here they are values
-- of a type that a `Rates` gives, with its comparison and its reading of a decimal literal.
use naia_socket.Base.{ℕ, ◌≤◌, ◌<◌, ◌^◌, ◌+◌, Bool, arith}

-- The `f32` of the source, as far as the conditioner uses it.
pub record Rates : Type 1 where
  pub F : Type 0
  pub leb : F → F → Bool
  -- `decimal m k` is the literal m / 10 ^ k.
  pub decimal : ℕ → ℕ → F

module _ (R : Rates) where
  pub record LinkConditionerConfig : Type 0 where
    pub incoming_latency : ℕ
    pub incoming_jitter : ℕ
    pub incoming_loss : R.F
    pub incoming_corruption : R.F

module _ (R : Rates) where
  unfoldable pub new : ℕ → ℕ → R.F → R.F → LinkConditionerConfig R
  new latency jitter loss corruption = record {
    incoming_latency = latency;
    incoming_jitter = jitter;
    incoming_loss = loss;
    incoming_corruption = corruption;
  }

  unfoldable pub good_condition : LinkConditionerConfig R
  good_condition = record {
    incoming_latency = 50;
    incoming_jitter = 10;
    incoming_loss = R.decimal 1 2;
    incoming_corruption = R.decimal 15 7;
  }

  unfoldable pub average_condition : LinkConditionerConfig R
  average_condition = record {
    incoming_latency = 275;
    incoming_jitter = 20;
    incoming_loss = R.decimal 55 3;
    incoming_corruption = R.decimal 15 6;
  }

  unfoldable pub poor_condition : LinkConditionerConfig R
  poor_condition = record {
    incoming_latency = 500;
    incoming_jitter = 30;
    incoming_loss = R.decimal 1 1;
    incoming_corruption = R.decimal 15 5;
  }

  -- The jitter does not exceed the latency, and their sum fits in 32 bits.
  pub record IsValid (c : LinkConditionerConfig R) : Type 0 where
    pub no_underflow : c.incoming_jitter ≤ c.incoming_latency
    pub no_overflow : c.incoming_latency + c.incoming_jitter < 2 ^ 32

  pub good_condition-IsValid : IsValid good_condition
  unfolding good_condition
  good_condition-IsValid = omega arith

  pub average_condition-IsValid : IsValid average_condition
  unfolding average_condition
  average_condition-IsValid = omega arith

  pub poor_condition-IsValid : IsValid poor_condition
  unfolding poor_condition
  poor_condition-IsValid = omega arith
