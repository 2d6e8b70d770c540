-- ===== src/Network/Retry.antt =====
-- oracle/pkg/network/retry.go, over an interface of float64. Durations are numbers of nanoseconds.
use Prim.Native.Nat.{zero}
use evm_oracle.Base.{ℕ, ◌*◌, Bool, if◌then◌else◌, suc}

-- Go's float64: the conversion of an integer, its product, `>`, and the conversion to an integer
pub record Float64 : Type 1 where
  pub F : Type 0
  pub one_f : F
  pub of_int : ℕ → F
  pub mul : F → F → F
  pub gt : F → F → Bool
  pub to_int : F → ℕ

module _ (fl : Float64) where
  open fl use {F, one_f, of_int, mul, gt, to_int}

  pub record RetryConfig : Type 0 where
    pub max_attempts : ℕ
    pub initial_delay : ℕ
    pub max_delay : ℕ
    pub backoff_factor : F

  unfoldable pub default_retry_config : RetryConfig
  default_retry_config = record {
    max_attempts = 5;
    initial_delay = 1_000_000_000;
    max_delay = 30 * 1_000_000_000;
    backoff_factor = of_int 2;
  }

  -- The loop of pow, by the rounds left; `int(y)` is the attempt.
  unfoldable pub pow_loop : F → ℕ → F → F
  pow_loop x zero result = result
  pow_loop x (suc n) result = pow_loop x n (mul result x)

  unfoldable pub pow : F → ℕ → F
  unfolding pow_loop
  pow x n = pow_loop x n one_f

  unfoldable pub calculate_delay : RetryConfig → ℕ → ℕ
  unfolding pow
  calculate_delay c attempt =
      let delay = mul (of_int c.initial_delay) (pow c.backoff_factor attempt) in
      to_int (if gt delay (of_int c.max_delay) then of_int c.max_delay else delay)
