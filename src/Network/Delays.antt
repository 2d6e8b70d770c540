-- ===== src/Network/Delays.antt =====
-- How long the retries of the default configuration would wait.
use native.Mathlib.Nat.{one-le-pow}
use native.Mathlib.Nat.{mul_assoc, one-le-pow, le-mul_of_pos_right}
use native.Mathlib.Omega.{pow_step}
use evm_oracle.Base.{
  ◌≡◌, ℕ, ◌*◌, ◌≤◌, ◌^◌, ltb, ap, arith, subst, sym, ◌∙◌, ◌<◌, if◌then◌else◌, Bool-cases, inl, inr,
}
use evm_oracle.Network.Retry.{Float64, pow_loop, calculate_delay, default_retry_config, pow}
use Prim.Native.Nat.{zero, min, suc}

-- float64 is exact on integers up to 2^53.
pub record IsExact (fl : Float64) : Type 0 where
  pub one : fl.one_f ≡ fl.of_int 1
  pub product : (a b : ℕ) → a * b ≤ 2 ^ 53 → fl.mul (fl.of_int a) (fl.of_int b) ≡ fl.of_int (a * b)
  pub greater : (a b : ℕ) → a ≤ 2 ^ 53 → b ≤ 2 ^ 53 → fl.gt (fl.of_int a) (fl.of_int b) ≡ ltb b a
  pub back : (a : ℕ) → a ≤ 2 ^ 53 → fl.to_int (fl.of_int a) ≡ a

module _ (fl : Float64) (exact : IsExact fl) where
  pow_loop-power :
      (n a : ℕ)
      → a * 2 ^ n ≤ 2 ^ 53
      → pow_loop fl (fl.of_int 2) n (fl.of_int a) ≡ fl.of_int (a * 2 ^ n)
  unfolding pow_loop
  pow_loop-power zero a h = ap fl.of_int (omega arith)
  pow_loop-power (suc n) a h =
      let same : a * 2 * 2 ^ n ≡ a * 2 ^ suc n =
        mul_assoc a 2 (2 ^ n) ∙ ap (λ x. a * x) (sym (pow_step 2 n)) in
      let positive : 0 < 2 ^ n = one-le-pow n 2 (omega arith) in
      let grows : a * 2 ≤ a * 2 * 2 ^ n = le-mul_of_pos_right (a * 2) positive in
      let small : a * 2 ≤ 2 ^ 53 = omega arith in
      rw (exact.product a 2 small)
        (pow_loop-power n (a * 2) (subst (λ x. x ≤ 2 ^ 53) (sym same) h) ∙ ap fl.of_int same)

  clamped :
      (a b : ℕ)
      → a ≤ 2 ^ 53
      → b ≤ 2 ^ 53
      → fl.to_int (if ltb b a then fl.of_int b else fl.of_int a) ≡ min a b
  clamped a b h k = elim (Bool-cases (ltb b a)) [
    | inl e ↦ rw e (exact.back b k ∙ ground arith)
    | inr e ↦ rw e (exact.back a h ∙ ground arith)
  ]

  -- The delays of the default configuration are one second, doubled with each attempt, up to thirty seconds,
  -- for the attempts that float64 computes exactly.
  calculate_delay-default :
      (attempt : ℕ)
      → 1_000_000_000 * 2 ^ attempt ≤ 2 ^ 53
      → calculate_delay fl (default_retry_config fl) attempt
        ≡ min (1_000_000_000 * 2 ^ attempt) 30_000_000_000
  unfolding calculate_delay default_retry_config pow
  calculate_delay-default attempt h =
      let power : pow fl (fl.of_int 2) attempt ≡ fl.of_int (1 * 2 ^ attempt) =
        ap (pow_loop fl (fl.of_int 2) attempt) exact.one ∙ pow_loop-power attempt 1 (omega arith) in
      let delay : fl.mul (fl.of_int 1_000_000_000) (pow fl (fl.of_int 2) attempt)
          ≡ fl.of_int (1_000_000_000 * 2 ^ attempt) =
        ap (fl.mul (fl.of_int 1_000_000_000)) power
        ∙ exact.product 1_000_000_000 (1 * 2 ^ attempt) (omega arith)
        ∙ ap fl.of_int (omega arith) in
      let longer = exact.greater (1_000_000_000 * 2 ^ attempt) 30_000_000_000 h (omega arith) in
      subst
        (λ d.
          fl.to_int (if fl.gt d (fl.of_int 30_000_000_000) then fl.of_int 30_000_000_000 else d)
          ≡ min (1_000_000_000 * 2 ^ attempt) 30_000_000_000)
        (sym delay)
        (rw longer (clamped (1_000_000_000 * 2 ^ attempt) 30_000_000_000 h (omega arith)))
