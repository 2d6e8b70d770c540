-- ===== src/Base/Counting.antt =====
-- Counting the members of a list that pass a test, for two groups of its members.
use Prim.Native.Nat.{suc, ◌+◌, ◌≤◌, ◌<◌}
use mathlib.Core.Path.{◌≡◌, subst, sym}
use mathlib.Core.Logic.{inl, inr}
use mathlib.Core.Bool.{Bool, true, false, ◌&&◌}
use mathlib.Core.List.{List, [], ◌∷◌}
use native.Mathlib.Omega.{arith}
use evm_oracle.Base.Tests.{Comparable, ◌==◌, ==_refl, ==_sound, Bool-cases}
use evm_oracle.Base.Lists.{tally, length, contains, IsDistinct}

module _ {ℓ} {A : Type ℓ} where
  pub tally_mono :
      (xs : List A) (p q : A → Bool) → ((x : A) → p x ≡ true → q x ≡ true) → tally xs p ≤ tally xs q
  unfolding tally
  tally_mono [] p q h = omega arith
  tally_mono (x ∷ xs) p q h = ground (arith, h x, tally_mono xs p q h)

  pub tally-both :
      (xs : List A) (p q : A → Bool)
      → tally xs p + tally xs q ≤ length xs + tally xs (λ x. p x && q x)
  unfolding tally
  tally-both [] p q = omega arith
  tally-both (x ∷ xs) p q = ground (arith, tally-both xs p q)

  -- A test that some entry passes
  pub tally_pos : (xs : List A) (p : A → Bool) → 0 < tally xs p → (x : A) × (p x ≡ true)
  unfolding tally
  tally_pos [] p h = absurd (omega arith)
  tally_pos (x ∷ xs) p h = elim (Bool-cases (p x)) [
    | inl e ↦ (x, e)
    | inr e ↦ tally_pos xs p (ground arith)
  ]

module _ {ℓ} {A : Type ℓ} ⦃k_eq : Comparable A⦄ where
  tally-insert :
      (ns xs : List A) (a : A)
      → contains ns a ≡ true
      → contains xs a ≡ false
      → suc (tally ns (contains xs)) ≤ tally ns (contains (a ∷ xs))
  unfolding tally
  tally-insert [] xs a h g = absurd (cc)
  tally-insert (n ∷ ns) xs a h g = elim (Bool-cases (n == a)) [
    | inl same ↦ ground (
      arith,
      ==_sound n a same,
      ==_refl a,
      tally_mono ns (contains xs) (contains (a ∷ xs)) (λ x k. ground arith),
    )
    | inr other ↦
        ground (arith, k_eq.same_iff a n, k_eq.same_iff n a, tally-insert ns xs a (ground arith) g)
  ]

  -- Distinct members of a list are no more than its entries that they cover.
  pub length-le-tally :
      (ns xs : List A)
      → IsDistinct xs
      → ((a : A) → contains xs a ≡ true → contains ns a ≡ true)
      → length xs ≤ tally ns (contains xs)
  length-le-tally ns [] d h = omega arith
  length-le-tally ns (x ∷ xs) d h = omega (
    arith,
    tally-insert ns xs x (h x (rw (==_refl x))) d.0,
    length-le-tally ns xs d.1 (λ a k. h a (ground arith)),
  )

  tally-∷_absent :
      (ns xs : List A) (a : A)
      → contains ns a ≡ false
      → tally ns (contains (a ∷ xs)) ≤ tally ns (contains xs)
  unfolding tally
  tally-∷_absent [] xs a h = omega arith
  tally-∷_absent (n ∷ ns) xs a h =
      ground (arith, tally-∷_absent ns xs a (ground arith), k_eq.same_iff a n, k_eq.same_iff n a)

  tally-∷ :
      (ns xs : List A) (a : A)
      → IsDistinct ns
      → tally ns (contains (a ∷ xs)) ≤ suc (tally ns (contains xs))
  unfolding tally
  tally-∷ [] xs a d = omega arith
  tally-∷ (n ∷ ns) xs a d = elim (Bool-cases (a == n)) [
    | inl same ↦ ground (
      arith,
      tally-∷_absent ns xs a (subst (λ b. contains ns b ≡ false) (sym (==_sound a n same)) d.0),
    )
    | inr other ↦ ground (arith, tally-∷ ns xs a d.1)
  ]

  nothing_covered : (ns : List A) → tally ns (contains []) ≤ 0
  unfolding tally
  nothing_covered [] = omega arith
  nothing_covered (n ∷ ns) = nothing_covered ns

  -- A list covers no more of distinct entries than it is long.
  pub tally-le-length : (ns xs : List A) → IsDistinct ns → tally ns (contains xs) ≤ length xs
  tally-le-length ns [] d = nothing_covered ns
  tally-le-length ns (x ∷ xs) d = omega (arith, tally-∷ ns xs x d, tally-le-length ns xs d)
