-- ===== src/Similarity/Floats.antt =====
-- The float32 operations that semantic.go uses, as an interface, and CosineSimilarity over it.
use mathlib.Core.Bool.{true, false}
use evm_oracle.Base.{
  [], ◌∷◌, ℕ, List, if◌then◌else◌, ◌≡◌, Bool, ◌||◌, not, length, ◌==◌, nat_eq, refl, arith,
}

-- Go's float32; `sqrt` is float32(math.Sqrt(float64(x))), `ge` and `gt` are the comparisons.
pub record Float32 : Type 1 where
  pub F : Type 0
  pub zero_f : F
  pub one_f : F
  pub add : F → F → F
  pub mul : F → F → F
  pub div : F → F → F
  pub sqrt : F → F
  pub of_int : ℕ → F
  pub is_zero : F → Bool
  pub ge : F → F → Bool
  pub gt : F → F → Bool

module _ (fl : Float32) where
  open fl use {F, zero_f, add, mul, div, sqrt, is_zero}

  -- The loop over the two vectors, which are of one length
  unfoldable pub products : List F → List F → F × F × F → F × F × F
  products (a ∷ xs) (b ∷ ys) (dot, norm_a, norm_b) =
      products xs ys (add dot (mul a b), add norm_a (mul a a), add norm_b (mul b b))
  products _ _ acc = acc

  quotient : F × F × F → F
  quotient (dot, norm_a, norm_b) =
      if is_zero norm_a || is_zero norm_b then zero_f else div dot (mul (sqrt norm_a) (sqrt norm_b))

  unfoldable pub cosine_similarity : List F → List F → F
  unfolding products quotient
  cosine_similarity a b =
      if not (length a == length b)
      then zero_f
      else quotient (products a b (zero_f, zero_f, zero_f))

  abbrev turn : F × F × F → F × F × F
  turn (dot, norm_a, norm_b) = (dot, norm_b, norm_a)

  module _ (mul_comm : (x y : F) → mul x y ≡ mul y x) where
    products-turn :
        (xs ys : List F) (dot norm_a norm_b : F)
        → products ys xs (dot, norm_b, norm_a) ≡ turn (products xs ys (dot, norm_a, norm_b))
    unfolding products
    products-turn [] [] d m n = refl
    products-turn [] (y ∷ ys) d m n = refl
    products-turn (x ∷ xs) [] d m n = refl
    products-turn (x ∷ xs) (y ∷ ys) d m n = rw (mul_comm y x, products-turn xs ys)

    or_comm : (b c : Bool) → (b || c) ≡ (c || b)
    or_comm true true = refl
    or_comm true false = refl
    or_comm false true = refl
    or_comm false false = refl

    quotient-turn : (acc : F × F × F) → quotient (turn acc) ≡ quotient acc
    unfolding quotient
    quotient-turn (d, m, n) = rw (or_comm (is_zero n) (is_zero m), mul_comm (sqrt n) (sqrt m))

    ==_comm : (m n : ℕ) → (m == n) ≡ (n == m)
    ==_comm m n = ground arith

    -- CosineSimilarity does not depend on the order of its two vectors, when the multiplication of
    -- float32 commutes.
    pub cosine_similarity_comm : (a b : List F) → cosine_similarity a b ≡ cosine_similarity b a
    unfolding cosine_similarity
    cosine_similarity_comm a b =
        rw (==_comm (length a) (length b), products-turn b a zero_f zero_f zero_f, quotient-turn)
