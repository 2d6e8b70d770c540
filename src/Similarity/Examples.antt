-- ===== src/Similarity/Examples.antt =====
-- The theorems on clustering at three responses.
-- Numbers in place of float32
use evm_oracle.Base.{nat_eq, string_eq, refl}
use evm_oracle.Base.Dict
use evm_oracle.Similarity.Partition.{members, form_clusters-tally}
use evm_oracle.Similarity.Clusters.{Response, form_clusters}
use evm_oracle.Base.{
  String, List, tally, ℕ, ◌∷◌, Bool, ◌+◌, if◌then◌else◌, [], ◌==◌, ◌*◌, ◌&&◌, ◌≡◌, ◌/◌, leb, ltb,
}
use evm_oracle.Similarity.Floats.{Float32}

abbrev pub numbers : Float32
numbers = record {
  F = ℕ;
  zero_f = 0;
  one_f = 1;
  add = λ x y. x + y;
  mul = λ x y. x * y;
  div = λ x y. x / y;
  sqrt = λ x. x;
  of_int = λ n. n;
  is_zero = λ x. x == 0;
  ge = λ x y. leb y x;
  gt = λ x y. ltb y x;
}

abbrev alike : String → String → ℕ
alike a b = if a == "a" && b == "c" then 9 else 1

abbrev pub three : List Response
three =
    record { text = "yes"; node_id = "a" }
    ∷ record { text = "no"; node_id = "b" }
    ∷ record { text = "yes"; node_id = "c" }
    ∷ []

abbrev says_yes : Response → Bool
says_yes r = r.text == "yes"

form_clusters-tally_example :
    tally (members (form_clusters numbers alike 5 three three Dict.empty)) says_yes ≡ 2
unfolding tally
form_clusters-tally_example =
    form_clusters-tally numbers alike 5 three says_yes (refl, (refl, (refl, tt)))
