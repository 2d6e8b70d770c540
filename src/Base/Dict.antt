-- ===== src/Base/Dict.antt =====
-- Go's maps: an association list behind the laws of `dict_laws`. A write replaces the entry of its
-- key in place, so `size` counts keys. Where the code ranges over a map, the order is not modelled.
use Prim.Native.Nat.{ℕ, suc}
use mathlib.Core.Path.{◌≡◌, refl, ap}
use mathlib.Core.Bool.{not, Bool, ◌||◌, false}
use mathlib.Core.List.{List, [], ◌∷◌}
use mathlib.Core.Option
use mathlib.Core.Option.{Option, none, some}
use mathlib.Core.Logic.{inl, inr}
use native.Mathlib.Omega.{arith}
use evm_oracle.Base.Tests.{Comparable, Bool-cases, ◌==◌, if◌then◌else◌}
use evm_oracle.Base.Lists.{length, contains, IsDistinct}

pub record Dict {ℓ κ} (K : Type ℓ) (V : Type κ) : Type (ℓ ⊔ κ) where
  entries : List (K × V)

module _ {ℓ κ} {K : Type ℓ} {V : Type κ} where
  unfoldable pub empty : Dict K V
  empty = record { entries = [] }

  keys_list : List (K × V) → List K
  keys_list [] = []
  keys_list ((k, v) ∷ r) = k ∷ keys_list r

  unfoldable pub keys : Dict K V → List K
  unfolding keys_list
  keys m = keys_list m.entries

  -- The entries, in an order of their own
  unfoldable pub items : Dict K V → List (K × V)
  items m = m.entries

  pub same_items : (m m' : Dict K V) → items m ≡ items m' → m ≡ m'
  unfolding items
  same_items m m' e = λ i. record { entries = e i }

  -- len(m)
  unfoldable pub size : Dict K V → ℕ
  size m = length m.entries

  retain_list : (K → Bool) → List (K × V) → List (K × V)
  retain_list p [] = []
  retain_list p ((k, v) ∷ r) = let rest = retain_list p r in if p k then (k, v) ∷ rest else rest

  -- for k := range m { if !p(k) { delete(m, k) } }
  unfoldable pub retain : (K → Bool) → Dict K V → Dict K V
  unfolding retain_list
  retain p m = record { entries = retain_list p m.entries }

module _ {ℓ κ} {K : Type ℓ} {V : Type κ} ⦃k_eq : Comparable K⦄ where
  get_list : List (K × V) → K → Option V
  get_list [] j = none
  get_list ((k, v) ∷ r) j = if k == j then some v else get_list r j

  put_list : List (K × V) → K → V → List (K × V)
  put_list [] j w = (j, w) ∷ []
  put_list ((k, v) ∷ r) j w = if k == j then (k, w) ∷ r else (k, v) ∷ put_list r j w

  -- v, exists := m[k]
  unfoldable pub get : Dict K V → K → Option V
  unfolding get_list
  get m j = get_list m.entries j

  -- m[k] = v
  unfoldable pub put : Dict K V → K → V → Dict K V
  unfolding put_list
  put m j w = record { entries = put_list m.entries j w }

  -- delete(m, k)
  unfoldable pub delete : Dict K V → K → Dict K V
  delete m k = retain (λ j. not (k == j)) m

  get-put_list :
      (r : List (K × V)) (k j : K) (w : V)
      → get_list (put_list r k w) j ≡ (if k == j then some w else get_list r j)
  unfolding get_list put_list
  get-put_list [] k j w = refl
  get-put_list ((i, v) ∷ r) k j w =
      ground (arith, get-put_list r k j w, k_eq.same_iff i k, k_eq.same_iff k j, k_eq.same_iff i j)

  get-retain_list :
      (p : K → Bool) (r : List (K × V)) (j : K)
      → get_list (retain_list p r) j ≡ (if p j then get_list r j else none)
  unfolding get_list retain_list
  get-retain_list p [] j = ground arith
  get-retain_list p ((i, v) ∷ r) j = ground (arith, get-retain_list p r j, k_eq.same_iff i j)

  keys-put_list :
      (r : List (K × V)) (k j : K) (w : V)
      → contains (keys_list (put_list r k w)) j ≡ (k == j || contains (keys_list r) j)
  unfolding keys_list put_list
  keys-put_list [] k j w = refl
  keys-put_list ((i, v) ∷ r) k j w =
      ground (arith, keys-put_list r k j w, k_eq.same_iff i k, k_eq.same_iff k j, k_eq.same_iff i j)

  put-IsDistinct_list :
      (r : List (K × V)) (k : K) (w : V)
      → IsDistinct (keys_list r)
      → IsDistinct (keys_list (put_list r k w))
  unfolding keys_list put_list
  put-IsDistinct_list [] k w h = (refl, tt)
  put-IsDistinct_list ((i, v) ∷ r) k w h = ground (
    arith,
    put-IsDistinct_list r k w h.1,
    keys-put_list r k i w,
    k_eq.same_iff i k,
    k_eq.same_iff k i,
  )

  pub get-empty : (j : K) → get (empty {V = V}) j ≡ none
  unfolding get empty
  get-empty j = refl

  pub get-put :
      (m : Dict K V) (k j : K) (w : V) → get (put m k w) j ≡ (if k == j then some w else get m j)
  unfolding get put
  get-put m = get-put_list m.entries

  pub get-retain :
      (p : K → Bool) (m : Dict K V) (j : K) → get (retain p m) j ≡ (if p j then get m j else none)
  unfolding get retain
  get-retain p m = get-retain_list p m.entries

  pub get-delete :
      (m : Dict K V) (k j : K) → get (delete m k) j ≡ (if k == j then none else get m j)
  unfolding delete
  get-delete m k j = rw get-retain (ground arith)

  pub keys-put :
      (m : Dict K V) (k j : K) (w : V)
      → contains (keys (put m k w)) j ≡ (k == j || contains (keys m) j)
  unfolding keys put
  keys-put m = keys-put_list m.entries

  pub put-IsDistinct :
      (m : Dict K V) (k : K) (w : V) → IsDistinct (keys m) → IsDistinct (keys (put m k w))
  unfolding keys put
  put-IsDistinct m = put-IsDistinct_list m.entries

module _ {ℓ κ} {K : Type ℓ} {V : Type κ} ⦃k_eq : Comparable K⦄ where
  length-keys_list : (r : List (K × V)) → length (keys_list r) ≡ length r
  unfolding keys_list
  length-keys_list [] = refl
  length-keys_list ((i, v) ∷ r) = ap suc (length-keys_list r)

  length-put_list :
      (r : List (K × V)) (k : K) (w : V)
      → length (put_list r k w) ≡ (if contains (keys_list r) k then length r else suc (length r))
  unfolding keys_list put_list
  length-put_list [] k w = refl
  length-put_list ((i, v) ∷ r) k w = ground (arith, length-put_list r k w)

  pub length-keys : (m : Dict K V) → length (keys m) ≡ size m
  unfolding keys size
  length-keys m = length-keys_list m.entries

  pub size-put :
      (m : Dict K V) (k : K) (w : V)
      → size (put m k w) ≡ (if contains (keys m) k then size m else suc (size m))
  unfolding keys size put
  size-put m = length-put_list m.entries

  get-not_key_list :
      (r : List (K × V)) (j : K) → contains (keys_list r) j ≡ false → get_list r j ≡ none
  unfolding keys_list get_list
  get-not_key_list [] j h = refl
  get-not_key_list ((i, v) ∷ r) j h = ground (arith, get-not_key_list r j)

  pub get-not_key : (m : Dict K V) (j : K) → contains (keys m) j ≡ false → get m j ≡ none
  unfolding keys get
  get-not_key m = get-not_key_list m.entries

module _ {ℓ κ μ} {K : Type ℓ} {V : Type κ} {W : Type μ} ⦃k_eq : Comparable K⦄ (f : V → W) where
  map_values_list : List (K × V) → List (K × W)
  map_values_list [] = []
  map_values_list ((k, v) ∷ r) = (k, f v) ∷ map_values_list r

  -- A write of every value
  unfoldable pub map_values : Dict K V → Dict K W
  unfolding map_values_list
  map_values m = record { entries = map_values_list m.entries }

  get-map_values_list :
      (r : List (K × V)) (j : K) → get_list (map_values_list r) j ≡ Option.map f (get_list r j)
  unfolding map_values_list get_list
  get-map_values_list [] j = refl
  get-map_values_list ((i, v) ∷ r) j = elim (Bool-cases (i == j)) [
    | inl e ↦ rw e refl
    | inr e ↦ rw e (get-map_values_list r j)
  ]

  pub get-map_values : (m : Dict K V) (j : K) → get (map_values m) j ≡ Option.map f (get m j)
  unfolding get map_values
  get-map_values m = get-map_values_list m.entries

pub keys-empty {ℓ κ} : (K : Type ℓ) (V : Type κ) → keys (empty {K = K} {V = V}) ≡ []
unfolding keys empty
keys-empty K V = refl
