-- ===== src/Server/Similar.antt =====
-- What the similarity matrix of the server holds.
use evm_oracle.Server.Matrix.{
  put_some, put_each, compare_both, similarity_matrix, embedding_of, matrix_row, matrix_cell,
  embed_responses, lookup,
}
use evm_oracle.Base.Dict
use evm_oracle.Base.Dict.{Dict, keys, get-put, get-empty}
use evm_oracle.Similarity.Floats.{Float32, cosine_similarity_comm}
use evm_oracle.Base.{
  String, List, Option, some, none, [], ◌∷◌, Bool, true, false, ◌==◌, contains, if◌then◌else◌, ◌≡◌,
  refl, string_eq, Bool-cases, inl, inr, arith, ◌∙◌, ap, ==_sound, eq_iff, sym,
}

abbrev or_else {ℓ} : {A : Type ℓ} → Option A → Option A → Option A
or_else none other = other
or_else (some a) other = some a

module _ {ℓ} {V : Type ℓ} where
  or_else-none : (o : Option V) → or_else o none ≡ o
  or_else-none none = refl
  or_else-none (some v) = refl

  get-put_some :
      (a b : String) (o : Option V) (m : Dict String V)
      → Dict.get (put_some b o m) a ≡ or_else (if b == a then o else none) (Dict.get m a)
  get-put_some a b none m = ground arith
  get-put_some a b (some v) m = elim (Bool-cases (b == a)) [
    | inl e ↦ rw (get-put, e) refl
    | inr e ↦ rw (get-put, e) refl
  ]

  or_else_same : (o p : Option V) → or_else o (or_else o p) ≡ or_else o p
  or_else_same none p = refl
  or_else_same (some v) p = refl

  seen :
      (b : Bool) (o p : Option V) (rest : Option V)
      → o ≡ p
      → or_else (if b then p else none) (or_else o rest) ≡ or_else p rest
  seen true o p rest e = rw e (or_else_same p rest)
  seen false o p rest e = rw e refl

  get-put_each :
      (value : String → Option V) (ids : List String) (m : Dict String V) (a : String)
      → Dict.get (put_each value ids m) a
        ≡ or_else (if contains ids a then value a else none) (Dict.get m a)
  unfolding put_each
  get-put_each value [] m a = refl
  get-put_each value (id ∷ ids) m a = elim (Bool-cases (id == a)) [
    | inr e ↦
        rw (get-put_each value ids (put_some id (value id) m) a, get-put_some a id (value id) m, e)
          refl
    | inl e ↦
        rw (get-put_each value ids (put_some id (value id) m) a, get-put_some a id (value id) m, e)
          (seen (contains ids a) (value id) (value a) (Dict.get m a) (ap value (==_sound id a e)))
  ]

  -- With nothing written before, the value of each key of the loop
  each-key :
      (value : String → Option V) (ids : List String) (a : String)
      → contains ids a ≡ true
      → Dict.get (put_each value ids Dict.empty) a ≡ value a
  each-key value ids a h =
      get-put_each value ids Dict.empty a ∙ rw (h, get-empty {V = V} a) (or_else-none (value a))

-- The cell of two nodes: 1 for a node with itself, else the cosine similarity of the embeddings of the two
-- responses, if the service gives out both
abbrev expected :
    (fl : Float32)
    → (String → Option (List fl.F))
    → Dict String String
    → String
    → String
    → Option fl.F
expected fl embed responses a b =
    if a == b
    then some fl.one_f
    else compare_both fl embed (embedding_of fl embed responses a)
        (embedding_of fl embed responses b)

module _ (fl : Float32) (embed : String → Option (List fl.F)) where
  embedded :
      (responses : Dict String String) (a : String)
      → contains (keys responses) a ≡ true
      → Dict.get (embed_responses fl embed responses) a ≡ embedding_of fl embed responses a
  unfolding embed_responses
  embedded responses a h = each-key (embedding_of fl embed responses) (keys responses) a h

  cell_of :
      (embeddings : Dict String (List fl.F)) (ids : List String) (a b : String)
      → contains ids b ≡ true
      → Dict.get (matrix_row fl embed embeddings ids a) b ≡ matrix_cell fl embed embeddings a b
  unfolding matrix_row
  cell_of embeddings ids a b h = each-key (matrix_cell fl embed embeddings a) ids b h

  row_of :
      (responses : Dict String String) (a : String)
      → contains (keys responses) a ≡ true
      → Dict.get (similarity_matrix fl embed responses) a
        ≡ some (matrix_row fl embed (embed_responses fl embed responses) (keys responses) a)
  unfolding similarity_matrix
  row_of responses a h =
      let ids = keys responses in
      each-key (λ r. some (matrix_row fl embed (embed_responses fl embed responses) ids r)) ids a h

-- The matrix of a map of responses has a row for each node in the map, and in it, for each node in the map, 1 for the node itself, and else the cosine similarity of the embeddings of the two nodes' responses,
-- or nothing if the service has failed for one of them.
similarity_matrix-expected :
    (fl : Float32) (embed : String → Option (List fl.F)) (responses : Dict String String)
    (a b : String)
    → contains (keys responses) a ≡ true
    → contains (keys responses) b ≡ true
    → lookup fl embed (similarity_matrix fl embed responses) a b ≡ expected fl embed responses a b
unfolding matrix_cell
similarity_matrix-expected fl embed responses a b ha hb =
    let embeddings = embed_responses fl embed responses in
    rw
      (
        row_of fl embed responses a ha,
        cell_of fl embed embeddings (keys responses) a b hb,
        embedded fl embed responses a ha,
        embedded fl embed responses b hb,
      )
      refl

compare_both_comm :
    (fl : Float32) (embed : String → Option (List fl.F)) (x y : Option (List fl.F))
    → ((v w : fl.F) → fl.mul v w ≡ fl.mul w v)
    → compare_both fl embed x y ≡ compare_both fl embed y x
compare_both_comm fl embed none none comm = refl
compare_both_comm fl embed none (some y) comm = refl
compare_both_comm fl embed (some x) none comm = refl
compare_both_comm fl embed (some x) (some y) comm = ap some (cosine_similarity_comm fl comm x y)

same_turn : (a b : String) → (a == b) ≡ (b == a)
same_turn a b = ground (arith, eq_iff a b, eq_iff b a)

if_same {ℓ} :
    {A : Type ℓ} (b c : Bool)
    → b ≡ c
    → (x y z : A) → y ≡ z
    → (if b then x else y) ≡ (if c then x else z)
if_same b c e x y z f = rw (e, f) refl

-- Where the multiplication of float32 commutes, the matrix is symmetric.
similarity_matrix-symmetric :
    (fl : Float32) (embed : String → Option (List fl.F)) (responses : Dict String String)
    (a b : String)
    → ((v w : fl.F) → fl.mul v w ≡ fl.mul w v)
    → contains (keys responses) a ≡ true
    → contains (keys responses) b ≡ true
    → lookup fl embed (similarity_matrix fl embed responses) a b
      ≡ lookup fl embed (similarity_matrix fl embed responses) b a
similarity_matrix-symmetric fl embed responses a b comm ha hb =
    similarity_matrix-expected fl embed responses a b ha hb
    ∙ if_same (a == b) (b == a) (same_turn a b) _ _ _ (
        compare_both_comm fl embed (embedding_of fl embed responses a)
          (embedding_of fl embed responses b) comm)
    ∙ sym (similarity_matrix-expected fl embed responses b a hb ha)
