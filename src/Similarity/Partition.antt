-- ===== src/Similarity/Partition.antt =====
-- The clusters hold each response once.
use mathlib.Core.Bool.{false≢true}
use evm_oracle.Base.Dict
use evm_oracle.Base.{string_eq, ◌==◌, eq_iff, if◌then◌else◌, refl, ◌||◌, Bool-cases, ◌++◌, ◌∙◌, sym}
use evm_oracle.Base.Dict.{Dict, get-empty, get-put}
use evm_oracle.Similarity.Floats.{Float32}
use evm_oracle.Similarity.Clusters.{
  Response, is_used, collect, Cluster, form_clusters, form_cluster,
}
use evm_oracle.Base.{
  List, tally, String, ◌∷◌, Bool, contains, ◌≡◌, ℕ, IsDistinct, [], ◌⊎◌, not, true, false, ◌+◌,
  ◌&&◌, inl, arith, ==_refl, ap, inr,
}

abbrev pub ids : List Response → List String
ids [] = []
ids (r ∷ rest) = r.node_id ∷ ids rest

abbrev In : Response → List Response → Type 0
In r [] = ⊥
In r (x ∷ xs) = (x ≡ r) ⊎ In r xs

-- The number of responses that pass a test and that no cluster has yet
unused : (Response → Bool) → Dict String Bool → List Response → ℕ
unused p used xs = tally xs (λ r. not (is_used used r.node_id) && p r)

unused-cons :
    (p : Response → Bool) (used : Dict String Bool) (x : Response) (xs : List Response)
    → unused p used (x ∷ xs)
      ≡ (if not (is_used used x.node_id) && p x then 1 else 0) + unused p used xs
unfolding unused tally
unused-cons p used x xs = ground arith

is_used-put :
    (used : Dict String Bool) (id j : String)
    → is_used (Dict.put used id true) j ≡ (id == j || is_used used j)
unfolding is_used
is_used-put used id j = rw (get-put used id j true) (ground arith)

In-ids : (r : Response) (xs : List Response) → In r xs → contains (ids xs) r.node_id ≡ true
In-ids r [] h = elim h [ ]
In-ids r (x ∷ xs) (inl e) = ground (arith, ==_refl r.node_id, ap (λ (y : Response). y.node_id) e)
In-ids r (x ∷ xs) (inr h) = ground (arith, In-ids r xs h)

unused-put :
    (p : Response → Bool) (used : Dict String Bool) (id : String) (xs : List Response)
    → contains (ids xs) id ≡ false
    → unused p (Dict.put used id true) xs ≡ unused p used xs
unfolding unused tally
unused-put p used id [] h = refl
unused-put p used id (x ∷ xs) h = ground (
  arith,
  is_used-put used id x.node_id,
  eq_iff id x.node_id,
  eq_iff x.node_id id,
  unused-put p used id xs (ground arith),
)

unused-put_member :
    (p : Response → Bool) (used : Dict String Bool) (r : Response) (xs : List Response)
    → IsDistinct (ids xs)
    → In r xs
    → is_used used r.node_id ≡ false
    → unused p used xs ≡ (if p r then 1 else 0) + unused p (Dict.put used r.node_id true) xs
unused-put_member p used r [] d h free = elim h [ ]
unused-put_member p used r (x ∷ xs) d (inl e) free = ground (
  arith,
  unused-cons p used x xs,
  unused-cons p (Dict.put used r.node_id true) x xs,
  ap p e,
  same,
  ==_refl r.node_id,
  is_used-put used r.node_id x.node_id,
  unused-put p used r.node_id xs (ground (arith, d.0, same)),
)
  where
    same : x.node_id ≡ r.node_id
    same = ap (λ (y : Response). y.node_id) e
unused-put_member p used r (x ∷ xs) d (inr h) free = ground (
  arith,
  unused-cons p used x xs,
  unused-cons p (Dict.put used r.node_id true) x xs,
  is_used-put used r.node_id x.node_id,
  eq_iff r.node_id x.node_id,
  In-ids r xs h,
  d.0,
  unused-put_member p used r xs d.1 h free,
)

all_used :
    (p : Response → Bool) (used : Dict String Bool) (xs : List Response)
    → ((r : Response) → In r xs → is_used used r.node_id ≡ true)
    → unused p used xs ≡ 0
unfolding unused tally
all_used p used [] h = refl
all_used p used (x ∷ xs) h = ground (arith, h x (inl refl), all_used p used xs (λ r k. h r (inr k)))

none_used : (p : Response → Bool) (xs : List Response) → unused p Dict.empty xs ≡ tally xs p
unfolding unused tally is_used
none_used p [] = refl
none_used p (x ∷ xs) = ground (arith, get-empty {V = Bool} x.node_id, none_used p xs)

collect-others :
    (similar : Response → Bool) (xs : List Response) (used : Dict String Bool) (j : String)
    → contains (ids xs) j ≡ false
    → is_used (collect similar xs used).1 j ≡ is_used used j
unfolding collect
collect-others similar [] used j h = refl
collect-others similar (x ∷ xs) used j h =
    elim (Bool-cases (not (is_used used x.node_id) && similar x)) [
      | inl e ↦ rw e (
          collect-others similar xs (Dict.put used x.node_id true) j (ground arith)
          ∙ ground (arith, is_used-put used x.node_id j))
      | inr e ↦ rw e (collect-others similar xs used j (ground arith))
    ]

collect-keeps :
    (similar : Response → Bool) (xs : List Response) (used : Dict String Bool) (j : String)
    → is_used used j ≡ true
    → is_used (collect similar xs used).1 j ≡ true
unfolding collect
collect-keeps similar [] used j h = h
collect-keeps similar (x ∷ xs) used j h =
    elim (Bool-cases (not (is_used used x.node_id) && similar x)) [
      | inl e ↦ rw e (
          collect-keeps similar xs (Dict.put used x.node_id true) j
            (ground (arith, is_used-put used x.node_id j)))
      | inr e ↦ rw e (collect-keeps similar xs used j h)
    ]

collect-tally :
    (p similar : Response → Bool) (xs : List Response) (used : Dict String Bool)
    → IsDistinct (ids xs)
    → tally (collect similar xs used).0 p + unused p (collect similar xs used).1 xs
      ≡ unused p used xs
unfolding collect tally unused
collect-tally p similar [] used d = omega arith
collect-tally p similar (x ∷ xs) used d =
    elim (Bool-cases (not (is_used used x.node_id) && similar x)) [
      | inl e ↦
          let used' = Dict.put used x.node_id true in
          let mine : is_used used' x.node_id ≡ true =
            ground (arith, is_used-put used x.node_id x.node_id, ==_refl x.node_id) in
          rw e (
            ground (
              arith,
              unused-cons p used x xs,
              unused-cons p (collect similar xs used').1 x xs,
              collect-keeps similar xs used' x.node_id mine,
              unused-put p used x.node_id xs d.0,
              collect-tally p similar xs used' d.1,
            ))
      | inr e ↦ rw e (
          ground (
            arith,
            unused-cons p used x xs,
            unused-cons p (collect similar xs used).1 x xs,
            collect-others similar xs used x.node_id d.0,
            collect-tally p similar xs used d.1,
          ))
    ]

tally-nil : (p : Response → Bool) → tally [] p ≡ 0
unfolding tally
tally-nil p = refl

tally-append :
    (xs ys : List Response) (p : Response → Bool) → tally (xs ++ ys) p ≡ tally xs p + tally ys p
unfolding tally
tally-append [] ys p = omega arith
tally-append (x ∷ xs) ys p = ground (arith, tally-append xs ys p)

-- What is not used yet is still to come, also when `r` has been dealt with.
still_left :
    (all rest : List Response) (r : Response) (used used' : Dict String Bool)
    → ((j : String) → is_used used j ≡ true → is_used used' j ≡ true)
    → is_used used' r.node_id ≡ true
    → ((o : Response) → In o all → is_used used o.node_id ≡ false → In o (r ∷ rest))
    → (o : Response) → In o all
    → is_used used' o.node_id ≡ false
    → In o rest
still_left all rest r used used' keeps done left o k free =
    elim (Bool-cases (is_used used o.node_id)) [
      | inl old ↦ absurd (false≢true (sym free ∙ keeps o.node_id old))
      | inr new ↦ elim (left o k new) [
        | inr later ↦ later
        | inl e ↦
            absurd (
              false≢true (sym free ∙ ap (λ (y : Response). is_used used' y.node_id) (sym e) ∙ done))
      ]
    ]

module _ {fl : Float32} where
  -- The responses of all clusters
  abbrev pub members : List (Cluster fl) → List Response
  members [] = []
  members (c ∷ cs) = c.responses ++ members cs

module _ (fl : Float32) (sim : String → String → Float32.F fl) (threshold : Float32.F fl) where
  cluster-tally :
      (r : Response) (joined : List Response) (cs : List (Cluster fl)) (p : Response → Bool)
      → tally (members (form_cluster fl sim r joined ∷ cs)) p
        ≡ (if p r then 1 else 0) + tally joined p + tally (members cs) p
  unfolding form_cluster tally
  cluster-tally r joined cs p = ground (arith, tally-append (r ∷ joined) (members cs) p)

  clusters-tally :
      (all todo : List Response) (used : Dict String Bool) (p : Response → Bool)
      → IsDistinct (ids all)
      → ((o : Response) → In o todo → In o all)
      → ((o : Response) → In o all → is_used used o.node_id ≡ false → In o todo)
      → tally (members (form_clusters fl sim threshold all todo used)) p ≡ unused p used all
  unfolding form_clusters
  clusters-tally all [] used p d sub left = tally-nil p ∙ sym (all_used p used all gone)
    where
      gone : (r : Response) → In r all → is_used used r.node_id ≡ true
      gone r k = elim (Bool-cases (is_used used r.node_id)) [
        | inl e ↦ e
        | inr e ↦ absurd (left r k e)
      ]
  clusters-tally all (r ∷ rest) used p d sub left = elim (Bool-cases (is_used used r.node_id)) [
    | inl e ↦
        rw e (
          clusters-tally all rest used p d later
            (still_left all rest r used used (λ j h. h) e left))
    | inr e ↦ rw e (
        omega (
          arith,
          cluster-tally r joined.0 (form_clusters fl sim threshold all rest joined.1) p,
          collect-tally p similar all used' d,
          unused-put_member p used r all d (sub r (inl refl)) e,
          clusters-tally all rest joined.1 p d later (
              still_left all rest r used joined.1 keeps
                (collect-keeps similar all used' r.node_id mine) left),
        ))
  ]
    where
      similar : Response → Bool
      similar o = fl.ge (sim r.node_id o.node_id) threshold

      used' : Dict String Bool
      used' = Dict.put used r.node_id true

      joined : List Response × Dict String Bool
      joined = collect similar all used'

      mine : is_used used' r.node_id ≡ true
      mine = ground (arith, is_used-put used r.node_id r.node_id, ==_refl r.node_id)

      keeps : (j : String) → is_used used j ≡ true → is_used joined.1 j ≡ true
      keeps j h = collect-keeps similar all used' j (ground (arith, is_used-put used r.node_id j))

      later : (o : Response) → In o rest → In o all
      later o h = sub o (inr h)

  -- Where the responses have distinct node IDs, the clusters that are formed partition them: each test
  -- holds for as many members of the clusters together as responses, whatever the similarities.
  pub form_clusters-tally :
      (all : List Response) (p : Response → Bool)
      → IsDistinct (ids all)
      → tally (members (form_clusters fl sim threshold all all Dict.empty)) p ≡ tally all p
  form_clusters-tally all p d =
      clusters-tally all all Dict.empty p d (λ o h. h) (λ o h free. h) ∙ none_used p all
