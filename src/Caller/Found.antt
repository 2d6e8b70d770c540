-- ===== src/Caller/Found.antt =====
-- That the answer is found.
use evm_oracle.Base.Results.{Result, err, ok}
use evm_oracle.Caller.Wait.{
  check_block, wait_rounds, wait_for_response, View, scan, ResponseEvent, first_event, WaitError,
  proceed,
}
use evm_oracle.Base.{
  ℕ, List, Bytes, ◌≡◌, Option, ◌<◌, All, some, ◌++◌, ◌≤◌, ◌∷◌, none, ◌≢◌, Option-cases, if_cases,
  subst, ap, ◌==◌, sym, inl, arith, refl, inr, [], nat_eq,
}

-- Where a query covers a block, its logs hold an event of it that decodes.
abbrev pub Shows : ℕ → View → Type 0
Shows b v =
    (from to : ℕ) (logs : List Bytes)
    → v.filter_logs from to ≡ some logs
    → from ≤ b
    → b ≤ to
    → first_event v.unpack logs ≢ none

-- A round after the block whose queries succeed
pub record Reaches (b : ℕ) (v : View) : Type 0 where
  pub height : ℕ
  pub known : v.block_number ≡ some height
  pub covers : b ≤ height
  pub answers : (from : ℕ) → v.filter_logs from height ≢ none

-- What a round does to a wait that has not come to the block
abbrev Advances : ℕ → Result ResponseEvent ℕ → Type 0
Advances b (ok last) = last < b
Advances b (err event) = Unit

scan-Advances :
    (b : ℕ) (v : View) (last current : ℕ)
    → Shows b v
    → last < b
    → Advances b (scan v last current (v.filter_logs last current))
unfolding scan
scan-Advances b v last current shows h = elim (Option-cases (v.filter_logs last current)) [
  | inl e ↦ rw e h
  | inr (logs, e) ↦ elim (Option-cases (first_event v.unpack logs)) [
    | inl k ↦ rw (e, k) (ground (arith, shows last current logs e (omega arith), k))
    | inr (event, k) ↦ rw (e, k) tt
  ]
]

check_block-Advances :
    (b : ℕ) (v : View) (last : ℕ) (o : Option ℕ)
    → Shows b v
    → last < b
    → Advances b (check_block v last o)
unfolding check_block scan
check_block-Advances b v last none shows h = h
check_block-Advances b v last (some current) shows h =
    if_cases (Advances b) (current == last) _ _ (λ t. h)
      (λ t. scan-Advances b v last current shows h)

scan-Reaches :
    (b : ℕ) (v : View) (last : ℕ) (reaches : Reaches b v)
    → Shows b v
    → last < b
    → (event : ResponseEvent) × (check_block v last (some reaches.height) ≡ err event)
unfolding check_block scan
scan-Reaches b v last reaches shows h =
    let current = reaches.height in
    let covers = reaches.covers in
    if_cases (λ r. (event : ResponseEvent) × (r ≡ err event)) (current == last) _ _
      (λ t. absurd (ground (arith, covers)))
      (λ t. elim (Option-cases (v.filter_logs last current)) [
        | inl e ↦ absurd (reaches.answers last e)
        | inr (logs, e) ↦ elim (Option-cases (first_event v.unpack logs)) [
          | inl k ↦ absurd (shows last current logs e (omega arith) covers k)
          | inr (event, k) ↦ (event, rw (e, k) refl)
        ]
      ])

check_block-Reaches :
    (b : ℕ) (v : View) (last : ℕ)
    → Shows b v
    → Reaches b v
    → last < b
    → (event : ResponseEvent) × (check_block v last v.block_number ≡ err event)
check_block-Reaches b v last shows reaches h =
    subst (λ o. (event : ResponseEvent) × (check_block v last o ≡ err event)) (sym reaches.known)
      (scan-Reaches b v last reaches shows h)

-- A round that returns or goes on with a wait that finds
proceed-found :
    (b : ℕ) (next : ℕ → Result WaitError ResponseEvent) (r : Result ResponseEvent ℕ)
    → Advances b r
    → ((last : ℕ) → last < b → (event : ResponseEvent) × (next last ≡ ok event))
    → (event : ResponseEvent) × (proceed next r ≡ ok event)
proceed-found b next (ok last) h found = found last h
proceed-found b next (err event) h found = (event, refl)

wait_rounds-found :
    (b : ℕ) (front : List View) (v : View) (back : List View) (start last : ℕ)
    → All (Shows b) front
    → Shows b v
    → Reaches b v
    → last < b
    → (event : ResponseEvent) × (wait_rounds (front ++ v ∷ back) start last ≡ ok event)
unfolding wait_rounds
wait_rounds-found b [] v back start last all shows reaches h =
    let (event, e) = check_block-Reaches b v last shows reaches h in
    (event, ap (proceed (wait_rounds back start)) e)
wait_rounds-found b (u ∷ front) v back start last all shows reaches h =
    proceed-found b (wait_rounds (front ++ v ∷ back) start) _
      (check_block-Advances b u last u.block_number all.0 h)
      (λ next k. wait_rounds-found b front v back start next all.1 shows reaches k)

-- If the response is in a block after the start, and every query that covers the block has an event of it
-- that decodes, then waitForResponse returns an event as soon as a round before the timeout sees that block
-- and its query succeeds, whatever failed before.
pub wait_for_response-found :
    (b start : ℕ) (front : List View) (v : View) (back : List View)
    → start < b
    → All (Shows b) front
    → Shows b v
    → Reaches b v
    → (event : ResponseEvent) × (wait_for_response (some start) (front ++ v ∷ back) ≡ ok event)
unfolding wait_for_response
wait_for_response-found b start front v back h all shows reaches =
    wait_rounds-found b front v back start start all shows reaches h
