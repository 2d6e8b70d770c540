-- ===== src/Server/Turns.antt =====
-- The loop of handlePrompt that submits a prompt, by the turns of the nodes.
use Prim.Native.Nat.{zero}
use evm_oracle.Consensus.Message.{Env}
use evm_oracle.Node.Prompts.{Services, process_prompt}
use evm_oracle.Node.Requests.{NodeError, OracleNode}
use evm_oracle.Server.Prompt.{node_at, set_node, submit, Meanwhile}
use evm_oracle.Similarity.Floats.{Float32}
use evm_oracle.Base.{
  List, String, ℕ, Option, some, none, [], ◌∷◌, suc, length, ◌≡◌, ◌<◌, ◌+◌, arith, refl, ◌⊎◌, inl,
  inr, ◌∙◌, sym, ap, subst, Option-cases, Bool-cases, ◌==◌, nat_eq, ==_sound,
}

module _ {fl : Float32} where
  pub node_at-some :
      (i : ℕ) (nodes : List (OracleNode fl))
      → i < length nodes
      → (n : OracleNode fl) × (node_at fl i nodes ≡ some n)
  unfolding node_at
  node_at-some i [] h = absurd (omega arith)
  node_at-some zero (n ∷ nodes) h = (n, refl)
  node_at-some (suc i) (n ∷ nodes) h = node_at-some i nodes (omega arith)

  pub length-set_node :
      (i : ℕ) (m : OracleNode fl) (nodes : List (OracleNode fl))
      → length (set_node fl i m nodes) ≡ length nodes
  unfolding set_node
  length-set_node i m [] = refl
  length-set_node zero m (n ∷ nodes) = refl
  length-set_node (suc i) m (n ∷ nodes) = ap suc (length-set_node i m nodes)

  -- What the nodes do leaves the slice of the nodes as long as it is.
  abbrev pub KeepsLength : Meanwhile fl → Type 0
  KeepsLength meanwhile = (i : ℕ) (ns : List (OracleNode fl)) → length (meanwhile i ns) ≡ length ns

  module _ (w : Services) (env : Env) (now : ℕ) (id prompt : String) (meanwhile : Meanwhile fl)
      (nodes : List (OracleNode fl)) where
    -- The nodes with the one of a number as the prompt leaves it
    unfoldable pub took : ℕ → List (OracleNode fl) → List (OracleNode fl)
    took i ns = elim (node_at fl i ns) [
      | none ↦ ns
      | some n ↦ set_node fl i (process_prompt fl w env now id prompt n).1 ns
    ]

    -- The nodes when it is a number's turn, if all those before have had theirs
    abbrev pub at_turn : ℕ → List (OracleNode fl)
    at_turn zero = nodes
    at_turn (suc k) = meanwhile k (took k (at_turn k))

    -- The node of a number returns this error, or none, to the prompt in its turn.
    abbrev pub Turn : ℕ → Option NodeError → Type 0
    Turn k failure =
        (n : OracleNode fl) × (node_at fl k (at_turn k) ≡ some n)
        × ((process_prompt fl w env now id prompt n).0 ≡ failure)

    -- All of the first nodes process the prompt without an error.
    abbrev pub AllTurns : ℕ → Type 0
    AllTurns k = (j : ℕ) → j < k → Turn j none

    -- The node of a number is the first that fails.
    abbrev pub FirstFailure : ℕ → NodeError → Type 0
    FirstFailure k e = (k < length nodes) × Turn k (some e) × AllTurns k

    length-took : (i : ℕ) (ns : List (OracleNode fl)) → length (took i ns) ≡ length ns
    unfolding took
    length-took i ns = elim (Option-cases (node_at fl i ns)) [
      | inl e ↦ rw (e, took) refl
      | inr (n, e) ↦ rw (e, took) (length-set_node i _ ns)
    ]

    length-at_turn : KeepsLength meanwhile → (k : ℕ) → length (at_turn k) ≡ length nodes
    length-at_turn keeps zero = refl
    length-at_turn keeps (suc k) =
        keeps k (took k (at_turn k)) ∙ length-took k (at_turn k) ∙ length-at_turn keeps k

    at_turn-next :
        (i : ℕ) (n : OracleNode fl)
        → node_at fl i (at_turn i) ≡ some n
        → at_turn (i + 1)
          ≡ meanwhile i (set_node fl i (process_prompt fl w env now id prompt n).1 (at_turn i))
    unfolding took
    at_turn-next i n found =
        let next : i + 1 ≡ suc i = omega arith in ap at_turn next ∙ rw (found, took) refl

    AllTurns-next : (k : ℕ) → AllTurns k → Turn k none → AllTurns (k + 1)
    AllTurns-next k before now_k j h = elim (Bool-cases (j == k)) [
      | inl e ↦ subst (λ i. Turn i none) (sym (==_sound j k e)) now_k
      | inr e ↦ before j (ground arith)
    ]

    -- How the loop ends
    abbrev pub Submitted : Option NodeError × List (OracleNode fl) → Type 0
    Submitted r =
        (AllTurns (length nodes) × (r ≡ (none, at_turn (length nodes))))
        ⊎ ((k : ℕ) × (e : NodeError) × FirstFailure k e × (r.0 ≡ some e))

    submit-from :
        KeepsLength meanwhile
        → (left i : ℕ) → i + left ≡ length nodes
        → AllTurns i
        → Submitted (submit fl w env now id prompt meanwhile i left (at_turn i))
    unfolding submit
    submit-from keeps zero i e before =
        let same : i ≡ length nodes = omega arith in
        inl (subst AllTurns same before, ap (λ k. (none, at_turn k)) same)
    submit-from keeps (suc left) i e before =
        let (n, found) = node_at-some i (at_turn i) (omega (arith, length-at_turn keeps i)) in
        elim (Option-cases (process_prompt fl w env now id prompt n).0) [
          | inr (failure, f) ↦
              rw (found, f, submit) (inr (i, failure, (omega arith, (n, found, f), before), refl))
          | inl f ↦
              rw (found, f, submit)
                (subst (λ ns. Submitted (submit fl w env now id prompt meanwhile (i + 1) left ns))
                  (at_turn-next i n found)
                  (submit-from keeps left (i + 1) (omega arith)
                    (AllTurns-next i before (n, found, f))))
        ]

    -- The loop gives the prompt to every node in turn, up to the first that returns an error: without such an error
    -- it ends with what the turns of all nodes leave, else with that error.
    pub submit-Submitted :
        KeepsLength meanwhile
        → Submitted (submit fl w env now id prompt meanwhile 0 (length nodes) nodes)
    submit-Submitted keeps =
        submit-from keeps (length nodes) 0 (omega arith) (λ j h. absurd (omega arith))
