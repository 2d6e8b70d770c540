-- ===== src/Server/Verdict.antt =====
-- When the server counts the consensus as reached.
use mathlib.Core.Bool.{false≢true}
use evm_oracle.Node.Requests.{OracleNode}
use evm_oracle.Similarity.Floats.{Float32}
use evm_oracle.Server.Prompt.{check_texts, check_results, agreed_texts}
use evm_oracle.Base.{
  List, String, ◌∷◌, ◌≢◌, true, if◌then◌else◌, All, ◌≡◌, ◌==◌, ◌↔◌, [], false, Bool-cases,
  string_eq, arith, inl, eq_iff, inr, refl, sym, ◌∙◌, subst,
}

-- The texts after those at the front that are empty
unfoldable pub drop_empty : List String → List String
drop_empty [] = []
drop_empty (text ∷ rest) = if text == "" then drop_empty rest else text ∷ rest

abbrev pub AllSame : List String → Type 0
AllSame [] = Unit
AllSame (text ∷ rest) = All (λ other. other ≡ text) rest

check_texts-same :
    (texts : List String) (final : String)
    → final ≢ ""
    → ((check_texts texts (final, true)).1 ≡ true) ↔ All (λ other. other ≡ final) texts
unfolding check_texts
check_texts-same [] final h = ((λ e. tt), (λ e. refl))
check_texts-same (text ∷ rest) final h =
    let ih = check_texts-same rest final h in
    let named : (final == "") ≡ false = ground (arith, eq_iff final "") in
    elim (Bool-cases (text == final)) [
      | inl e ↦
          rw (named, e, check_texts) ((λ r. ((eq_iff text final).0 e, ih.0 r)), (λ a. ih.1 a.1))
      | inr e ↦
          rw (named, e, check_texts)
            (
              (λ r. absurd (false≢true r)),
              (λ a. absurd (false≢true (sym e ∙ (eq_iff text final).1 a.0))),
            )
    ]

check_texts-AllSame :
    (texts : List String) → ((check_texts texts ("", true)).1 ≡ true) ↔ AllSame (drop_empty texts)
unfolding check_texts drop_empty
check_texts-AllSame [] = ((λ e. tt), (λ e. refl))
check_texts-AllSame (text ∷ rest) = elim (Bool-cases (text == "")) [
  | inl e ↦
      subst
        (λ t.
          ((check_texts rest (t, true)).1 ≡ true)
          ↔ AllSame (if t == "" then drop_empty rest else t ∷ rest))
        (sym ((eq_iff text "").0 e)) (check_texts-AllSame rest)
  | inr e ↦
      let named : text ≢ "" = λ h. false≢true (sym e ∙ (eq_iff text "").1 h) in
      rw (e, drop_empty) (check_texts-same rest text named)
]

verdict :
    (texts : List String)
    → ((check_texts texts ("", false)).1 ≡ true) ↔ ((texts ≢ []) × AllSame (drop_empty texts))
unfolding check_texts
verdict [] = ((λ e. absurd (false≢true e)), (λ h. absurd (h.0 refl)))
verdict (text ∷ rest) =
    let same = check_texts-AllSame (text ∷ rest) in
    ((λ e. ((λ h. cc), same.0 e)), (λ h. same.1 h.1))

-- The server counts the consensus as reached exactly if some node's request is complete with a response, and
-- all the texts of such responses are the same from the first that is not empty on, in the nodes' order.
pub check_results_iff :
    (fl : Float32) (id : String) (nodes : List (OracleNode fl))
    → let texts = agreed_texts fl id nodes in
      ((check_results fl id nodes).1 ≡ true) ↔ ((texts ≢ []) × AllSame (drop_empty texts))
unfolding check_results
check_results_iff fl id nodes = verdict (agreed_texts fl id nodes)
