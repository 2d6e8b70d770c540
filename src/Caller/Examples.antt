-- ===== src/Caller/Examples.antt =====
-- The theorem at a wait whose first round fails.
use evm_oracle.Base.Results.{ok}
use mathlib.Core.Option.{some-injective}
use evm_oracle.Base.{none, some, ◌∷◌, subst, arith, [], ◌≢◌, refl, ◌≡◌}
use evm_oracle.Caller.Found.{Shows, Reaches, wait_for_response-found}
use evm_oracle.Caller.Wait.{View, first_event, ResponseEvent, wait_for_response}

abbrev unknown_height : View
unknown_height = record {
  block_number = none;
  filter_logs = λ from to. none;
  unpack = λ bytes. none;
}

abbrev responding : View
responding = record {
  block_number = some 12;
  filter_logs = λ from to. some ((1 ∷ []) ∷ []);
  unpack = λ bytes. some (record { response = "So."; ipfs_cid = "Qm" });
}

some_event : first_event responding.unpack ((1 ∷ []) ∷ []) ≢ none
unfolding first_event
some_event = λ e. cc

responding-Shows : Shows 11 responding
responding-Shows from to logs e h k =
    subst (λ l. first_event responding.unpack l ≢ none) (some-injective _ _ e) some_event

responding-Reaches : Reaches 11 responding
responding-Reaches = record {
  height = 12;
  known = refl;
  covers = omega arith;
  answers = λ from e. cc;
}

wait_for_response-found_example :
    (event : ResponseEvent) × (wait_for_response (some 10) (unknown_height ∷ responding ∷ [])
      ≡ ok event)
wait_for_response-found_example =
    wait_for_response-found 11 10 (unknown_height ∷ []) responding [] (omega arith)
      ((λ from to logs e. absurd (cc)), tt) responding-Shows responding-Reaches
