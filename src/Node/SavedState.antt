-- ===== src/Node/SavedState.antt =====
-- The recovery of a saved state at a file that holds it.
use evm_oracle.Consensus.Message.{normal, view_changing}
use evm_oracle.Node.Restored.{KeepsNumbers, recover-save_state}
use evm_oracle.Node.Recovery.{
  StateCodec, save_state, state_number, number, absent, recover, StateFile, state_object, recovered,
  content,
}
use evm_oracle.Base.Dict.{Dict}
use evm_oracle.Base.{
  List, Bytes, ◌∷◌, String, if◌then◌else◌, Bool, [], ℕ, some, ◌∙◌, ◌≡◌, true, none, ap, false,
  arith, refl, string_eq, ◌==◌, eq_iff, ◌&&◌, nat_eq, sym,
}
use evm_oracle.Consensus.Engine.{Pbft, restore_state}
use mathlib.Core.Option.{map as option_map}
use evm_oracle.Base.Dict

abbrev engine : Pbft
engine = record {
  node_id = "a";
  nodes = "a" ∷ "b" ∷ [];
  networked = true;
  checkpoint_interval = 100;
  view = 2;
  sequence = 5;
  state = view_changing;
  is_leader = true;
  last_checkpoint = [];
  last_checkpoint_seq = 0;
  prepare_messages = Dict.empty;
  commit_messages = Dict.empty;
  view_change_msgs = Dict.empty;
  checkpoints = Dict.empty;
  consensus_reached = Dict.empty;
  msg_chan = [];
  senders = [];
  has_callback = false;
  f = 0;
  timer = false;
}

same_entries : List (String × ℕ) → List (String × ℕ) → Bool
same_entries [] [] = true
same_entries [] (b ∷ bs) = false
same_entries (a ∷ es) [] = false
same_entries ((k, v) ∷ es) ((j, w) ∷ bs) = k == j && (v == w && same_entries es bs)

same_entries-≡ : (es bs : List (String × ℕ)) → same_entries es bs ≡ true → es ≡ bs
unfolding same_entries
same_entries-≡ [] [] h = refl
same_entries-≡ [] (b ∷ bs) h = cc
same_entries-≡ (a ∷ es) [] h = cc
same_entries-≡ ((k, v) ∷ es) ((j, w) ∷ bs) h =
    let ih = same_entries-≡ es bs in ground (arith, eq_iff k j)

abbrev state : Dict String ℕ
state = state_object engine

-- A codec for one object
abbrev codec : StateCodec
codec = record {
  encode = λ m. if same_entries (Dict.items m) (Dict.items state) then some (7 ∷ []) else none;
  decode = λ bytes. some (Dict.map_values number state);
}

encoded_state : (m : Dict String ℕ) (bytes : Bytes) → codec.encode m ≡ some bytes → m ≡ state
encoded_state m bytes e =
    let same : same_entries (Dict.items m) (Dict.items state) ≡ true = ground arith in
    Dict.same_items m state (same_entries-≡ _ _ same)

codec-KeepsNumbers : KeepsNumbers codec
codec-KeepsNumbers = record {
  as_float = λ n. n;
  exact = λ n h. refl;
  object_of = λ bytes. Dict.map_values number state;
  decodes = λ m bytes e. refl;
  keeps = λ m bytes key n e known.
      Dict.get-map_values number state key
      ∙ ap (option_map number) (ap (λ d. Dict.get d key) (sym (encoded_state m bytes e)) ∙ known);
}

-- A write that succeeds
abbrev write : Bytes → Bool × StateFile
write bytes = (true, content bytes)

abbrev fresh : Pbft
fresh = record engine { view = 0; sequence = 0; state = normal; node_id = "b" }

saved : (save_state write codec engine absent).0 ≡ none
unfolding save_state same_entries Dict.items state_object Dict.put Dict.empty
saved = refl

recover-save_state_example :
    recover codec (save_state write codec engine absent).1 fresh
    ≡ recovered (restore_state 5 2 view_changing fresh)
unfolding state_number
recover-save_state_example =
    recover-save_state codec codec-KeepsNumbers engine fresh write absent (λ bytes h. refl) saved
      (omega arith) (omega arith) (omega arith)
