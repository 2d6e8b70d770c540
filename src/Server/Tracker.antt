-- ===== src/Server/Tracker.antt =====
-- oracle/cmd/server/main.go: what the handler of /prompt records of the nodes' messages.
use evm_oracle.Base.Dict
use evm_oracle.Base.Dict.{Dict}
use evm_oracle.Consensus.Message.{
  pre_prepare, prepare, commit, view_change, new_view, state_transfer, unknown, MessageType,
}
use evm_oracle.Base.{
  ◌∷◌, some, none, String, Option, ℕ, List, Bool, [], true, if◌then◌else◌, ◌++◌, ◌+◌, leb,
  string_eq, ◌==◌, ◌-◌, false, nat_eq,
}

-- pbftMessage: who handled a message of which type and sequence number
pub record PbftMessage : Type 0 where
  pub node_id : String
  pub kind : MessageType
  pub sequence : ℕ

-- "Message verification maps"; those of sequence numbers are keyed by the numbers.
pub record Tracker : Type 0 where
  pub pre_prepare_received : Dict String Bool
  pub prepare_messages : Dict ℕ (Dict String Bool)
  pub commit_messages : Dict ℕ (Dict String Bool)
  pub messages_by_node : Dict String (List MessageType)

abbrev pub new_tracker : Tracker
new_tracker = record {
  pre_prepare_received = Dict.empty;
  prepare_messages = Dict.empty;
  commit_messages = Dict.empty;
  messages_by_node = Dict.empty;
}

abbrev pub or_new {ℓ} : {A : Type ℓ} → A → Option A → A
or_new a none = a
or_new a (some b) = b

unfoldable pub mark : ℕ → String → Dict ℕ (Dict String Bool) → Dict ℕ (Dict String Bool)
mark sequence node_id sent =
    Dict.put sent sequence (Dict.put (or_new Dict.empty (Dict.get sent sequence)) node_id true)

-- The switch on the type; the argument is the ID of node 0.
unfoldable pub track_kind : String → PbftMessage → MessageType → Tracker → Tracker
unfolding mark
track_kind leader m pre_prepare t =
    if m.node_id == leader
    then t
    else record t { pre_prepare_received = Dict.put t.pre_prepare_received m.node_id true }
track_kind leader m prepare t = record t {
  prepare_messages = mark m.sequence m.node_id t.prepare_messages;
}
track_kind leader m commit t = record t {
  commit_messages = mark m.sequence m.node_id t.commit_messages;
}
track_kind leader m view_change t = t
track_kind leader m new_view t = t
track_kind leader m state_transfer t = t
track_kind leader m (unknown n) t = t

unfoldable pub track : String → PbftMessage → Tracker → Tracker
unfolding track_kind
track leader m t = track_kind leader m m.kind (record t {
  messages_by_node =
      Dict.put t.messages_by_node m.node_id
        (or_new [] (Dict.get t.messages_by_node m.node_id) ++ m.kind ∷ []);
})

unfoldable pub track_all : String → List PbftMessage → Tracker → Tracker
track_all leader [] t = t
track_all leader (m ∷ ms) t = track_all leader ms (track leader m t)

abbrev count_true : List (String × Bool) → ℕ
count_true [] = 0
count_true ((id, true) ∷ rest) = count_true rest + 1
count_true ((id, false) ∷ rest) = count_true rest

-- receivedCount: the followers that were seen with a PrePrepare
unfoldable pub received_count : String → Tracker → ℕ
received_count leader t = count_true (Dict.items (Dict.delete t.pre_prepare_received leader))

unfoldable pub all_received : String → ℕ → Tracker → Bool
unfolding received_count
all_received leader nodes t = leb (nodes - 1) (received_count leader t)
