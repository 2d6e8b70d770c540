-- ===== src/Consensus/Validation.antt =====
-- Which messages ProcessMessage lets in, and what letting one in does to those that follow.
use Prim.Native.Nat.{max}
use evm_oracle.Consensus.Message.{
  ConsensusMessage, MessageType, unknown, invalid_sequence, pre_prepare, prepare, commit,
  view_change, new_view, state_transfer,
}
use evm_oracle.Consensus.Validate.{
  is_behind, validate_type, validate, process_message, queued, refused, chan_capacity,
}
use evm_oracle.Consensus.Engine.{Pbft}
use evm_oracle.Base.{
  [], ◌∷◌, ℕ, contains, ◌<◌, ◌≡◌, true, u64_mod, none, ◌⊎◌, ◌≤◌, false, ◌+◌, ◌↔◌, arith, ◌++◌,
  string_eq, eq_iff, length, refl,
}

-- What the switch on the message type asks for
abbrev pub IsAllowed : Pbft → ConsensusMessage → MessageType → Type 0
IsAllowed p m pre_prepare = m.node_id ≡ p.node_id → p.is_leader ≡ true
IsAllowed p m prepare = Unit
IsAllowed p m commit = Unit
IsAllowed p m view_change = (p.view ≡ 0) ⊎ (p.view < m.view)
IsAllowed p m new_view = (p.view ≡ 0) ⊎ (p.view < m.view)
IsAllowed p m state_transfer = ⊥
IsAllowed p m (unknown n) = ⊥

pub record IsAdmissible (p : Pbft) (m : ConsensusMessage) : Type 0 where
  pub member : contains p.nodes m.node_id ≡ true
  pub recent : (p.sequence ≤ 1) ⊎ (p.sequence ≤ m.sequence + 1)
  pub in_view : (p.view ≤ 1) ⊎ (p.view ≤ m.view + 1)
  pub allowed : IsAllowed p m m.kind

is_behind-false : (r own : ℕ) → own < u64_mod → is_behind r own ≡ false → (own ≤ 1) ⊎ (own ≤ r + 1)
unfolding is_behind
is_behind-false r own h e = ground arith

is_behind-true : (r own : ℕ) → own < u64_mod → is_behind r own ≡ true → (1 < own) × (r + 1 < own)
unfolding is_behind
is_behind-true r own h e = ground arith

validate_type-none :
    (p : Pbft) (m : ConsensusMessage) (k : MessageType)
    → (validate_type p m k ≡ none) ↔ IsAllowed p m k
unfolding validate_type
validate_type-none p m pre_prepare = (
  (λ e same. ground (arith, eq_iff m.node_id p.node_id)),
  (λ h. ground (arith, eq_iff m.node_id p.node_id)),
)
validate_type-none p m prepare = ((λ _. tt), (λ _. refl))
validate_type-none p m commit = ((λ _. tt), (λ _. refl))
validate_type-none p m view_change = ((λ e. ground arith), (λ h. ground arith))
validate_type-none p m new_view = ((λ e. ground arith), (λ h. ground arith))
validate_type-none p m state_transfer = ((λ e. cc), (λ h. absurd h))
validate_type-none p m (unknown n) = ((λ e. cc), (λ h. absurd h))

-- A message passes validation exactly when its sender is a member, its sequence number and its view are
-- at most one behind the engine's (any are let in while the engine's is at most 1), and its type
-- allows it: a pre-prepare in the engine's own name only if the engine leads, a view change or new view
-- only for a later view (or while the view is 0), no state transfer and no unknown type.
pub validate_iff :
    (p : Pbft) (m : ConsensusMessage)
    → p.sequence < u64_mod
    → p.view < u64_mod
    → (validate p m ≡ none) ↔ IsAdmissible p m
unfolding validate
validate_iff p m hs hv = (forward, backward)
  where
    forward : validate p m ≡ none → IsAdmissible p m
    forward e = record {
      member = ground arith;
      recent = is_behind-false m.sequence p.sequence hs (ground arith);
      in_view = is_behind-false m.view p.view hv (ground arith);
      allowed = (validate_type-none p m m.kind).0 (ground arith);
    }

    backward : IsAdmissible p m → validate p m ≡ none
    backward a = ground (
      arith,
      a.member,
      a.recent,
      a.in_view,
      is_behind-true m.sequence p.sequence hs,
      is_behind-true m.view p.view hv,
      (validate_type-none p m m.kind).1 a.allowed,
    )

-- What a queued message does to the engine: the sequence number and the view become the greater of the
-- engine's and the message's, the message goes to the end of the channel, which had room for it, and
-- came from a member.
process_message-queued :
    (p q : Pbft) (m : ConsensusMessage)
    → process_message p m ≡ queued q
    → (q.sequence ≡ max p.sequence m.sequence)
      × (q.view ≡ max p.view m.view)
      × (q.msg_chan ≡ p.msg_chan ++ m ∷ [])
      × (length p.msg_chan < chan_capacity)
      × (contains p.nodes m.node_id ≡ true)
      × (q.nodes ≡ p.nodes)
unfolding process_message validate
process_message-queued p q m e = ground arith

behind-refused :
    (q : Pbft) (n : ConsensusMessage)
    → contains q.nodes n.node_id ≡ true
    → q.sequence < u64_mod
    → n.sequence + 1 < q.sequence
    → process_message q n ≡ refused invalid_sequence
unfolding process_message validate is_behind
behind-refused q n c h k = ground arith

-- One accepted message of any member shuts out others: after a message is queued, every message of a
-- member that is two or more behind it is refused for its sequence number.
queued-shuts_out :
    (p q : Pbft) (m n : ConsensusMessage)
    → process_message p m ≡ queued q
    → p.sequence < u64_mod
    → m.sequence < u64_mod
    → n.sequence + 1 < m.sequence
    → contains p.nodes n.node_id ≡ true
    → process_message q n ≡ refused invalid_sequence
queued-shuts_out p q m n e hp hm h k =
    let (sequence, _, _, _, _, nodes) = process_message-queued p q m e in
    behind-refused q n (rw nodes k) (omega (arith, sequence)) (omega (arith, sequence))
