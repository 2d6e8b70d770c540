-- ===== src/Consensus/Votes.antt =====
-- The message stores of an engine, `map[uint64]map[string]*ConsensusMessage`: a ballot box for each
-- sequence (or view), which holds one message for each voter.
use evm_oracle.Base.{
  ℕ, String, Option, none, some, ◌≡◌, ◌==◌, if◌then◌else◌, arith, ltb, not, nat_eq, string_eq,
}
use evm_oracle.Base.Dict
use evm_oracle.Base.Dict.{Dict, get-put, get-empty, get-retain}
use evm_oracle.Consensus.Message.{ConsensusMessage}

abbrev pub Box : Type 0
Box = Dict String ConsensusMessage

abbrev pub Votes : Type 0
Votes = Dict ℕ Box

abbrev or_empty : Option Box → Box
or_empty none = Dict.empty
or_empty (some b) = b

-- votes[s], which is the empty map where there is none
unfoldable pub box : Votes → ℕ → Box
box votes s = or_empty (Dict.get votes s)

-- if _, exists := votes[s]; !exists { votes[s] = make(…) }
unfoldable pub init_box : Votes → ℕ → Votes
unfolding box
init_box votes s = Dict.put votes s (box votes s)

-- The same, followed by votes[s][id] = m
unfoldable pub file : Votes → ℕ → String → ConsensusMessage → Votes
unfolding box
file votes s id m = Dict.put votes s (Dict.put (box votes s) id m)

-- len(votes[s])
unfoldable pub count : Votes → ℕ → ℕ
count votes s = Dict.size (box votes s)

-- for seq := range votes { if seq < s { delete(votes, seq) } }
unfoldable pub keep_from {ℓ} : {V : Type ℓ} → ℕ → Dict ℕ V → Dict ℕ V
keep_from s = Dict.retain (λ t. not (ltb t s))

pub box-empty : (t : ℕ) → box Dict.empty t ≡ Dict.empty
unfolding box
box-empty t = rw get-empty

pub box-file :
    (v : Votes) (s t : ℕ) (id : String) (m : ConsensusMessage)
    → box (file v s id m) t ≡ (if s == t then Dict.put (box v s) id m else box v t)
unfolding box file
box-file v s t id m = rw get-put (ground arith)

pub box-init_box : (v : Votes) (s t : ℕ) → box (init_box v s) t ≡ box v t
unfolding box init_box
box-init_box v s t = rw get-put (ground arith)

pub box-keep_from :
    (v : Votes) (s t : ℕ) → box (keep_from s v) t ≡ (if ltb t s then Dict.empty else box v t)
unfolding box keep_from
box-keep_from v s t = rw get-retain (ground arith)

pub get-keep_from {ℓ} :
    {V : Type ℓ} (s t : ℕ) (m : Dict ℕ V)
    → Dict.get (keep_from s m) t ≡ (if ltb t s then none else Dict.get m t)
unfolding keep_from
get-keep_from s t m = rw get-retain (ground arith)
