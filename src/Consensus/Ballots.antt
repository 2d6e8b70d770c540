-- ===== src/Consensus/Ballots.antt =====
-- Stores whose boxes hold at most one message for each voter, all voters members.
use mathlib.Core.Bool.{false≢true}
use evm_oracle.Consensus.Message.{ConsensusMessage}
use evm_oracle.Consensus.Votes.{
  Votes, box-empty, init_box, keep_from, box, box-init_box, box-keep_from, file, box-file,
}
use evm_oracle.Base.{List, String, ℕ, IsDistinct, contains, ◌≡◌, arith, true, string_eq, eq_iff}
use evm_oracle.Base.Dict
use evm_oracle.Base.Dict.{keys, keys-put, put-IsDistinct, keys-empty}

pub record IsBallot (members : List String) (v : Votes) : Type 0 where
  pub distinct : (s : ℕ) → IsDistinct (keys (box v s))
  pub known :
      (s : ℕ) (id : String) → contains (keys (box v s)) id ≡ true → contains members id ≡ true

pub IsBallot-empty : (members : List String) → IsBallot members Dict.empty
IsBallot-empty members = record {
  distinct = λ s. rw (box-empty s, keys-empty) tt;
  known = λ s id h. absurd (false≢true (rw (box-empty s, keys-empty) at h));
}

module _ {members : List String} (v : Votes) (b : IsBallot members v) where
  pub IsBallot-file :
      (s : ℕ) (id : String) (m : ConsensusMessage)
      → contains members id ≡ true
      → IsBallot members (file v s id m)
  IsBallot-file s id m h = record {
    distinct = λ t.
        rw box-file (ground (arith, b.distinct s, b.distinct t, put-IsDistinct (box v s) id m));
    known = λ t j.
        rw box-file
          (ground (arith, keys-put (box v s) id j m, b.known s j, b.known t j, eq_iff id j));
  }

  pub IsBallot-init_box : (s : ℕ) → IsBallot members (init_box v s)
  IsBallot-init_box s = record {
    distinct = λ t. rw box-init_box (b.distinct t);
    known = λ t j. rw box-init_box (b.known t j);
  }

  pub IsBallot-keep_from : (s : ℕ) → IsBallot members (keep_from s v)
  IsBallot-keep_from s = record {
    distinct = λ t.
        rw (box-keep_from v s t) (ground (arith, b.distinct t, keys-empty String ConsensusMessage));
    known = λ t j.
        rw (box-keep_from v s t) (ground (arith, b.known t j, keys-empty String ConsensusMessage));
  }
