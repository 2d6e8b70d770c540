-- ===== src/Node/Restored.antt =====
-- A node that recovers from what was saved.
use evm_oracle.Consensus.Engine.{Pbft, restore_state}
use evm_oracle.Base.Dict
use evm_oracle.Base.Dict.{Dict}
use evm_oracle.Consensus.Message.{
  PbftState, unknown_state, normal, view_changing, state_transferring,
}
use evm_oracle.Base.{
  ℕ, ◌≤◌, ◌^◌, ◌≡◌, Bytes, String, some, refl, string_eq, ◌+◌, suc, Bool, arith, none, true,
  Option-cases, inl, inr,
}
use evm_oracle.Node.Recovery.{
  StateCodec, state_of, state_number, Value, number, save_state, state_object, restore_from,
  recover, StateFile, recovered, content,
}

-- What encoding/json guarantees of an object of numbers: each key comes back with its number as a
-- float64, which is exact up to 2^53.
pub record KeepsNumbers (c : StateCodec) : Type 0 where
  pub as_float : ℕ → ℕ
  pub exact : (n : ℕ) → n ≤ 2 ^ 53 → as_float n ≡ n
  pub object_of : Bytes → Dict String Value
  pub decodes :
      (m : Dict String ℕ) (bytes : Bytes)
      → c.encode m ≡ some bytes
      → c.decode bytes ≡ some (object_of bytes)
  pub keeps :
      (m : Dict String ℕ) (bytes : Bytes) (key : String) (n : ℕ)
      → c.encode m ≡ some bytes
      → Dict.get m key ≡ some n
      → Dict.get (object_of bytes) key ≡ some (number (as_float n))

state_of-state_number : (s : PbftState) → state_of (state_number s) ≡ s
unfolding state_of state_number
state_of-state_number normal = refl
state_of-state_number view_changing = refl
state_of-state_number state_transferring = refl
state_of-state_number (unknown_state n) =
    let three : n + 3 ≡ suc (suc (suc n)) = omega arith in rw three refl

saved-content :
    (write : Bytes → Bool × StateFile) (c : StateCodec) (p : Pbft) (file : StateFile)
    → (save_state write c p file).0 ≡ none
    → (bytes : Bytes) × (c.encode (state_object p) ≡ some bytes)
      × ((write bytes).0 ≡ true)
      × ((save_state write c p file).1 ≡ (write bytes).1)
unfolding save_state
saved-content write c p file e = elim (Option-cases (c.encode (state_object p))) [
  | inl failed ↦ absurd (ground arith)
  | inr (bytes, fine) ↦ (bytes, fine, ground arith, ground arith)
]

-- What the saved object holds
saved-numbers :
    (p : Pbft)
    → (Dict.get (state_object p) "sequence" ≡ some p.sequence)
      × (Dict.get (state_object p) "view" ≡ some p.view)
      × (Dict.get (state_object p) "state" ≡ some (state_number p.state))
unfolding state_object Dict.get Dict.put Dict.empty
saved-numbers p = (refl, refl, refl)

module _ (c : StateCodec) (keeps : KeepsNumbers c) (p q : Pbft) where
  restored :
      (bytes : Bytes)
      → c.encode (state_object p) ≡ some bytes
      → p.sequence ≤ 2 ^ 53
      → p.view ≤ 2 ^ 53
      → state_number p.state ≤ 2 ^ 53
      → restore_from (keeps.object_of bytes) q
        ≡ recovered (restore_state p.sequence p.view p.state q)
  unfolding restore_from
  restored bytes e hs hv ht =
      let (sequence, view, state) = saved-numbers p in
      rw
        (
          keeps.keeps (state_object p) bytes "sequence" p.sequence e sequence,
          keeps.keeps (state_object p) bytes "view" p.view e view,
          keeps.keeps (state_object p) bytes "state" (state_number p.state) e state,
          restore_from,
          keeps.exact p.sequence hs,
          keeps.exact p.view hv,
          keeps.exact (state_number p.state) ht,
          state_of-state_number p.state,
        )
        refl

  -- Where encoding/json keeps numbers up to 2^53, and a write that succeeds leaves what was written: an
  -- engine that recovers from the file of a SaveState that returned no error gets the sequence number, the
  -- view and the state of the saved engine, as long as none of them is above 2^53, and keeps all else.
  pub recover-save_state :
      (write : Bytes → Bool × StateFile) (file : StateFile)
      → ((bytes : Bytes) → (write bytes).0 ≡ true → (write bytes).1 ≡ content bytes)
      → (save_state write c p file).0 ≡ none
      → p.sequence ≤ 2 ^ 53
      → p.view ≤ 2 ^ 53
      → state_number p.state ≤ 2 ^ 53
      → recover c (save_state write c p file).1 q
        ≡ recovered (restore_state p.sequence p.view p.state q)
  unfolding recover
  recover-save_state write file leaves fine hs hv ht =
      let (bytes, encoded, done, left) = saved-content write c p file fine in
      rw (left, leaves bytes done, keeps.decodes (state_object p) bytes encoded, recover)
        (restored bytes encoded hs hv ht)
