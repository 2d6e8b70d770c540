-- ===== src/Caller/Wait.antt =====
-- scripts/caller.go, waitForResponse: the rounds of the ticker before the timeout. The query's contract,
-- topic and request ID are part of the client.
use evm_oracle.Base.{
  ◌∷◌, some, none, String, Option, ℕ, Bytes, List, if◌then◌else◌, sub_u64, [], ◌==◌, nat_eq,
}
use evm_oracle.Base.Results.{Result, ok, err}

pub record ResponseEvent : Type 0 where
  pub response : String
  pub ipfs_cid : String

-- ethclient.Client in one round: FilterLogs takes the first and the last block and gives the data of the
-- logs, which the ABI unpacks.
pub record View : Type 0 where
  pub block_number : Option ℕ
  pub filter_logs : ℕ → ℕ → Option (List Bytes)
  pub unpack : Bytes → Option ResponseEvent

pub data WaitError : Type 0 where
  no_start_block : WaitError
  timed_out_after : ℕ → WaitError

-- The loop over the logs, which returns at the first one that decodes
unfoldable pub first_event : (Bytes → Option ResponseEvent) → List Bytes → Option ResponseEvent
first_event unpack [] = none
first_event unpack (bytes ∷ logs) = elim (unpack bytes) [
  | none ↦ first_event unpack logs
  | some event ↦ some event
]

-- The event that ends the wait, or the last block that is checked
abbrev scanned : ℕ → Option ResponseEvent → Result ResponseEvent ℕ
scanned current none = ok current
scanned current (some event) = err event

unfoldable pub scan : View → ℕ → ℕ → Option (List Bytes) → Result ResponseEvent ℕ
unfolding first_event
scan v last_checked current none = ok last_checked
scan v last_checked current (some logs) = scanned current (first_event v.unpack logs)

unfoldable pub check_block : View → ℕ → Option ℕ → Result ResponseEvent ℕ
unfolding scan
check_block v last_checked none = ok last_checked
check_block v last_checked (some current) =
    if current == last_checked
    then ok last_checked
    else scan v last_checked current (v.filter_logs last_checked current)

abbrev pub proceed :
    (ℕ → Result WaitError ResponseEvent) → Result ResponseEvent ℕ → Result WaitError ResponseEvent
proceed next (ok last_checked) = next last_checked
proceed next (err event) = ok event

unfoldable pub wait_rounds : List View → ℕ → ℕ → Result WaitError ResponseEvent
unfolding check_block
wait_rounds [] start last_checked = err (timed_out_after (sub_u64 last_checked start))
wait_rounds (v ∷ views) start last_checked =
    proceed (wait_rounds views start) (check_block v last_checked v.block_number)

-- The first argument is BlockNumber before the loop.
unfoldable pub wait_for_response : Option ℕ → List View → Result WaitError ResponseEvent
unfolding wait_rounds
wait_for_response none views = err no_start_block
wait_for_response (some start) views = wait_rounds views start start
