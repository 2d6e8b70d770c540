-- ===== src/Listener/Scans.antt =====
-- Which blocks are scanned, and how often.
use evm_oracle.Listener.Client.{Tick}
use evm_oracle.Base.Results.{Result}
use evm_oracle.Listener.Client.{ListenerTools, FilterQuery, ListenerError, Log}
use evm_oracle.Listener.Monitor.{
  scan_start, Scan, block_query, monitor_tick, process_logs, scan_blocks, monitor_blockchain,
  handle_logs,
}
use evm_oracle.Base.{
  ℕ, List, Option, if◌then◌else◌, ◌<◌, ◌≤◌, String, Bool, ltb, ◌≡◌, suc, some, leb, ◌∷◌, u64_mod,
  ◌&&◌, arith, none, ◌+◌, inc_u64, [], subst, ◌∙◌, ◌-◌, sym, ap, ◌↔◌,
}

-- The range of a query holds a block.
unfoldable pub in_range : ℕ → FilterQuery → Bool
in_range n q = leb q.from_block n && leb n q.to_block

unfoldable pub times_scanned : ℕ → List (Option Scan) → ℕ
times_scanned n [] = 0
times_scanned n (none ∷ scans) = times_scanned n scans
times_scanned n (some scan ∷ scans) =
    (if in_range n scan.query then 1 else 0) + times_scanned n scans

abbrev Fits : ℕ → Option ℕ → Type 0
Fits low none = Unit
Fits low (some current) = (low ≤ current) × (suc current < u64_mod)

abbrev height : ℕ → Option ℕ → ℕ
height low none = low
height low (some current) = current

abbrev between : ℕ → ℕ → ℕ → ℕ
between n last end = if ltb last n && leb n end then 1 else 0

start_same : (last current : ℕ) → 0 < last → scan_start last current ≡ last
unfolding scan_start
start_same last current h = ground arith

start_zero :
    (current : ℕ) → 100 < current → suc current < u64_mod → scan_start 0 current ≡ current - 100
unfolding scan_start
start_zero current h k = omega arith

next_block : (last current : ℕ) → last ≤ current → suc current < u64_mod → inc_u64 last ≡ last + 1
next_block last current h k = omega arith

module _ {Abi P : Type 0} (tools : ListenerTools Abi P) (abi : Abi)
    (contract private_key : String) where
  -- The chain does not get shorter than `low` or than any height seen before, and has less than 2^64 - 1
  -- blocks.
  unfoldable pub IsGrowing : ℕ → List (Tick Abi) → Type 0
  IsGrowing low [] = Unit
  IsGrowing low (c ∷ ticks) = Fits low c.block_number × IsGrowing (height low c.block_number) ticks

  -- What a tick does to `lastBlock`, and that it scans the blocks between
  abbrev Advances : ℕ → ℕ → ℕ → Option Scan × ℕ → Type 0
  Advances n last top r =
      (last ≤ r.1) × (r.1 ≤ top) × (times_scanned n (r.0 ∷ []) ≡ between n last r.1)

  scanned_range :
      (n last current : ℕ) (answers : List (Result ListenerError String))
      → last ≤ current
      → suc current < u64_mod
      → times_scanned n (
          some (record { query = block_query tools abi contract last current; answers = answers })
          ∷ [])
        ≡ between n last current
  unfolding times_scanned in_range block_query
  scanned_range n last current answers h k = rw (next_block last current h k) ground arith

  process_logs-Advances :
      (c : Tick Abi) (n last current : ℕ) (o : Option (List Log))
      → last ≤ current
      → suc current < u64_mod
      → Advances n last current (
          process_logs tools c abi private_key (block_query tools abi contract last current) last o)
  unfolding process_logs times_scanned block_query
  process_logs-Advances c n last current none h k = (omega arith, h, ground arith)
  process_logs-Advances c n last current (some logs) h k = (
    h,
    omega arith,
    scanned_range n last current (handle_logs tools c abi private_key 0 logs) h k,
  )

  abbrev scan_from : Tick Abi → ℕ → ℕ → Option Scan × ℕ
  scan_from c current start =
      let query = block_query tools abi contract start current in
      process_logs tools c abi private_key query start (c.filter_logs query)

  scan_blocks-Advances :
      (c : Tick Abi) (n last low : ℕ) (o : Option ℕ)
      → 0 < last
      → last ≤ low
      → Fits low o
      → Advances n last (height low o) (scan_blocks tools c abi contract private_key last o)
  unfolding scan_blocks times_scanned
  scan_blocks-Advances c n last low none h le fits = (omega arith, le, ground arith)
  scan_blocks-Advances c n last low (some current) h le (k, small) =
      let query = block_query tools abi contract last current in
      subst (λ start. Advances n last current (scan_from c current start))
        (sym (start_same last current h))
        (process_logs-Advances c n last current (c.filter_logs query) (omega arith) small)

  times_scanned-∷ :
      (n : ℕ) (scan : Option Scan) (scans : List (Option Scan))
      → times_scanned n (scan ∷ scans) ≡ times_scanned n (scan ∷ []) + times_scanned n scans
  unfolding times_scanned
  times_scanned-∷ n none scans = omega arith
  times_scanned-∷ n (some scan) scans = omega arith

  add_both : {a b c d : ℕ} → a ≡ b → c ≡ d → a + c ≡ b + d
  add_both e f = omega arith

  between_add : (n a b c : ℕ) → a ≤ b → b ≤ c → between n a b + between n b c ≡ between n a c
  between_add n a b c h k = ground arith

  -- From a block on, the monitor has scanned the blocks up to `lastBlock` once.
  monitor_blockchain-Advances :
      (ticks : List (Tick Abi)) (n last low : ℕ)
      → 0 < last
      → last ≤ low
      → IsGrowing low ticks
      → let (scans, end) = monitor_blockchain tools ticks abi contract private_key last in
        (last ≤ end) × (times_scanned n scans ≡ between n last end)
  unfolding monitor_blockchain IsGrowing times_scanned monitor_tick
  monitor_blockchain-Advances [] n last low h le growing = (omega arith, ground arith)
  monitor_blockchain-Advances (c ∷ ticks) n last low h le (fits, growing) =
      let (up, bound, once) = scan_blocks-Advances c n last low c.block_number h le fits in
      let (more, rest) =
        monitor_blockchain-Advances ticks n (monitor_tick tools c abi contract private_key last).1
          (height low c.block_number) (omega arith) bound growing in
      (omega arith, times_scanned-∷ n _ _ ∙ add_both once rest ∙ between_add n last _ _ up more)

  first_tick :
      (c : Tick Abi) (current : ℕ)
      → c.block_number ≡ some current
      → 100 < current
      → suc current < u64_mod
      → monitor_tick tools c abi contract private_key 0
        ≡ monitor_tick tools c abi contract private_key (current - 100)
  unfolding monitor_tick scan_blocks
  first_tick c current e h k =
      subst
        (λ o.
          scan_blocks tools c abi contract private_key 0 o
          ≡ scan_blocks tools c abi contract private_key (current - 100) o)
        (sym e)
        (ap (scan_from c current)
          (start_zero current h k ∙ sym (start_same (current - 100) current (omega arith))))

  IsGrowing-first :
      (c : Tick Abi) (ticks : List (Tick Abi)) (current : ℕ)
      → c.block_number ≡ some current
      → suc current < u64_mod
      → IsGrowing current ticks
      → IsGrowing current (c ∷ ticks)
  unfolding IsGrowing
  IsGrowing-first c ticks current e k growing =
      subst (λ o. Fits current o × IsGrowing (height current o) ticks) (sym e)
        ((omega arith, k), growing)

  -- The first tick that learns a height above 100 starts the scan a hundred blocks below it. As long as the
  -- chain does not get shorter and has less than 2^64 - 1 blocks, whatever queries fail, each block after the
  -- start is in exactly one of the queries that succeed if it is at most the block that the monitor has come
  -- to in the end, and in none if it is later.
  pub monitor_blockchain-once :
      (c : Tick Abi) (ticks : List (Tick Abi)) (n current : ℕ)
      → c.block_number ≡ some current
      → 100 < current
      → suc current < u64_mod
      → IsGrowing current ticks
      → let (scans, end) = monitor_blockchain tools (c ∷ ticks) abi contract private_key 0 in
        times_scanned n scans ≡ (if ltb (current - 100) n && leb n end then 1 else 0)
  unfolding monitor_blockchain IsGrowing
  monitor_blockchain-once c ticks n current e h k growing =
      rw (first_tick c current e h k)
        (monitor_blockchain-Advances (c ∷ ticks) n (current - 100) current (omega arith)
          (omega arith) (IsGrowing-first c ticks current e k growing)).1

  -- The query of a first tick has a range that is not empty exactly if the chain has at least 99 blocks:
  -- below that the start wraps around.
  first_query-covers :
      (current : ℕ)
      → current < u64_mod
      → let query = block_query tools abi contract (scan_start 0 current) current in
        (query.from_block ≤ query.to_block) ↔ (99 ≤ current)
  unfolding block_query scan_start
  first_query-covers current h = ((λ le. omega arith), (λ le. omega arith))
