-- ===== src/Storage/Interface.antt =====
-- oracle/pkg/storage/types.go: the interface StorageClient, with what its users rely on. A store holds what it has
-- been given; the context is left out.
use evm_oracle.Node.Requests.{ExecutionRecord}
use evm_oracle.Base.{String, Option, some, ◌≡◌}

pub record StorageClient (S : Type 0) : Type 0 where
  -- `none` is an error.
  pub store : ExecutionRecord → S → Option String × S
  pub fetch : String → S → Option ExecutionRecord
  -- What has just been stored under a CID is found there.
  pub stored :
      (r : ExecutionRecord) (s s' : S) (cid : String)
      → store r s ≡ (some cid, s')
      → fetch cid s' ≡ some r
