-- ===== src/Mocks.antt =====
-- oracle/tests/test_utils.go: the mocks that stand for the clients of a node in tests, and the node made of them.
use evm_oracle.Storage.Interface.{StorageClient}
use evm_oracle.Base.{
  if◌then◌else◌, ◌≡◌, ◌∙◌, ap, refl, String, ℕ, List, Option, some, none, [], ◌∷◌, ◌==◌, string_eq,
  true, sym, ==_refl,
}
use evm_oracle.Base.Dict
use evm_oracle.Base.Dict.{Dict, get-put, get-empty}
use evm_oracle.Base.Results.{Result, ok, err, ◌>>◌, ◌>>=◌, or_fail, refuse_if, or_error}
use evm_oracle.Node.Requests.{ExecutionRecord, OracleNode, new_oracle_node}
use evm_oracle.Similarity.Floats.{Float32}
use evm_oracle.Similarity.Clusters.{Response}
use evm_oracle.Llm.Client.{LlmResponse, LlmRequest, LlmConfig, new_openai_client}
use Prim.Native.String.{◌++◌ as str_append}

pub data MockError : Type 0 where
  empty_response record_not_found nothing_to_cluster : MockError
  init_panic client_failed : MockError

-- MockLLMClient.GetResponse, at a time
unfoldable pub mock_response : (F : Type 0) → ℕ → LlmRequest F → LlmResponse
mock_response F now r = record {
  text = str_append "Mock response for: " r.prompt;
  tokens_used = 10;
  model = "mock-model";
  timestamp = now;
  request_id = r.request_id;
  node_id = r.node_id;
}

unfoldable pub mock_validate : LlmResponse → Result MockError (Unit {0})
mock_validate r = do refuse_if (r.text == "") empty_response; ok tt

-- MockStorageClient: the records by CID
abbrev pub MockStorage : Type 0
MockStorage = Dict String ExecutionRecord

unfoldable pub mock_cid : ExecutionRecord → String
mock_cid r = str_append "mock-cid-" r.request_id

unfoldable pub mock_store : ExecutionRecord → MockStorage → String × MockStorage
mock_store r s = (mock_cid r, Dict.put s (mock_cid r) r)

unfoldable pub mock_get : String → MockStorage → Result MockError ExecutionRecord
mock_get cid s = or_fail record_not_found (Dict.get s cid)

module _ (fl : Float32) where
  -- MockSemanticScorer.ClusterResponses; the score is 0.95. The representative, which the mock leaves nil, is
  -- none of what follows from it.
  unfoldable pub mock_cluster :
      fl.F → List Response → Result MockError (List (List Response × fl.F))
  mock_cluster score [] = err nothing_to_cluster
  mock_cluster score (r ∷ rs) = ok ((r ∷ rs, score) ∷ [])

  unfoldable pub mock_select : List (List Response × fl.F) → Option Response
  mock_select [] = none
  mock_select (([], score) ∷ rest) = none
  mock_select ((r ∷ rs, score) ∷ rest) = some r

  -- CreateTestNode, on a free port of localhost: a client of the API, the mocked storage, and a scorer
  unfoldable pub create_test_node :
      (String → String)
      → LlmConfig fl.F
      → String
      → String
      → List String
      → Result MockError (OracleNode fl)
  create_test_node address cfg port node_id peers = do
    client ← or_error client_failed (new_openai_client fl.F "" (some cfg))
    or_fail init_panic (new_oracle_node fl node_id (address port) true true true peers)

unfoldable pub store_all : List ExecutionRecord → MockStorage → MockStorage
store_all [] s = s
store_all (r ∷ rs) s = store_all rs (mock_store r s).1

-- The last record of a list with a CID, or else another
abbrev last_with : String → List ExecutionRecord → Option ExecutionRecord → Option ExecutionRecord
last_with cid [] other = other
last_with cid (r ∷ rs) other = last_with cid rs (if mock_cid r == cid then some r else other)

get-store_all :
    (rs : List ExecutionRecord) (s : MockStorage) (cid : String)
    → Dict.get (store_all rs s) cid ≡ last_with cid rs (Dict.get s cid)
unfolding store_all mock_store
get-store_all [] s cid = refl
get-store_all (r ∷ rs) s cid =
    get-store_all rs (Dict.put s (mock_cid r) r) cid
    ∙ ap (last_with cid rs) (get-put s (mock_cid r) cid r)

-- The mocked storage gives out for a CID the last record stored under it, and an error if there is none.
mock_get-store_all :
    (rs : List ExecutionRecord) (cid : String)
    → mock_get cid (store_all rs Dict.empty) ≡ or_fail record_not_found (last_with cid rs none)
unfolding mock_get
mock_get-store_all rs cid =
    rw (get-store_all rs Dict.empty cid, get-empty {V = ExecutionRecord} cid) refl

abbrev pub mock_save : ExecutionRecord → MockStorage → Option String × MockStorage
mock_save r s = (some (mock_cid r), Dict.put s (mock_cid r) r)

fetched : Option String × MockStorage → Option ExecutionRecord
fetched (none, s) = none
fetched (some cid, s) = Dict.get s cid

pub mock_stored :
    (r : ExecutionRecord) (s s' : MockStorage) (cid : String)
    → mock_save r s ≡ (some cid, s')
    → Dict.get s' cid ≡ some r
unfolding fetched
mock_stored r s s' cid e =
    sym (ap fetched e) ∙ get-put s (mock_cid r) (mock_cid r) r ∙ rw (==_refl (mock_cid r)) refl

-- The mocked storage as a storage client
abbrev pub mock_storage : StorageClient MockStorage
mock_storage = record { store = mock_save; fetch = λ cid s. Dict.get s cid; stored = mock_stored }
