-- ===== src/Http.antt =====
-- net/http as the clients of the repository use it: a request that a client sends, and what comes back.
use evm_oracle.Base.{String, ℕ, List, Bytes, Bool, Option}

pub record HttpRequest : Type 0 where
  pub method : String
  pub url : String
  pub headers : List (String × String)
  pub body : Bytes

pub record HttpResponse : Type 0 where
  pub status : ℕ
  pub body : Bytes

abbrev pub status_ok : ℕ
status_ok = 200

-- http.NewRequestWithContext, which can refuse, and Client.Do with the read of the body; `none` is an
-- error.
pub record HttpClient : Type 0 where
  pub accepts : String → String → Bool
  pub send : HttpRequest → Option HttpResponse
