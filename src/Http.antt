-- ===== src/Http.antt =====
-- http/types.py, and the calls of http/aiohttp.py and http/httpx.py. What the libraries' own calls do
-- is given.
use aiodynamo.Prelude.{ℕ, String, Bool, Option, if◌then◌else◌}
use aiodynamo.Prelude.Dict.{Dict}
use aiodynamo.Errors.{Exception}

pub record Request (Bytes : Type 0) : Type 0 where
  pub method : String
  pub url : String
  pub headers : Option (Dict String String)
  pub body : Option Bytes

-- What a call of an HttpImplementation does: it gives a Response, by its status and body, or it raises TimeoutError, RequestFailed with
-- an inner exception, or any other exception.
pub data Outcome (Bytes : Type 0) : Type 0 where
  responded : ℕ → Bytes → Outcome Bytes
  timeout : Outcome Bytes
  request_failed : Exception → Outcome Bytes
  http_raised : Exception → Outcome Bytes

-- The libraries' calls: a response that was read, or an exception of aiohttp with whether it is a
-- TimeoutError and whether it is a ClientError; of httpx, with whether it is a TimeoutException and
-- whether it is an HTTPError.
pub data Called (Bytes : Type 0) : Type 0 where
  answered : ℕ → Bytes → Called Bytes
  failed : Bool → Bool → Exception → Called Bytes

module _ {Bytes : Type 0} (request : Request Bytes → Called Bytes) where
  abbrev pub aiohttp_outcome : Called Bytes → Outcome Bytes
  aiohttp_outcome (answered status body) = responded status body
  aiohttp_outcome (failed is_timeout is_client_error e) =
      if is_client_error then request_failed e else if is_timeout then timeout else http_raised e

  -- `AIOHTTP.__call__`
  unfoldable pub aiohttp : Request Bytes → Outcome Bytes
  aiohttp r = aiohttp_outcome (request r)

  abbrev pub httpx_outcome : Called Bytes → Outcome Bytes
  httpx_outcome (answered status body) = responded status body
  httpx_outcome (failed is_timeout is_http_error e) =
      if is_timeout then timeout else if is_http_error then request_failed e else http_raised e

  -- `HTTPX.__call__`
  unfoldable pub httpx : Request Bytes → Outcome Bytes
  httpx r = httpx_outcome (request r)
