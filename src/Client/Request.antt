-- ===== src/Client/Request.antt =====
-- `Client.send_request` of client.py. What the credentials, the signing and the HTTP client give in
-- each attempt is the environment's.
pub mod Outcomes
pub mod Attempts
pub mod Configs
use aiodynamo.Prelude.{
  ℕ, zero, suc, ◌≡◌, refl, Bool, true, false, Option, none, some, nat_eq, if◌then◌else◌,
}
use aiodynamo.Errors.{
  Exception, DynamoError, Result, ok, raised, Body, exception_from_response, dynamo_error,
  throttled, provisioned_throughput_exceeded, expired_token, internal_dynamo_error,
  service_unavailable, broken_throttle_config, no_credentials_found, retry_timeout, timeout_error,
}
use aiodynamo.Models.Retry.{
  Schedule, Step, stop, again, Ended, stopped, timed_out, exhausted, attempts,
}

-- A response: its status, its body as json.loads gives it, and its body read as an error.
pub record Response (R : Type 0) : Type 0 where
  pub status : ℕ
  pub loaded : Result R
  pub error : Body

-- What `await self.http(...)` does.
pub data HttpOutcome (R : Type 0) : Type 0 where
  responded : Response R → HttpOutcome R
  timeout : HttpOutcome R
  request_failed : Exception → HttpOutcome R
  http_raised : Exception → HttpOutcome R

-- Per attempt: whether `get_key` finds a key or what it raises, what the HTTP call does, and what
-- `invalidate` returns.
pub record Environment (R : Type 0) : Type 0 where
  pub get_key : ℕ → Result Bool
  pub http : ℕ → HttpOutcome R
  pub invalidate : ℕ → Bool

-- `except RetryTimeout`: raises the exception that was stored, if there is one.
unfoldable pub stored_or : Exception → Option Exception → Exception
stored_or retry_timeout (some e) = e
stored_or e stored = e

-- The classes after which the loop goes on. An expired token is one if it was invalidated.
unfoldable pub is_retried : Bool → Exception → Bool
is_retried invalidated (dynamo_error throttled) = true
is_retried invalidated broken_throttle_config = true
is_retried invalidated (dynamo_error provisioned_throughput_exceeded) = true
is_retried invalidated (dynamo_error expired_token) = invalidated
is_retried invalidated service_unavailable = true
is_retried invalidated internal_dynamo_error = true
is_retried invalidated _ = false

module _ {R : Type 0} where
  -- A failure in this attempt: raised, or stored for a later one.
  abbrev pub fail : Bool → Exception → Step (Option Exception) R
  fail retried e = if retried then again (some e) else stop (raised e)

  abbrev pub raises : Option Exception → Result R → Result R
  raises stored (ok r) = ok r
  raises stored (raised e) = raised (stored_or e stored)

  unfoldable pub received : Bool → Option Exception → HttpOutcome R → Step (Option Exception) R
  received invalidated stored timeout = again (some timeout_error)
  received invalidated stored (request_failed inner) = again (some inner)
  received invalidated stored (http_raised e) = stop (raised (stored_or e stored))
  received invalidated stored (responded response) =
      if nat_eq response.status 200
      then stop (raises stored response.loaded)
      else let e = exception_from_response response.status response.error in
        fail (is_retried invalidated e) e

  abbrev pub with_key :
      Option Exception → Step (Option Exception) R → Result Bool → Step (Option Exception) R
  with_key stored request (ok true) = request
  with_key stored request (ok false) = again (some no_credentials_found)
  with_key stored request (raised e) = stop (raised (stored_or e stored))

  -- The body of the loop; the state is the variable `exception`.
  unfoldable pub request_step : Environment R → ℕ → Option Exception → Step (Option Exception) R
  request_step env i stored =
      with_key stored (received (env.invalidate i) stored (env.http i)) (env.get_key i)

  -- What follows the loop.
  unfoldable pub after_attempts : Option (Ended (Option Exception) R) → Option (Result R)
  after_attempts none = none
  after_attempts (some (stopped r)) = some r
  after_attempts (some (timed_out (some e))) = some (raised e)
  after_attempts (some (timed_out none)) = some (raised retry_timeout)
  after_attempts (some (exhausted stored)) = some (raised broken_throttle_config)

  unfoldable pub send_request : ℕ → Schedule → Environment R → Option (Result R)
  send_request fuel c env = after_attempts (attempts c (request_step env) fuel 0 none)
