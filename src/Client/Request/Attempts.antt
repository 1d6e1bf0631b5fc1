-- ===== src/Client/Request/Attempts.antt =====
-- The attempts of `Client.send_request` of client.py, by what the credentials and the HTTP client do in
-- each of them.
use aiodynamo.Prelude.{
  ℕ, ◌+◌, ◌≤◌, ◌<◌, ◌≡◌, ◌≢◌, refl, Bool, true, false, Option, none, some, nat_eq, arith,
  Bool-cases, inl, inr,
}
use aiodynamo.Errors.{
  Exception, Result, ok, raised, exception_from_response, dynamo_error, throttled,
  provisioned_throughput_exceeded, expired_token, internal_dynamo_error, service_unavailable,
  broken_throttle_config, no_credentials_found, retry_timeout, timeout_error,
}
use aiodynamo.Models.Retry.{
  Schedule, deadline, stop, again, stopped, attempts, Reaches, here, next, attempts-Reaches,
}
use aiodynamo.Client.Request.{
  Response, responded, timeout, request_failed, http_raised, Environment, is_retried, stored_or,
  received, request_step, after_attempts, send_request,
}

-- What DynamoDB answers that a later attempt may mend; an expired token only if the credentials could
-- be invalidated.
pub data IsPassing (invalidated : Bool) : Exception → Type 0 where
  throttling : IsPassing invalidated (dynamo_error throttled)
  over_provisioned : IsPassing invalidated (dynamo_error provisioned_throughput_exceeded)
  expiry : invalidated ≡ true → IsPassing invalidated (dynamo_error expired_token)
  unavailable : IsPassing invalidated service_unavailable
  internal : IsPassing invalidated internal_dynamo_error
  broken_config : IsPassing invalidated broken_throttle_config

is_retried-IsPassing :
    (invalidated : Bool) (e : Exception) → is_retried invalidated e ≡ true → IsPassing invalidated e
unfolding is_retried
is_retried-IsPassing invalidated (dynamo_error throttled) h = throttling
is_retried-IsPassing invalidated (dynamo_error provisioned_throughput_exceeded) h = over_provisioned
is_retried-IsPassing invalidated (dynamo_error expired_token) h = expiry h
is_retried-IsPassing invalidated service_unavailable h = unavailable
is_retried-IsPassing invalidated internal_dynamo_error h = internal
is_retried-IsPassing invalidated broken_throttle_config h = broken_config
is_retried-IsPassing invalidated _ h = absurd cc

IsPassing-is_retried :
    {invalidated : Bool} {e : Exception} → IsPassing invalidated e → is_retried invalidated e ≡ true
unfolding is_retried
IsPassing-is_retried throttling = refl
IsPassing-is_retried over_provisioned = refl
IsPassing-is_retried (expiry h) = h
IsPassing-is_retried unavailable = refl
IsPassing-is_retried internal = refl
IsPassing-is_retried broken_config = refl

stored_or-other :
    (e : Exception) (stored : Option Exception) → e ≢ retry_timeout → stored_or e stored ≡ e
unfolding stored_or
stored_or-other retry_timeout none h = refl
stored_or-other retry_timeout (some e) h = absurd (h refl)
stored_or-other _ none h = refl
stored_or-other _ (some e) h = refl

module _ {R : Type 0} (env : Environment R) where
  -- Attempt `i` fails with an exception, and another may follow: there is no key, the HTTP call times
  -- out or fails, the status is 500 or 503, or it is not 200 and the error in the body is a passing
  -- one.
  pub data Fails (i : ℕ) : Exception → Type 0 where
    without_key : env.get_key i ≡ ok false → Fails i no_credentials_found
    times_out : env.get_key i ≡ ok true → env.http i ≡ timeout → Fails i timeout_error
    unsent :
        {inner : Exception}
        → env.get_key i ≡ ok true
        → env.http i ≡ request_failed inner
        → Fails i inner
    broken :
        {response : Response R}
        → env.get_key i ≡ ok true
        → env.http i ≡ responded response
        → response.status ≡ 500
        → Fails i internal_dynamo_error
    overloaded :
        {response : Response R}
        → env.get_key i ≡ ok true
        → env.http i ≡ responded response
        → response.status ≡ 503
        → Fails i service_unavailable
    refused :
        {response : Response R}
        → env.get_key i ≡ ok true
        → env.http i ≡ responded response
        → response.status ≢ 200
        → IsPassing (env.invalidate i) (exception_from_response response.status response.error)
        → Fails i (exception_from_response response.status response.error)

  -- Attempt `i` settles the call: with the body of a response of status 200, or with an exception, of
  -- another response, or one that is not RetryTimeout, of the credentials, of the HTTP client or of
  -- reading the body.
  pub data Settles (i : ℕ) : Result R → Type 0 where
    returns :
        {response : Response R} {r : R}
        → env.get_key i ≡ ok true
        → env.http i ≡ responded response
        → response.status ≡ 200
        → response.loaded ≡ ok r
        → Settles i (ok r)
    unreadable :
        {response : Response R} {e : Exception}
        → env.get_key i ≡ ok true
        → env.http i ≡ responded response
        → response.status ≡ 200
        → response.loaded ≡ raised e
        → e ≢ retry_timeout
        → Settles i (raised e)
    refused_for_good :
        {response : Response R}
        → env.get_key i ≡ ok true
        → env.http i ≡ responded response
        → response.status ≢ 200
        → ¬ IsPassing (env.invalidate i) (exception_from_response response.status response.error)
        → Settles i (raised (exception_from_response response.status response.error))
    key_raises :
        {e : Exception} → env.get_key i ≡ raised e → e ≢ retry_timeout → Settles i (raised e)
    http_raises :
        {e : Exception}
        → env.get_key i ≡ ok true
        → env.http i ≡ http_raised e
        → e ≢ retry_timeout
        → Settles i (raised e)

  not_ok : (n : ℕ) → n ≢ 200 → nat_eq n 200 ≡ false
  not_ok n h = ground arith

  Fails-again :
      {i : ℕ} {e : Exception} (stored : Option Exception)
      → Fails i e
      → request_step env i stored ≡ again (some e)
  unfolding request_step received exception_from_response is_retried
  Fails-again stored (without_key no_key) = rw no_key refl
  Fails-again stored (times_out key late) = rw (key, late) refl
  Fails-again stored (unsent key fails) = rw (key, fails) refl
  Fails-again stored (broken key answered status) = rw (key, answered, status) refl
  Fails-again stored (overloaded key answered status) = rw (key, answered, status) refl
  Fails-again stored (refused {response} key answered other passing) =
      rw (key, answered, not_ok response.status other, IsPassing-is_retried passing) refl

  Settles-stop :
      {i : ℕ} {x : Result R} (stored : Option Exception)
      → Settles i x
      → request_step env i stored ≡ stop x
  unfolding request_step received
  Settles-stop stored (returns key answered fine loaded) = rw (key, answered, fine, loaded) refl
  Settles-stop stored (unreadable {e = e} key answered fine loaded other) =
      rw (key, answered, fine, loaded, stored_or-other e stored other) refl
  Settles-stop {i} stored (refused_for_good {response} key answered other not_passing) =
      let e = exception_from_response response.status response.error in
      elim (Bool-cases (is_retried (env.invalidate i) e)) [
        | inl goes ↦ absurd (not_passing (is_retried-IsPassing (env.invalidate i) e goes))
        | inr ends ↦ rw (key, answered, not_ok response.status other, ends) refl
      ]
  Settles-stop stored (key_raises {e} raises other) =
      rw (raises, stored_or-other e stored other) refl
  Settles-stop stored (http_raises {e} key raises other) =
      rw (key, raises, stored_or-other e stored other) refl

  module _ (c : Schedule) where
    -- Attempt `k` is come to, with the exception of the attempt before it, if there is one: the delays
    -- go on, every attempt before it fails, and the time limit has not passed after any of them.
    pub data Retried : ℕ → Option Exception → Type 0 where
      first : Retried 0 none
      then :
          {i : ℕ} {stored : Option Exception} {e : Exception} (d : ℕ)
          → Retried i stored
          → c.delays i ≡ some d
          → Fails i e
          → c.now i ≤ deadline c
          → Retried (i + 1) (some e)

    -- Why the call ends after a failure with `e` in attempt `k`, and with what: the time limit has
    -- passed, or there are no more delays.
    pub data GivesUp (k : ℕ) (e : Exception) : Exception → Type 0 where
      out_of_time : deadline c < c.now k → GivesUp k e e
      out_of_delays :
          c.now k ≤ deadline c → c.delays (k + 1) ≡ none → GivesUp k e broken_throttle_config

    one_more :
        {k d : ℕ} {t : Option Exception} {e : Exception} {i : ℕ} {s : Option Exception}
        → Reaches c (request_step env) k t i s
        → c.delays k ≡ some d
        → Fails k e
        → c.now k ≤ deadline c
        → Reaches c (request_step env) (k + 1) (some e) i s
    one_more {k} {d} {t} {e} {i} {s} (here same_i same_s) more fails early =
        rw (same_i, same_s) (next d more (Fails-again t fails) early (here refl refl))
    one_more (next d' more' goes early' rest) more fails early =
        next d' more' goes early' (one_more rest more fails early)

    Retried-Reaches :
        {k : ℕ} {stored : Option Exception}
        → Retried k stored
        → Reaches c (request_step env) k stored 0 none
    Retried-Reaches first = here refl refl
    Retried-Reaches (then d before more fails early) =
        one_more (Retried-Reaches before) more fails early

    -- If every attempt before `k` fails in a way that is retried (no key, a timeout or a failure of the
    -- HTTP call, status 500 or 503, a throttling, or an expired token that could be invalidated), within
    -- the time limit, and attempt `k` is then made, what settles it is the result of the call, with any
    -- fuel above `k`: the body of a response of status 200, or the exception of another response that
    -- is not retried, or what the credentials, the HTTP client or reading the body raise, if that is
    -- not RetryTimeout.
    pub send_request-Settles :
        (fuel k d : ℕ) (stored : Option Exception) (x : Result R)
        → Retried k stored
        → c.delays k ≡ some d
        → Settles k x
        → k < fuel
        → send_request fuel c env ≡ some x
    unfolding send_request
    send_request-Settles fuel k d stored x before more settles h =
        rw
          (attempts-Reaches c (request_step env) k stored (stopped x)
            (λ f. unfold attempts in rw (more, Settles-stop stored settles)) fuel
            (Retried-Reaches before) (omega arith))
          (unfold after_attempts in refl)
