-- ===== src/Client/Request/Outcomes.antt =====
-- How `Client.send_request` of client.py ends.
use aiodynamo.Prelude.{ℕ, ◌<◌, ◌≡◌, refl, ◌⊎◌, Bool, true, false, Option, none, some, arith}
use aiodynamo.Errors.{Exception, Result, ok, raised}
use aiodynamo.Models.Retry.{
  Schedule, deadline, stop, Ended, stopped, timed_out, exhausted, attempts, attempts_end,
  attempts-stopped,
}
use aiodynamo.Client.Request.{
  Response, HttpOutcome, responded, timeout, request_failed, http_raised, Environment, received,
  with_key, request_step, after_attempts, send_request,
}

module _ {R : Type 0} (c : Schedule) (env : Environment R) where
  after_attempts-some :
      (r : Ended (Option Exception) R) → (x : Result R) × (after_attempts (some r) ≡ some x)
  unfolding after_attempts
  after_attempts-some (stopped x) = (x, refl)
  after_attempts-some (timed_out (some e)) = (raised e, refl)
  after_attempts-some (timed_out none) = (raised Exception.retry_timeout, refl)
  after_attempts-some (exhausted s) = (raised Exception.broken_throttle_config, refl)

  -- If the delays are exhausted at attempt `n`, or the time limit has passed after it, the call
  -- returns or raises: fuel above `n` is enough.
  pub send_request_ends :
      (fuel n : ℕ)
      → n < fuel
      → (c.delays n ≡ none) ⊎ (deadline c < c.now n)
      → (x : Result R) × (send_request fuel c env ≡ some x)
  unfolding send_request
  send_request_ends fuel n h last =
      let (r, run) =
        attempts_end c (request_step env) fuel 0 n none (omega arith) (omega arith) last in
      rw run (after_attempts-some r)

  -- What a call that returns rests on.
  pub record Answered (r : R) : Type 0 where
    pub attempt : ℕ
    pub response : Response R
    pub key_found : env.get_key attempt ≡ ok true
    pub answered : env.http attempt ≡ responded response
    pub is_ok : response.status ≡ 200
    pub loaded : response.loaded ≡ ok r

  settled :
      (invalidated : Bool) (stored : Option Exception) (k : Result Bool) (o : HttpOutcome R) (r : R)
      → with_key stored (received invalidated stored o) k ≡ stop (ok r)
      → (k ≡ ok true)
        × ((x : Response R) × (o ≡ responded x) × (x.status ≡ 200) × (x.loaded ≡ ok r))
  unfolding received
  settled invalidated stored (ok true) (responded x) r h =
      (refl, (x, refl, ground arith, ground arith))
  settled invalidated stored (ok true) timeout r h = cc
  settled invalidated stored (ok true) (request_failed e) r h = cc
  settled invalidated stored (ok true) (http_raised e) r h = ground arith
  settled invalidated stored (ok false) o r h = cc
  settled invalidated stored (raised e) o r h = ground arith

  after_attempts-ok :
      (o : Option (Ended (Option Exception) R)) (r : R)
      → after_attempts o ≡ some (ok r)
      → o ≡ some (stopped (ok r))
  unfolding after_attempts
  after_attempts-ok none r h = cc
  after_attempts-ok (some (stopped x)) r h = ground arith
  after_attempts-ok (some (timed_out (some e))) r h = ground arith
  after_attempts-ok (some (timed_out none)) r h = ground arith
  after_attempts-ok (some (exhausted s)) r h = ground arith

  -- A call that returns `r` made an attempt with a key that was answered with status 200 and `r`.
  pub send_request-Answered :
      (fuel : ℕ) (r : R) → send_request fuel c env ≡ some (ok r) → Answered r
  unfolding send_request request_step
  send_request-Answered fuel r h =
      let ended : attempts c (request_step env) fuel 0 none ≡ some (stopped (ok r)) =
        after_attempts-ok (attempts c (request_step env) fuel 0 none) r h in
      let (k, stored, stops) = attempts-stopped c (request_step env) (ok r) fuel 0 none ended in
      let (found, (x, answer, status, loaded)) =
        settled (env.invalidate k) stored (env.get_key k) (env.http k) r stops in
      record {
        attempt = k;
        response = x;
        key_found = found;
        answered = answer;
        is_ok = status;
        loaded = loaded;
      }
