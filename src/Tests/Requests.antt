-- ===== src/Tests/Requests.antt =====
-- Requests, pages and credentials at concrete inputs.
use aiodynamo.Prelude.{
  ℕ, zero, suc, ◌+◌, ◌≡◌, refl, true, false, Option, some, none, List, [], ◌∷◌, arith, string_Keyed,
}
use aiodynamo.Errors.{
  Exception, Result, ok, raised, dynamo_error, throttled, exception_from_response, parse_error,
  error_code, construct, not_json, error_body,
}
use aiodynamo.Prelude.Dict.{lookup}
use aiodynamo.Models.Retry.{Schedule, attempts}
use aiodynamo.Client.Request.{
  Response, HttpOutcome, Environment, request_step, send_request, is_retried, received,
  after_attempts,
}
use aiodynamo.Models.Retry.Delays.{Random, RetryConfig, min, schedule, IsUniform, delay_at-Bounded}
use aiodynamo.Client.Request.Configs.{send_request_ends-least}
use aiodynamo.Client.Request.Attempts.{
  IsPassing, Fails, refused, times_out, Retried, first, then, Settles, returns,
  send_request-Settles,
}
use aiodynamo.Client.Request.Outcomes.{Answered, send_request-Answered}
use aiodynamo.Client.Pagination.{PageResult, PageRequest}

-- A call that may go on for five seconds, and waits one after each attempt, which takes one.
abbrev pub five_seconds : Schedule
five_seconds = record {
  started = 0;
  time_limit_secs = 5;
  delays = λ i. some 1;
  now = λ i. i + i + 1;
}

-- A call that may go on for one second.
abbrev one_second : Schedule
one_second = record { started = 0; time_limit_secs = 1; delays = λ i. some 1; now = λ i. i + i + 1 }

abbrev answer : Response ℕ
answer = record { status = 200; loaded = ok 7; error = not_json }

abbrev throttling : Response ℕ
throttling = record {
  status = 400;
  loaded = raised Exception.value_error;
  error = error_body (some "com.amazon.coral.availability#ThrottlingException") none;
}

-- A timeout, a throttled request, then an answer.
abbrev answers : ℕ → HttpOutcome ℕ
answers zero = HttpOutcome.timeout
answers (suc zero) = HttpOutcome.responded throttling
answers (suc (suc i)) = HttpOutcome.responded answer

abbrev failing_twice : Environment ℕ
failing_twice = record { get_key = λ i. ok true; http = answers; invalidate = λ i. false }

abbrev silent : Environment ℕ
silent = record { get_key = λ i. ok true; http = λ i. HttpOutcome.timeout; invalidate = λ i. false }

refused_once : Fails failing_twice 1 (dynamo_error throttled)
unfolding exception_from_response parse_error error_code construct lookup
refused_once = refused refl refl (λ h. absurd (omega (arith, h))) IsPassing.throttling

third_tried : Retried failing_twice five_seconds 2 (some (dynamo_error throttled))
third_tried =
    then 1 (then 1 first refl (times_out refl refl) (omega arith)) refl refused_once (omega arith)

answered_then : Settles failing_twice 2 (ok 7)
answered_then = returns refl refl refl refl

send_request-Settles_example : send_request 5 five_seconds failing_twice ≡ some (ok 7)
send_request-Settles_example =
    send_request-Settles failing_twice five_seconds 5 2 1 (some (dynamo_error throttled)) (ok 7)
      third_tried refl answered_then (omega arith)

answer_returned : send_request 5 five_seconds failing_twice ≡ some (ok 7)
unfolding send_request attempts request_step received after_attempts is_retried
    exception_from_response parse_error error_code construct lookup
answer_returned = refl

send_request-Answered_example : Answered five_seconds failing_twice 7
send_request-Answered_example = send_request-Answered five_seconds failing_twice 5 7 answer_returned

-- A server with one item left for each request up to the third, if the limit lets it send one.
abbrev one_of : Option ℕ → List ℕ
one_of (some zero) = []
one_of _ = 5 ∷ []

abbrev key_after : ℕ → Option ℕ
key_after (suc (suc i)) = none
key_after i = some i

abbrev serve : ℕ → PageRequest ℕ → Result (PageResult ℕ ℕ)
serve i payload =
    ok (record { items = one_of payload.limit; count = 1; last_evaluated_key = key_after i })

abbrev page : ℕ → PageResult ℕ ℕ
page i = record { items = 5 ∷ []; count = 1; last_evaluated_key = key_after i }

-- Draws that are the lower end, or nothing.
abbrev lowest : Random
lowest = record { uniform = λ i a b. min a b; random_times = λ i x. 0 }

lowest-IsUniform : IsUniform lowest
lowest-IsUniform i a b = ground arith

-- A call that may go on for two seconds, in front of a server that never answers, with delays of one
-- second at first and three seconds at most.
send_request_ends-least_example :
    (x : Result ℕ) × (send_request 4
        (schedule lowest (RetryConfig.decorrelated_jitter 1 3) 2 0 (λ i. i + i + i))
        silent
      ≡ some x)
send_request_ends-least_example =
    send_request_ends-least lowest lowest-IsUniform (RetryConfig.decorrelated_jitter 1 3) 2 0
      (λ i. i + i + i) silent (omega arith)
      (
        omega arith,
        λ i. omega (
          arith,
          (delay_at-Bounded lowest lowest-IsUniform (RetryConfig.decorrelated_jitter 1 3) i).1,
        ),
      )
