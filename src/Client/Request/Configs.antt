-- ===== src/Client/Request/Configs.antt =====
-- `send_request` of client.py with the RetryConfig classes of models.py.
use aiodynamo.Prelude.{ℕ, zero, suc, ◌+◌, ◌≤◌, ◌≡◌, some, arith, inr}
use aiodynamo.Errors.{Result}
use aiodynamo.Models.Retry.Delays.{
  Random, RetryConfig, static_delay, decorrelated_jitter, exponential_backoff, min, delay_at,
  schedule, IsUniform, delay_at-Bounded, Bounded,
}
use aiodynamo.Client.Request.{Environment, send_request}
use aiodynamo.Client.Request.Outcomes.{send_request_ends}

-- A delay that every attempt waits at least.
abbrev pub least : RetryConfig → ℕ
least (static_delay delay) = delay
least (decorrelated_jitter base max) = min base max
least (exponential_backoff base max) = 0

-- The clock starts no earlier than the call, and a sleep takes at least its delay.
abbrev pub Sleeps : (ℕ → ℕ) → ℕ → (ℕ → ℕ) → Type 0
Sleeps delays started now = (started ≤ now 0) × ((i : ℕ) → now i + delays i ≤ now (suc i))

Bounded-least :
    (random : Random) (uniform : IsUniform random) (config : RetryConfig) (d : ℕ)
    → Bounded random uniform config d
    → least config ≤ d
Bounded-least random uniform (static_delay delay) d h = ground arith
Bounded-least random uniform (decorrelated_jitter base max) d h = h.0
Bounded-least random uniform (exponential_backoff base max) d h = omega arith

step : (s n : ℕ) {d a b : ℕ} → s + n ≤ a → 1 ≤ d → a + d ≤ b → s + suc n ≤ b
step s n h positive goes = omega arith

passed :
    (delays now : ℕ → ℕ) (started : ℕ)
    → ((i : ℕ) → 1 ≤ delays i)
    → Sleeps delays started now
    → (n : ℕ) → started + n ≤ now n
passed delays now started goes sleeps zero = omega (arith, sleeps.0)
passed delays now started goes sleeps (suc n) =
    step started n (passed delays now started goes sleeps n) (goes n) (sleeps.1 n)

-- A client with a StaticDelayRetry or a DecorelatedJitterRetry whose delays are at least one tick, in
-- front of a server that may never answer: `send_request` returns or raises, after at most as many
-- attempts as its time limit has ticks, and two more. The clock is one that starts no earlier than the
-- call, and on which a sleep takes at least its delay.
pub send_request_ends-least :
    {R : Type 0} (random : Random) (uniform : IsUniform random) (config : RetryConfig)
    (time_limit started : ℕ) (now : ℕ → ℕ) (env : Environment R)
    → 1 ≤ least config
    → Sleeps (delay_at random config) started now
    → (x : Result R) × (send_request
          (time_limit + 2)
          (schedule random config time_limit started now)
          env
        ≡ some x)
unfolding schedule
send_request_ends-least random uniform config time_limit started now env positive sleeps =
    let goes = λ (i : ℕ).
      Bounded-least random uniform config (delay_at random config i)
        (delay_at-Bounded random uniform config i) in
    let late =
      passed (delay_at random config) now started (λ i. omega (arith, goes i)) sleeps
        (time_limit + 1) in
    send_request_ends (schedule random config time_limit started now) env (time_limit + 2)
      (time_limit + 1) (omega arith) (inr (omega (arith, late)))
