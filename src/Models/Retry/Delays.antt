-- ===== src/Models/Retry/Delays.antt =====
-- The RetryConfig classes of models.py. Times are whole numbers of ticks; random.uniform and
-- random.random are given.
use aiodynamo.Prelude.{ℕ, zero, suc, ◌*◌, ◌≤◌, ◌≡◌, refl, some, ◌⊎◌, arith, leb, if◌then◌else◌}
use Prim.Native.Nat.{◌^◌}
use aiodynamo.Models.Retry.{Schedule}

-- Per draw: `random.uniform(a, b)`, and `random.random() * x` for x seconds, both in ticks.
pub record Random : Type 0 where
  pub uniform : ℕ → ℕ → ℕ → ℕ
  pub random_times : ℕ → ℕ → ℕ

pub data RetryConfig : Type 0 where
  static_delay : ℕ → RetryConfig
  -- the base and the largest delay
  decorrelated_jitter : ℕ → ℕ → RetryConfig
  -- the base, in seconds, and the largest delay
  exponential_backoff : ℕ → ℕ → RetryConfig

abbrev pub min : ℕ → ℕ → ℕ
min a b = if leb a b then a else b

module _ (random : Random) where
  -- `current_delay_secs` of DecorelatedJitterRetry at the i-th yield.
  unfoldable pub current_delay : ℕ → ℕ → ℕ → ℕ
  current_delay base max zero = min max (random.uniform 0 base (base * 3))
  current_delay base max (suc i) =
      min max (random.uniform (suc i) base (current_delay base max i * 3))

  unfoldable pub delay_at : RetryConfig → ℕ → ℕ
  unfolding current_delay
  delay_at (static_delay delay) i = delay
  delay_at (decorrelated_jitter base max) i = current_delay base max i
  delay_at (exponential_backoff base max) i = min (random.random_times i (base ^ i)) max

  -- A config with its time limit, at work from a time on, with this clock.
  unfoldable pub schedule : RetryConfig → ℕ → ℕ → (ℕ → ℕ) → Schedule
  unfolding delay_at
  schedule config time_limit_secs started now = record {
    started = started;
    time_limit_secs = time_limit_secs;
    delays = λ i. some (delay_at config i);
    now = now;
  }

-- `random.uniform(a, b)` is between `a` and `b`, or between `b` and `a`.
abbrev pub IsUniform : Random → Type 0
IsUniform random =
    (i a b : ℕ)
    → (min a b ≤ random.uniform i a b) × ((random.uniform i a b ≤ a) ⊎ (random.uniform i a b ≤ b))

module _ (random : Random) (uniform : IsUniform random) where
  -- The least delay of a config that has one above 0, and the largest one.
  abbrev pub Bounded : RetryConfig → ℕ → Type 0
  Bounded (static_delay delay) d = d ≡ delay
  Bounded (decorrelated_jitter base max) d = (min base max ≤ d) × (d ≤ max)
  Bounded (exponential_backoff base max) d = d ≤ max

  current_delay-Bounded :
      (base max i : ℕ)
      → (min base max ≤ current_delay random base max i) × (current_delay random base max i ≤ max)
  unfolding current_delay
  current_delay-Bounded base max zero = ground (arith, (uniform 0 base (base * 3)).0)
  current_delay-Bounded base max (suc i) = ground (
    arith,
    (uniform (suc i) base (current_delay random base max i * 3)).0,
    current_delay-Bounded base max i,
  )

  -- Every delay of a StaticDelayRetry is the delay that it is given; those of a DecorelatedJitterRetry
  -- are at most its largest delay, and at least its base delay or the largest one, if that is less;
  -- those of an ExponentialBackoffRetry are at most its largest delay.
  pub delay_at-Bounded : (config : RetryConfig) (i : ℕ) → Bounded config (delay_at random config i)
  unfolding delay_at
  delay_at-Bounded (static_delay delay) i = refl
  delay_at-Bounded (decorrelated_jitter base max) i = current_delay-Bounded base max i
  delay_at-Bounded (exponential_backoff base max) i = ground arith
