-- ===== src/Models/Retry.antt =====
-- `RetryConfig.attempts` of models.py and `wait` of utils.py. The clock and the delays are the
-- environment's: `now i` is the reading of time.monotonic() after the i-th attempt, and `delays i`
-- is the i-th value of `delays()`, or none once it is exhausted.
pub mod Waiting
pub mod Delays
use aiodynamo.Prelude.{
  ℕ, zero, suc, ◌+◌, ◌≤◌, ◌<◌, ◌≡◌, refl, ap, Bool, true, false, Option, none, some, arith, ltb,
  if◌then◌else◌, Option-cases, Bool-cases, inl, inr, ◌⊎◌,
}
use aiodynamo.Errors.{Exception, retry_timeout, Result, ok, raised}

pub record Schedule : Type 0 where
  pub started : ℕ
  pub time_limit_secs : ℕ
  pub delays : ℕ → Option ℕ
  pub now : ℕ → ℕ

abbrev pub deadline : Schedule → ℕ
deadline c = c.started + c.time_limit_secs

-- What the body of an `async for _ in config.attempts()` does: leave the loop, or go on with the
-- variables changed.
pub data Step {ℓ} (S A : Type ℓ) : Type ℓ where
  stop : Result A → Step S A
  again : S → Step S A

-- How such a loop ends: by its body, by RetryTimeout, or because the delays are exhausted.
pub data Ended {ℓ} (S A : Type ℓ) : Type ℓ where
  stopped : Result A → Ended S A
  timed_out : S → Ended S A
  exhausted : S → Ended S A

pub Step-cases {ℓ} :
    {S A : Type ℓ} (t : Step S A) → ((r : Result A) × (t ≡ stop r)) ⊎ ((s : S) × (t ≡ again s))
Step-cases (stop r) = inl (r, refl)
Step-cases (again s) = inr (s, refl)

module _ {ℓ} {S A : Type ℓ} (c : Schedule) (body : ℕ → S → Step S A) where
  -- The check of the deadline after a body that went on.
  abbrev pub after : ℕ → (S → Option (Ended S A)) → Step S A → Option (Ended S A)
  after i rest (stop r) = some (stopped r)
  after i rest (again s) = if ltb (deadline c) (c.now i) then some (timed_out s) else rest s

  abbrev pub attempt : ℕ → Option ℕ → S → (S → Option (Ended S A)) → Option (Ended S A)
  attempt i none s rest = some (exhausted s)
  attempt i (some delay) s rest = after i rest (body i s)

  -- `none`: the fuel ran out.
  unfoldable pub attempts : ℕ → ℕ → S → Option (Ended S A)
  attempts zero i s = none
  attempts (suc fuel) i s =
      let rest : S → Option (Ended S A) = attempts fuel (i + 1) in attempt i (c.delays i) s rest

  not_last :
      (i n : ℕ)
      → i ≤ n
      → (d : ℕ) → c.delays i ≡ some d
      → ltb (deadline c) (c.now i) ≡ false
      → (c.delays n ≡ none) ⊎ (deadline c < c.now n)
      → i + 1 ≤ n
  not_last i n low d more early last = elim (Bool-cases (ltb i n)) [
    | inl before ↦ ground arith
    | inr not_before ↦
        let same : i ≡ n = ground arith in ground (arith, ap c.delays same, ap c.now same)
  ]

  after_ends :
      (i : ℕ) (rest : S → Option (Ended S A)) (t : Step S A)
      → (ltb (deadline c) (c.now i) ≡ false → (s : S) → (r : Ended S A) × (rest s ≡ some r))
      → (r : Ended S A) × (after i rest t ≡ some r)
  after_ends i rest (stop r) ends = (stopped r, refl)
  after_ends i rest (again s) ends = elim (Bool-cases (ltb (deadline c) (c.now i))) [
    | inl late ↦ (timed_out s, rw late)
    | inr early ↦ rw early (ends early s)
  ]

  -- The loop ends by attempt `n` at the latest if the delays are exhausted there, or the clock is
  -- past the deadline after it.
  pub attempts_end :
      (fuel i n : ℕ) (s : S)
      → i ≤ n
      → n < i + fuel
      → (c.delays n ≡ none) ⊎ (deadline c < c.now n)
      → (r : Ended S A) × (attempts fuel i s ≡ some r)
  unfolding attempts
  attempts_end zero i n s low high last = absurd (omega arith)
  attempts_end (suc fuel) i n s low high last = elim (Option-cases (c.delays i)) [
    | inl done ↦ (exhausted s, rw done)
    | inr (d, more) ↦ rw more (
        after_ends i (attempts fuel (i + 1)) (body i s) (λ early t.
          attempts_end fuel (i + 1) n t (not_last i n low d more early last) (omega arith) last))
  ]

-- From attempt `i` with `s`, attempts that go on within the time limit lead to attempt `k` with `t`.
pub data Reaches {ℓ} {S A : Type ℓ} (c : Schedule) (body : ℕ → S → Step S A) (k : ℕ) (t : S)
    : ℕ → S → Type ℓ where
  here : {i : ℕ} {s : S} → i ≡ k → s ≡ t → Reaches c body k t i s
  next :
      {i : ℕ} {s u : S} (d : ℕ)
      → c.delays i ≡ some d
      → body i s ≡ again u
      → c.now i ≤ deadline c
      → Reaches c body k t (i + 1) u
      → Reaches c body k t i s

within : (c : Schedule) (i : ℕ) → c.now i ≤ deadline c → ltb (deadline c) (c.now i) ≡ false
within c i h = ground arith

Reaches-le {ℓ} :
    {S A : Type ℓ} {c : Schedule} {body : ℕ → S → Step S A} {k : ℕ} {t : S} {i : ℕ} {s : S}
    → Reaches c body k t i s
    → i ≤ k
Reaches-le (here e f) = omega arith
Reaches-le (next d more goes early r) = omega (arith, Reaches-le r)

-- What the loop ends with from an attempt that is reached, it ends with.
pub attempts-Reaches {ℓ} :
    {S A : Type ℓ} (c : Schedule) (body : ℕ → S → Step S A) (k : ℕ) (t : S) (result : Ended S A)
    → ((f : ℕ) → attempts c body (suc f) k t ≡ some result)
    → (fuel : ℕ) {i : ℕ} {s : S} → Reaches c body k t i s
    → k < i + fuel
    → attempts c body fuel i s ≡ some result
unfolding attempts
attempts-Reaches c body k t result ends zero r h = absurd (omega (arith, Reaches-le r))
attempts-Reaches c body k t result ends (suc fuel) (here same_i same_s) h =
    rw (same_i, same_s) (ends fuel)
attempts-Reaches c body k t result ends (suc fuel) (next {i} {s} {u} d more goes early r) h =
    rw (more, goes, within c i early) (attempts-Reaches c body k t result ends fuel r (omega arith))

-- A loop that its body ended was ended by one of the attempts.
pub attempts-stopped {ℓ} :
    {S A : Type ℓ} (c : Schedule) (body : ℕ → S → Step S A) (r : Result A) (fuel i : ℕ) (s : S)
    → attempts c body fuel i s ≡ some (stopped r)
    → (k : ℕ) × (t : S) × (body k t ≡ stop r)
unfolding attempts
attempts-stopped c body r zero i s h = cc
attempts-stopped c body r (suc fuel) i s h = elim (Option-cases (c.delays i)) [
  | inl done ↦ absurd (ground arith)
  | inr (d, more) ↦ elim (Step-cases (body i s)) [
    | inl (x, stops) ↦ (i, s, ground arith)
    | inr (u, goes) ↦ attempts-stopped c body r fuel (i + 1) u (ground arith)
  ]
]

-- The config of `wait`: False, or a RetryConfig. (True stands for the default RetryConfig.)
pub data WaitConfig : Type 0 where
  no_wait : WaitConfig
  retry : Schedule → WaitConfig

unfoldable pub is_retry_timeout : Exception → Bool
is_retry_timeout retry_timeout = true
is_retry_timeout _ = false

module _ {ℓ} {S : Type ℓ} where
  -- The body of the loop of `wait`, with a check that may change the variables of its caller; with
  -- `except RetryTimeout: return False`, which a check may raise too.
  abbrev pub checked : S → Result (Bool × S) → Step S (Bool × S)
  checked s (ok (true, t)) = stop (ok (true, t))
  checked s (ok (false, t)) = again t
  checked s (raised e) = stop (if is_retry_timeout e then ok (false, s) else raised e)

  abbrev pub check_step : (ℕ → S → Result (Bool × S)) → ℕ → S → Step S (Bool × S)
  check_step check i s = checked s (check i s)

  abbrev pub waited : Option (Ended S (Bool × S)) → Option (Result (Bool × S))
  waited none = none
  waited (some (stopped x)) = some x
  waited (some (timed_out s)) = some (ok (false, s))
  waited (some (exhausted s)) = some (ok (false, s))

  -- `wait` of utils.py: what it returns, and the variables of its caller after it.
  unfoldable pub wait :
      ℕ → WaitConfig → (ℕ → S → Result (Bool × S)) → S → Option (Result (Bool × S))
  unfolding attempts is_retry_timeout
  wait fuel no_wait check s = some (ok (true, s))
  wait fuel (retry c) check s = waited (attempts c (check_step check) fuel 0 s)
