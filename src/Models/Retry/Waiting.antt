-- ===== src/Models/Retry/Waiting.antt =====
-- How `wait` of utils.py ends.
use aiodynamo.Prelude.{
  ℕ, suc, ◌<◌, ◌≡◌, refl, Bool, true, false, none, some, ◌⊎◌, arith, Bool-cases, inl, inr,
}
use aiodynamo.Errors.{Result, ok, raised}
use aiodynamo.Models.Retry.{
  Reaches, attempts-Reaches, Schedule, deadline, stop, Ended, stopped, timed_out, exhausted,
  attempts, attempts_end, attempts-stopped, retry, is_retry_timeout, checked, check_step, waited,
  wait,
}

module _ {ℓ} {S : Type ℓ} (check : ℕ → S → Result (Bool × S)) where
  -- What `wait` gives and what it rests on: True after a check that held, with the variables that it
  -- left; False; or what a check raised.
  abbrev pub Settled : Result (Bool × S) → Type ℓ
  Settled (ok (true, s)) = (k : ℕ) × (t : S) × (check k t ≡ ok (true, s))
  Settled (ok (false, s)) = Unit
  Settled (raised e) = (k : ℕ) × (t : S) × (check k t ≡ raised e)

  checked-Settled :
      (k : ℕ) (s : S) (r x : Result (Bool × S)) → check k s ≡ r → checked s r ≡ stop x → Settled x
  checked-Settled k s (ok (true, t)) (ok (true, u)) run h = (k, s, ground arith)
  checked-Settled k s r (ok (false, u)) run h = tt
  checked-Settled k s (ok (true, t)) (raised e) run h = absurd (ground arith)
  checked-Settled k s (ok (false, t)) (raised e) run h = absurd cc
  checked-Settled k s (ok (false, t)) (ok (true, u)) run h = absurd cc
  checked-Settled k s (raised d) (ok (true, u)) run h = elim (Bool-cases (is_retry_timeout d)) [
    | inl late ↦ absurd (ground arith)
    | inr other ↦ absurd (ground arith)
  ]
  checked-Settled k s (raised d) (raised e) run h = elim (Bool-cases (is_retry_timeout d)) [
    | inl late ↦ absurd (ground arith)
    | inr other ↦ (k, s, ground arith)
  ]

  waited-Settled :
      (c : Schedule) (fuel : ℕ) (s : S) (r : Ended S (Bool × S))
      → attempts c (check_step check) fuel 0 s ≡ some r
      → (x : Result (Bool × S)) × (waited (some r) ≡ some x) × Settled x
  waited-Settled c fuel s (stopped x) run =
      let (k, t, stops) = attempts-stopped c (check_step check) x fuel 0 s run in
      (x, refl, checked-Settled k t (check k t) x refl stops)
  waited-Settled c fuel s (timed_out u) run = (ok (false, u), refl, tt)
  waited-Settled c fuel s (exhausted u) run = (ok (false, u), refl, tt)

  -- If the delays are exhausted at attempt `n`, or the time limit has passed after it, then `wait`
  -- returns or raises: it returns True only after a check that held, and leaves the variables as that
  -- check did; it raises only what a check raised; and it returns False otherwise. Fuel above `n` is
  -- enough.
  pub wait-Settled :
      (c : Schedule) (fuel n : ℕ) (s : S)
      → n < fuel
      → (c.delays n ≡ none) ⊎ (deadline c < c.now n)
      → (x : Result (Bool × S)) × (wait fuel (retry c) check s ≡ some x) × Settled x
  unfolding wait
  wait-Settled c fuel n s h last =
      let (r, run) =
        attempts_end c (check_step check) fuel 0 n s (omega arith) (omega arith) last in
      let (x, same, settled) = waited-Settled c fuel s r run in (x, rw (run, same), settled)

  -- A check that holds at an attempt that is reached within the time limit ends the wait.
  pub wait-Reaches :
      (c : Schedule) (fuel k d : ℕ) (s t u : S)
      → Reaches c (check_step check) k t 0 s
      → c.delays k ≡ some d
      → check k t ≡ ok (true, u)
      → k < fuel
      → wait fuel (retry c) check s ≡ some (ok (true, u))
  unfolding wait attempts
  wait-Reaches c fuel k d s t u reach more holds low =
      let ends : (f : ℕ)
          → attempts c (check_step check) (suc f) k t ≡ some (stopped (ok (true, u))) =
        λ f. rw (more, holds) refl in
      rw
        (attempts-Reaches c (check_step check) k t (stopped (ok (true, u))) ends fuel reach
          (omega arith))
        refl
