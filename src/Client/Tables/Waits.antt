-- ===== src/Client/Tables/Waits.antt =====
-- How a wait of the table administration of client.py ends.
use aiodynamo.Prelude.{ℕ, ◌<◌, ◌≡◌, ◌⊎◌, inl, inr, refl, Bool, true, false, none, some}
use aiodynamo.Errors.{Exception, Result, ok, raised}
use aiodynamo.Models.Retry.{deadline, WaitConfig, no_wait, retry, wait}
use aiodynamo.Models.Retry.Waiting.{Settled, wait-Settled}
use aiodynamo.Client.Tables.{or_raise}

-- There is no wait, or the delays are exhausted at an attempt before `fuel`, or the time limit has
-- passed after it.
abbrev pub EndsBefore : ℕ → WaitConfig → Type 0
EndsBefore fuel no_wait = Unit
EndsBefore fuel (retry c) = (n : ℕ) × (n < fuel) × ((c.delays n ≡ none) ⊎ (deadline c < c.now n))

module _ {S : Type 0} (check : ℕ → S → Result (Bool × S)) (failure : Exception) where
  -- What the wait gives, or `failure` where it returned False.
  abbrev pub Finished : WaitConfig → S → Result S → Type 0
  Finished config s (ok t) =
      ((config ≡ no_wait) × (s ≡ t)) ⊎ ((k : ℕ) × (u : S) × (check k u ≡ ok (true, t)))
  Finished config s (raised e) = ((k : ℕ) × (u : S) × (check k u ≡ raised e)) ⊎ (e ≡ failure)

  Settled-Finished :
      (config : WaitConfig) (s : S) (x : Result (Bool × S))
      → Settled check x
      → (y : Result S) × (or_raise failure (some x) ≡ some y) × Finished config s y
  Settled-Finished config s (ok (true, t)) h = (ok t, refl, inr h)
  Settled-Finished config s (ok (false, t)) h = (raised failure, refl, inr refl)
  Settled-Finished config s (raised e) h = (raised e, refl, inl h)

  pub wait-Finished :
      (fuel : ℕ) (config : WaitConfig) (s : S)
      → EndsBefore fuel config
      → (y : Result S) × (or_raise failure (wait fuel config check s) ≡ some y)
        × Finished config s y
  unfolding wait
  wait-Finished fuel no_wait s h = (ok s, refl, inl (refl, refl))
  wait-Finished fuel (retry c) s (n, low, last) =
      let (x, run, settled) = wait-Settled check c fuel n s low last in
      let (y, same, finished) = Settled-Finished (retry c) s x settled in (y, rw run same, finished)
