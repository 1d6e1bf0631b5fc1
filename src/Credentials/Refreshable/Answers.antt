-- ===== src/Credentials/Refreshable/Answers.antt =====
-- What a call of `Refreshable.get` of credentials.py does at once.
use aiodynamo.Prelude.{ℕ, ◌+◌, ◌≡◌, ◌≢◌, ◌⊎◌, none, some, ◌∷◌}
use aiodynamo.Credentials.Refresh.{Refresh, required}
use aiodynamo.Credentials.Refreshable.{World, check, Reply, returns, fails, waits}

module _ {T : Type 0} (should_refresh : T → Refresh) where
  -- A call that awaits a task joins the refresh under way, if there is one, and starts one if not.
  abbrev pub Joins : ℕ → World T → World T → Type 0
  Joins i w w' =
      ((w.active ≡ some i) × (w'.started ≡ w.started))
      ⊎ ((w.active ≡ none) × (i ≡ w.started) × (w'.started ≡ w.started + 1))

  abbrev pub Answered : World T → Reply T × World T → Type 0
  Answered w (returns v, w') =
      (w.current ≡ some v)
      × (should_refresh v ≢ required)
      × (w'.current ≡ some v)
      × (w'.waiting ≡ w.waiting)
  Answered w (fails, w') = ⊥
  Answered w (waits i, w') =
      (check should_refresh w.current ≡ required)
      × Joins i w w'
      × (w'.active ≡ some i)
      × (w'.waiting ≡ i ∷ w.waiting)
