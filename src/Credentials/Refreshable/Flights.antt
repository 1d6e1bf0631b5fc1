-- ===== src/Credentials/Refreshable/Flights.antt =====
-- The tasks of a Refreshable of credentials.py.
use aiodynamo.Prelude.{
  ℕ, ◌+◌, ◌<◌, ◌≤◌, ◌≡◌, inl, inr, refl, sym, subst, Bool, true, false, Option, none, some, List,
  [], ◌∷◌, ◌++◌, All, arith, Bool-cases,
}
use aiodynamo.Errors.{Result, ok, raised}
use aiodynamo.Credentials.Refresh.{Refresh, required, soon, not_required}
use aiodynamo.Credentials.Refreshable.{
  Phase, running, done, settled, World, update, new, check, start, join, get_by, get, invalidate,
  finish, set_current, clear_active_refresh, call_back, resume, Serve, finishes, calls_back,
  resumes, Step, serves, calls, invalidates, Reach, here, later,
}

All-more : (n : ℕ) (is : List ℕ) → All (λ i. i < n) is → All (λ i. i < n + 1) is
All-more n [] h = tt
All-more n (i ∷ is) h = (omega arith, All-more n is h.1)

All-others :
    (n i : ℕ) (front back : List ℕ)
    → All (λ j. j < n) (front ++ i ∷ back)
    → All (λ j. j < n) (front ++ back)
All-others n i [] back h = h.1
All-others n i (j ∷ front) back h = (h.0, All-others n i front back h.1)

module _ {T : Type 0} where
  abbrev pub is_settled : Phase T → Bool
  is_settled (settled r) = true
  is_settled _ = false

  -- Every task but the active one is settled, the active one is not, and the tasks to come have not
  -- run.
  pub record Inv (w : World T) : Type 0 where
    pub others : (i : ℕ) → i < w.started → is_settled (w.phase i) ≡ false → w.active ≡ some i
    pub flying : (i : ℕ) → w.active ≡ some i → (i < w.started) × (is_settled (w.phase i) ≡ false)
    pub fresh : (i : ℕ) → w.started ≤ i → w.phase i ≡ running
    pub known : All (λ i. i < w.started) w.waiting

  new-Inv : Inv new
  new-Inv = record {
    others = λ i h. absurd (omega arith);
    flying = λ i h. cc;
    fresh = λ i h. refl;
    known = tt;
  }

  start-Inv : (early : Bool) (w : World T) → w.active ≡ none → Inv w → Inv (start early w)
  unfolding start
  start-Inv early w idle inv = record {
    others = λ i h unsettled. ground (arith, inv.others i);
    flying = λ i h. ground (arith, inv.fresh w.started);
    fresh = λ i h. inv.fresh i (omega arith);
    known = All-more w.started w.waiting inv.known;
  }

  join-Inv :
      (early : Bool) (o : Option ℕ) (w : World T)
      → w.active ≡ o
      → Inv w
      → Inv (join early o w).1 × ((join early o w).0 < (join early o w).1.started)
  unfolding join start
  join-Inv early none w idle inv = (start-Inv early w idle inv, omega arith)
  join-Inv early (some i) w busy inv = (inv, (inv.flying i busy).0)

  waiting-Inv :
      (w : World T) (is : List ℕ)
      → Inv w
      → All (λ i. i < w.started) is
      → Inv (record w { waiting = is })
  waiting-Inv w is inv known = record {
    others = inv.others;
    flying = inv.flying;
    fresh = inv.fresh;
    known = known;
  }

  set_current-Inv : (r : Result T) (w : World T) → Inv w → Inv (set_current r w)
  set_current-Inv (ok v) w inv = record {
    others = inv.others;
    flying = inv.flying;
    fresh = inv.fresh;
    known = inv.known;
  }
  set_current-Inv (raised e) w inv = inv

  get_by-Inv : (refresh : Refresh) (w : World T) → Inv w → Inv (get_by refresh w).1
  unfolding get_by
  get_by-Inv required w inv =
      let (kept, lt) = join-Inv false w.active w refl inv in
      waiting-Inv (join false w.active w).1 _ kept (lt, kept.known)
  get_by-Inv soon w inv = (join-Inv true w.active w refl inv).0
  get_by-Inv not_required w inv = inv

  finish-Inv :
      (i : ℕ) (r : Result T) (w : World T)
      → i < w.started
      → w.phase i ≡ running
      → Inv w
      → Inv (finish i r w)
  unfolding finish
  finish-Inv i r w h at inv = record {
    others = λ j low unsettled. ground (arith, inv.others j);
    flying = λ j h'. ground (arith, inv.flying j);
    fresh = λ j h'. ground (arith, inv.fresh j);
    known = inv.known;
  }

  cleared-Inv :
      (i : ℕ) (r : Result T) (w : World T)
      → i < w.started
      → w.phase i ≡ done r
      → Inv w
      → Inv (clear_active_refresh (record w { phase = update w.phase i (settled r) }))
  cleared-Inv i r w h at inv = record {
    others = λ j low unsettled. ground (arith, inv.others j, inv.others i);
    flying = λ j h'. cc;
    fresh = λ j h'. ground (arith, inv.fresh j);
    known = inv.known;
  }

  call_back-Inv :
      (i : ℕ) (r : Result T) (w : World T)
      → i < w.started
      → w.phase i ≡ done r
      → Inv w
      → Inv (call_back i r w)
  unfolding call_back
  call_back-Inv i r w h at inv =
      let cleared = cleared-Inv i r w h at inv in
      elim (Bool-cases (w.sets_current i)) [
        | inl yes' ↦ rw yes' (set_current-Inv r _ cleared)
        | inr no' ↦ rw no' cleared
      ]

  pub Serve-Inv : {w w' : World T} → Serve w w' → Inv w → Inv w'
  unfolding resume
  Serve-Inv {w} (finishes i r h at same) inv = subst Inv (sym same) (finish-Inv i r w h at inv)
  Serve-Inv {w} (calls_back i r h at same) inv = subst Inv (sym same) (call_back-Inv i r w h at inv)
  Serve-Inv {w} (resumes i r front back waits at same) inv = subst Inv (sym same) (
      set_current-Inv r _ (
        waiting-Inv w (front ++ back) inv
          (All-others w.started i front back (subst (All (λ j. j < w.started)) waits inv.known))))

  Step-Inv : {w w' : World T} → Step w w' → Inv w → Inv w'
  unfolding get invalidate
  Step-Inv (serves s) inv = Serve-Inv s inv
  Step-Inv {w} (calls should_refresh same) inv =
      subst Inv (sym same) (get_by-Inv (check should_refresh w.current) w inv)
  Step-Inv {w} (invalidates same) inv =
      subst Inv (sym same)
        (record { others = inv.others; flying = inv.flying; fresh = inv.fresh; known = inv.known })

  -- In every state that is reached, by calls, invalidations, tasks that end and callers that go on
  -- in any order: every task but the active one is settled, the active one is not, no task that is
  -- still to be created has run, and every caller awaits a task that was created.
  pub Reach-Inv : {w : World T} → Reach w → Inv w
  Reach-Inv here = new-Inv
  Reach-Inv (later r s) = Step-Inv s (Reach-Inv r)

  -- Two refreshes never run at the same time.
  single_flight :
      {w : World T}
      → Reach w
      → (i j : ℕ) → i < w.started
      → j < w.started
      → w.phase i ≡ running
      → w.phase j ≡ running
      → i ≡ j
  single_flight {w} r i j hi hj ri rj =
      let inv = Reach-Inv r in ground (arith, inv.others i, inv.others j)
