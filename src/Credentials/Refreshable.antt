-- ===== src/Credentials/Refreshable.antt =====
-- The class Refreshable of credentials.py, with the tasks that it creates and the callers that wait
-- for them. Each piece of code between two awaits is one step, and the event loop may take the
-- steps in any order that the tasks allow.
pub mod Flights
pub mod Answers
pub mod Settling
use aiodynamo.Prelude.{
  ℕ, zero, suc, ◌+◌, ◌<◌, ◌≡◌, Bool, true, false, Option, none, some, List, [], ◌∷◌, ◌++◌, nat_eq,
  if◌then◌else◌,
}
use aiodynamo.Errors.{Exception, Result, ok, raised}
use aiodynamo.Credentials.Refresh.{Refresh, required, soon, not_required}

-- A task: it runs, it is done and its callbacks are due, or they have been called. A cancelled task
-- is one that raises CancelledError.
pub data Phase (T : Type 0) : Type 0 where
  running : Phase T
  done : Result T → Phase T
  settled : Result T → Phase T

-- `_active_refresh_task` and `_current`, with `none` for `_UNSET`; the number of tasks that were
-- created, which are named by the order in which they were; what is known of each task: its phase,
-- and whether `_set_current` is one of its callbacks; and the tasks that callers of `get` await.
pub record World (T : Type 0) : Type 0 where
  pub active : Option ℕ
  pub current : Option T
  pub started : ℕ
  pub phase : ℕ → Phase T
  pub sets_current : ℕ → Bool
  pub waiting : List ℕ

abbrev pub update {ℓ} : {A : Type ℓ} → (ℕ → A) → ℕ → A → ℕ → A
update f i a j = if nat_eq i j then a else f j

-- What a call of `get` does up to its await: it returns, its assertion fails, or it awaits a task.
pub data Reply (T : Type 0) : Type 0 where
  returns : T → Reply T
  fails : Reply T
  waits : ℕ → Reply T

module _ {T : Type 0} where
  abbrev pub new : World T
  new = record {
    active = none;
    current = none;
    started = 0;
    phase = λ i. running;
    sets_current = λ i. false;
    waiting = [];
  }

  -- `_check_refresh`, with what `should_refresh` says of each value at the time.
  abbrev pub check : (T → Refresh) → Option T → Refresh
  check should_refresh none = required
  check should_refresh (some v) = should_refresh v

  -- `asyncio.create_task(...)` and the callbacks that are added to the task.
  unfoldable pub start : Bool → World T → World T
  start early w = record w {
    active = some w.started;
    started = w.started + 1;
    sets_current = update w.sets_current w.started early;
  }

  -- `if self._active_refresh_task is None`: a new task, or the one that there is.
  unfoldable pub join : Bool → Option ℕ → World T → ℕ × World T
  unfolding start
  join early none w = (w.started, start early w)
  join early (some i) w = (i, w)

  -- The assertion at the end, and the return.
  abbrev pub answer : Option T → Reply T
  answer none = fails
  answer (some v) = returns v

  unfoldable pub get_by : Refresh → World T → Reply T × World T
  unfolding join
  get_by required w =
      let (i, w') = join false w.active w in (waits i, record w' { waiting = i ∷ w'.waiting })
  get_by soon w = let (i, w') = join true w.active w in (answer w'.current, w')
  get_by not_required w = (answer w.current, w)

  unfoldable pub get : (T → Refresh) → World T → Reply T × World T
  unfolding get_by
  get should_refresh w = get_by (check should_refresh w.current) w

  unfoldable pub invalidate : World T → World T
  invalidate w = record w { current = none }

  -- The task is done with this result.
  unfoldable pub finish : ℕ → Result T → World T → World T
  finish i r w = record w { phase = update w.phase i (done r) }

  -- `_set_current`: the exception of a failed task is left to the event loop.
  abbrev pub set_current : Result T → World T → World T
  set_current (ok v) w = record w { current = some v }
  set_current (raised e) w = w

  abbrev pub clear_active_refresh : World T → World T
  clear_active_refresh w = record w { active = none }

  -- The callbacks of a task, which the event loop calls one right after the other.
  unfoldable pub call_back : ℕ → Result T → World T → World T
  call_back i r w =
      let cleared = clear_active_refresh (record w { phase = update w.phase i (settled r) }) in
      let both = set_current r cleared in if w.sets_current i then both else cleared

  -- A caller that awaited a task goes on with its result: `self._current = await ...`, and returns
  -- it or raises. The other callers wait on.
  unfoldable pub resume : List ℕ → Result T → World T → Result T × World T
  resume others r w = (r, set_current r (record w { waiting = others }))

  abbrev pub result_of : Phase T → Option (Result T)
  result_of running = none
  result_of (done r) = some r
  result_of (settled r) = some r

  -- What tasks and waiting callers do without any new call.
  pub data Serve (w w' : World T) : Type 0 where
    finishes :
        (i : ℕ) (r : Result T)
        → i < w.started
        → w.phase i ≡ running
        → w' ≡ finish i r w
        → Serve w w'
    calls_back :
        (i : ℕ) (r : Result T)
        → i < w.started
        → w.phase i ≡ done r
        → w' ≡ call_back i r w
        → Serve w w'
    resumes :
        (i : ℕ) (r : Result T) (front back : List ℕ)
        → w.waiting ≡ front ++ i ∷ back
        → result_of (w.phase i) ≡ some r
        → w' ≡ (resume (front ++ back) r w).1
        → Serve w w'

  pub data Step (w w' : World T) : Type 0 where
    serves : Serve w w' → Step w w'
    calls : (should_refresh : T → Refresh) → w' ≡ (get should_refresh w).1 → Step w w'
    invalidates : w' ≡ invalidate w → Step w w'

  pub data Reach : World T → Type 0 where
    here : Reach new
    later : {w w' : World T} → Reach w → Step w w' → Reach w'
