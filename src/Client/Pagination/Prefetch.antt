-- ===== src/Client/Pagination/Prefetch.antt =====
-- `Client._depaginate` of client.py as the asynchronous generator that it is: its variable `task`, the
-- tasks that it has created, and what its consumer and the event loop may do to it.
pub mod Safety
pub mod Remaining
pub mod Following
use aiodynamo.Prelude.{
  ℕ, zero, suc, ◌+◌, ◌<◌, ◌≡◌, ◌⊎◌, Bool, true, false, Option, none, some, List, [], ◌∷◌, ◌++◌,
  nat_eq, if◌then◌else◌,
}
use aiodynamo.Errors.{Exception, Result, ok, raised}
use aiodynamo.Client.Pagination.{PageResult, PageRequest, next_request}

-- A task of asyncio that runs `send_request`.
pub data Task (A : Type 0) : Type 0 where
  running : Task A
  finished : Result A → Task A
  cancelled : Task A

-- How the generator has ended: by its loop, by an exception of a request, by CancelledError, or by
-- `aclose`, which raises GeneratorExit at the `yield`.
pub data Ending : Type 0 where
  exhausted : Ending
  failed : Exception → Ending
  was_cancelled : Ending
  closed : Ending

-- Where the generator stands: not begun, at `await task`, at `yield result`, or ended.
pub data Phase : Type 0 where
  fresh awaiting yielding : Phase
  over : Ending → Phase

pub record Generator (Key Item : Type 0) : Type 0 where
  pub phase : Phase
  pub payload : PageRequest Key
  pub limit : Option ℕ
  pub task : Option ℕ
  pub started : ℕ
  pub tasks : ℕ → Task (PageResult Key Item)
  pub yielded : List (PageResult Key Item)

abbrev pub update {ℓ} : {A : Type ℓ} → (ℕ → A) → ℕ → A → ℕ → A
update f i a j = if nat_eq i j then a else f j

module _ {Key Item : Type 0} (is_count : Bool) where
  -- The call of `_depaginate`, which runs nothing yet.
  abbrev pub opened : Option Key → Option ℕ → Generator Key Item
  opened start limit = record {
    phase = fresh;
    payload = record { exclusive_start_key = start; limit = limit };
    limit = limit;
    task = none;
    started = 0;
    tasks = λ i. running;
    yielded = [];
  }

  -- `task = asyncio.create_task(self.send_request(...))`
  unfoldable pub create_task : Generator Key Item → Generator Key Item
  create_task w = record w { task = some w.started; started = w.started + 1 }

  abbrev pub test_task : Option ℕ → Generator Key Item → Generator Key Item
  test_task none w = record w { phase = over exhausted }
  test_task (some i) w = record w { phase = awaiting }

  -- The consumer asks for a page: from the top to `await task`, or from `yield` through `while task`.
  unfoldable pub begin : Generator Key Item → Generator Key Item
  unfolding create_task
  begin w = record (create_task w) { phase = awaiting }

  unfoldable pub go_on : Generator Key Item → Generator Key Item
  go_on w = test_task w.task w

  abbrev pub fetch_ahead :
      Option (PageRequest Key × Option ℕ) → Generator Key Item → Generator Key Item
  fetch_ahead none w = record w { task = none }
  fetch_ahead (some (payload, limit)) w =
      create_task (record w { payload = payload; limit = limit })

  -- From `await task`, which has given `result`, to `yield result`.
  unfoldable pub receive : PageResult Key Item → Generator Key Item → Generator Key Item
  unfolding create_task next_request
  receive result w =
      let w' =
        fetch_ahead (next_request is_count w.payload w.limit result result.last_evaluated_key) w in
      record w' { phase = yielding; yielded = w.yielded ++ result ∷ [] }

  unfoldable pub resume_await :
      Result (PageResult Key Item) → Generator Key Item → Generator Key Item
  unfolding receive
  resume_await (ok result) w = receive result w
  resume_await (raised e) w = record w { phase = over (failed e) }

  -- `task.cancel()`: nothing for a task that has finished. A cancelled request is taken to run no
  -- more; what it does on its way out is left out.
  abbrev pub stopped : Task (PageResult Key Item) → Task (PageResult Key Item)
  stopped running = cancelled
  stopped t = t

  abbrev pub cancel_task : Option ℕ → Generator Key Item → Generator Key Item
  cancel_task none w = w
  cancel_task (some i) w = record w { tasks = update w.tasks i (stopped (w.tasks i)) }

  -- `except asyncio.CancelledError`
  unfoldable pub on_cancelled : Generator Key Item → Generator Key Item
  on_cancelled w = record (cancel_task w.task w) { phase = over was_cancelled }

  -- `aclose`: GeneratorExit is no CancelledError.
  unfoldable pub close : Generator Key Item → Generator Key Item
  close w = record w { phase = over closed }

  module _ (send : ℕ → PageRequest Key → Result (PageResult Key Item)) where
    -- A task that has run to its end. The i-th request is `send i`.
    unfoldable pub settle : ℕ → Generator Key Item → Generator Key Item
    settle i w = record w { tasks = update w.tasks i (finished (send i w.payload)) }

    -- What the event loop and the consumer may do. Cancelling the consumer while it awaits a page,
    -- or throwing CancelledError into the generator, raises it there.
    pub data Step (w v : Generator Key Item) : Type 0 where
      settles : (i : ℕ) → i < w.started → w.tasks i ≡ running → v ≡ settle i w → Step w v
      begins : w.phase ≡ fresh → v ≡ begin w → Step w v
      goes_on : w.phase ≡ yielding → v ≡ go_on w → Step w v
      resumes :
          (i : ℕ) (r : Result (PageResult Key Item))
          → w.phase ≡ awaiting
          → w.task ≡ some i
          → w.tasks i ≡ finished r
          → v ≡ resume_await r w
          → Step w v
      cancels : (w.phase ≡ awaiting) ⊎ (w.phase ≡ yielding) → v ≡ on_cancelled w → Step w v
      closes : (w.phase ≡ fresh) ⊎ (w.phase ≡ yielding) → v ≡ close w → Step w v

    pub data Reach (w : Generator Key Item) : Generator Key Item → Type 0 where
      here : Reach w w
      later : {u v : Generator Key Item} → Reach w u → Step u v → Reach w v
