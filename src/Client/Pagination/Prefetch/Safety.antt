-- ===== src/Client/Pagination/Prefetch/Safety.antt =====
-- The tasks of `Client._depaginate` of client.py.
use aiodynamo.Prelude.{
  ℕ, ◌+◌, ◌<◌, ◌≤◌, ◌≡◌, ◌≢◌, inl, inr, refl, sym, subst, Bool, Option, none, some, [], ◌∷◌, ◌++◌,
  length, length-append, nat_eq, nat_eq_iff, arith, Bool-cases,
}
use aiodynamo.Errors.{Result, ok, raised}
use aiodynamo.Client.Pagination.{PageResult, PageRequest}
use aiodynamo.Client.Pagination.Prefetch.{
  Task, running, finished, cancelled, Ending, was_cancelled, closed, fresh, yielding, over,
  Generator, update, opened, create_task, begin, test_task, go_on, fetch_ahead, stopped,
  cancel_task, receive, resume_await, on_cancelled, close, settle, Step, settles, begins, goes_on,
  resumes, cancels, closes, Reach, here, later,
}

module _ {Key Item : Type 0} where
  -- Only the task that the variable `task` holds may run, and it is the last that was created; no
  -- more tasks were created than pages were yielded, and one. Nothing runs when the generator has
  -- ended, but where it was closed.
  pub record Prefetches (w : Generator Key Item) : Type 0 where
    pub others : (i : ℕ) → i < w.started → w.tasks i ≡ running → w.task ≡ some i
    pub current : (i : ℕ) → w.task ≡ some i → i + 1 ≡ w.started
    pub ahead : w.started ≤ length w.yielded + 1
    pub unborn : w.phase ≡ fresh → w.started ≡ 0
    pub ended :
        (e : Ending) → w.phase ≡ over e → e ≢ closed → (i : ℕ) → i < w.started → w.tasks i ≢ running

  module _ (is_count : Bool) where
    opened-Prefetches :
        (start : Option Key) (limit : Option ℕ) → Prefetches (opened is_count start limit)
    opened-Prefetches start limit = record {
      others = λ i h. absurd (omega arith);
      current = λ i h. cc;
      ahead = omega arith;
      unborn = λ h. refl;
      ended = λ e h. cc;
    }

    begin-Prefetches :
        (w : Generator Key Item) → Prefetches w → w.phase ≡ fresh → Prefetches (begin is_count w)
    unfolding begin create_task
    begin-Prefetches w inv h = record {
      others = λ i below run. ground (arith, inv.unborn h);
      current = λ i same. ground arith;
      ahead = omega (arith, inv.unborn h);
      unborn = λ e. cc;
      ended = λ e p. cc;
    }

    test_task-Prefetches :
        (o : Option ℕ) (w : Generator Key Item)
        → w.task ≡ o
        → Prefetches w
        → Prefetches (test_task is_count o w)
    test_task-Prefetches none w same inv = record {
      others = inv.others;
      current = inv.current;
      ahead = inv.ahead;
      unborn = λ e. cc;
      ended = λ e p left i below run. cc (inv.others i below run);
    }
    test_task-Prefetches (some i) w same inv = record {
      others = inv.others;
      current = inv.current;
      ahead = inv.ahead;
      unborn = λ e. cc;
      ended = λ e p. cc;
    }

    go_on-Prefetches : (w : Generator Key Item) → Prefetches w → Prefetches (go_on is_count w)
    unfolding go_on
    go_on-Prefetches w inv = test_task-Prefetches w.task w refl inv

    -- The task that has been awaited is the only one that could have run.
    none_runs :
        (w : Generator Key Item) (i : ℕ) (r : Result (PageResult Key Item))
        → Prefetches w
        → w.task ≡ some i
        → w.tasks i ≡ finished r
        → (j : ℕ) → j < w.started
        → w.tasks j ≢ running
    none_runs w i r inv held done j below run =
        let same : i ≡ j = ground (arith, inv.others j below run) in
        let both = subst (λ k. w.tasks k ≡ finished r) same done in cc

    fetch_ahead-Prefetches :
        (o : Option (PageRequest Key × Option ℕ)) (w : Generator Key Item)
        (result : PageResult Key Item)
        → Prefetches w
        → ((j : ℕ) → j < w.started → w.tasks j ≢ running)
        → Prefetches (record (fetch_ahead is_count o w) {
          phase = yielding;
          yielded = w.yielded ++ result ∷ [];
        })
    unfolding create_task
    fetch_ahead-Prefetches none w result inv quiet = record {
      others = λ i below run. absurd (quiet i below run);
      current = λ i. cc;
      ahead = omega (arith, inv.ahead, length-append w.yielded (result ∷ []));
      unborn = λ e. cc;
      ended = λ e p. cc;
    }
    fetch_ahead-Prefetches (some (payload, limit)) w result inv quiet = record {
      others = λ i below run. elim (Bool-cases (nat_eq i w.started)) [
        | inl last ↦ ground (arith, nat_eq_iff i w.started)
        | inr old ↦ absurd (quiet i (ground arith) run)
      ];
      current = λ i same. ground arith;
      ahead = omega (arith, inv.ahead, length-append w.yielded (result ∷ []));
      unborn = λ e. cc;
      ended = λ e p. cc;
    }

    resume_await-Prefetches :
        (w : Generator Key Item) (i : ℕ) (r : Result (PageResult Key Item))
        → Prefetches w
        → w.task ≡ some i
        → w.tasks i ≡ finished r
        → Prefetches (resume_await is_count r w)
    unfolding resume_await receive
    resume_await-Prefetches w i (ok result) inv held done =
        fetch_ahead-Prefetches _ w result inv (none_runs w i (ok result) inv held done)
    resume_await-Prefetches w i (raised e) inv held done = record {
      others = inv.others;
      current = inv.current;
      ahead = inv.ahead;
      unborn = λ h. cc;
      ended = λ e' p left. none_runs w i (raised e) inv held done;
    }

    stopped-ne-running : (t : Task (PageResult Key Item)) → stopped is_count t ≢ running
    stopped-ne-running running = cc
    stopped-ne-running (finished r) = cc
    stopped-ne-running cancelled = cc

    cancelled_all :
        (i : ℕ) (w : Generator Key Item)
        → w.task ≡ some i
        → Prefetches w
        → (j : ℕ) → j < w.started
        → update w.tasks i (stopped is_count (w.tasks i)) j ≢ running
    cancelled_all i w held inv j below run = elim (Bool-cases (nat_eq i j)) [
      | inl same ↦ stopped-ne-running (w.tasks i) (rw same at run)
      | inr apart ↦
          let alone = inv.others j below (rw apart at run) in
          let same : i ≡ j = ground arith in cc (apart, (nat_eq_iff i j).1 same)
    ]

    cancel_task-Prefetches :
        (o : Option ℕ) (w : Generator Key Item)
        → w.task ≡ o
        → Prefetches w
        → Prefetches (record (cancel_task is_count o w) { phase = over was_cancelled })
    cancel_task-Prefetches none w same inv = record {
      others = inv.others;
      current = inv.current;
      ahead = inv.ahead;
      unborn = λ h. cc;
      ended = λ e p left i below run. cc (inv.others i below run);
    }
    cancel_task-Prefetches (some i) w same inv = record {
      others = λ j below run. absurd (cancelled_all i w same inv j below run);
      current = inv.current;
      ahead = inv.ahead;
      unborn = λ h. cc;
      ended = λ e p left j below run. cancelled_all i w same inv j below run;
    }

    module _ (send : ℕ → PageRequest Key → Result (PageResult Key Item)) where
      settled_runs :
          (i j : ℕ) (w : Generator Key Item)
          → update w.tasks i (finished (send i w.payload)) j ≡ running
          → w.tasks j ≡ running
      settled_runs i j w run = elim (Bool-cases (nat_eq i j)) [
        | inl same ↦ absurd (cc (rw same at run))
        | inr apart ↦ rw apart at run
      ]

      settle-Prefetches :
          (i : ℕ) (w : Generator Key Item) → Prefetches w → Prefetches (settle is_count send i w)
      unfolding settle
      settle-Prefetches i w inv = record {
        others = λ j below run. inv.others j below (settled_runs i j w run);
        current = inv.current;
        ahead = inv.ahead;
        unborn = inv.unborn;
        ended = λ e p left j below run. inv.ended e p left j below (settled_runs i j w run);
      }

      close-Prefetches : (w : Generator Key Item) → Prefetches w → Prefetches (close is_count w)
      unfolding close
      close-Prefetches w inv = record {
        others = inv.others;
        current = inv.current;
        ahead = inv.ahead;
        unborn = λ h. cc;
        ended = λ e p left. let same : closed ≡ e = ground arith in absurd (left (sym same));
      }

      Step-Prefetches :
          {w v : Generator Key Item} → Step is_count send w v → Prefetches w → Prefetches v
      unfolding on_cancelled
      Step-Prefetches {w} (settles i below run e) inv =
          subst Prefetches (sym e) (settle-Prefetches i w inv)
      Step-Prefetches {w} (begins h e) inv = subst Prefetches (sym e) (begin-Prefetches w inv h)
      Step-Prefetches {w} (goes_on h e) inv = subst Prefetches (sym e) (go_on-Prefetches w inv)
      Step-Prefetches {w} (resumes i r h held done e) inv =
          subst Prefetches (sym e) (resume_await-Prefetches w i r inv held done)
      Step-Prefetches {w} (cancels h e) inv =
          subst Prefetches (sym e) (cancel_task-Prefetches w.task w refl inv)
      Step-Prefetches {w} (closes h e) inv = subst Prefetches (sym e) (close-Prefetches w inv)

      from_here : {w v : Generator Key Item} → Prefetches w → Reach is_count send w v → Prefetches v
      from_here inv here = inv
      from_here inv (later r st) = Step-Prefetches st (from_here inv r)

      -- In every state that the generator comes to, however its tasks and its consumer are
      -- scheduled, only the task that its variable `task` holds may still run, which is the last
      -- one created, and no more requests have been made than pages were yielded, and one. When it
      -- has ended, by its loop, by an exception or by CancelledError, no task runs; this is not said
      -- of a generator that was closed.
      pub Reach-Prefetches :
          (start : Option Key) (limit : Option ℕ) (w : Generator Key Item)
          → Reach is_count send (opened is_count start limit) w
          → Prefetches w
      Reach-Prefetches start limit w r = from_here (opened-Prefetches start limit) r
