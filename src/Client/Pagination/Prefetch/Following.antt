-- ===== src/Client/Pagination/Prefetch/Following.antt =====
-- The pages that `Client._depaginate` of client.py yields, to a consumer that may stop.
use aiodynamo.Prelude.{
  ℕ, ◌<◌, ◌≡◌, inl, inr, refl, sym, ap, ◌∙◌, subst, Bool, false, Option, none, some, List, [], ◌++◌,
  nat_eq, nat_eq_iff, arith, Bool-cases,
}
use aiodynamo.Errors.{Result, ok, raised}
use aiodynamo.Client.Pagination.{PageResult, PageRequest, depaginate}
use aiodynamo.Client.Pagination.Prefetch.{
  Task, running, finished, cancelled, exhausted, failed, was_cancelled, closed, Phase, fresh,
  awaiting, yielding, over, Generator, opened, stopped, cancel_task, on_cancelled, close, settle,
  Step, settles, begins, goes_on, resumes, cancels, closes, Reach, here, later,
}
use aiodynamo.Client.Pagination.Prefetch.Remaining.{
  Left, Follows, begin-Follows, go_on-Follows, resume_await-Follows,
}

module _ {Key Item : Type 0} (is_count : Bool)
    (send : ℕ → PageRequest Key → Result (PageResult Key Item)) (end : Result (Unit {0})) where
  module _ (pages : List (PageResult Key Item)) where
    abbrev Kept : Generator Key Item → Type 0
    Kept = Follows is_count send end pages

    finished-stopped :
        (t : Task (PageResult Key Item)) (r : Result (PageResult Key Item))
        → stopped is_count t ≡ finished r
        → t ≡ finished r
    finished-stopped running r h = cc
    finished-stopped (finished r') r h = h
    finished-stopped cancelled r h = cc

    cancel_task-Follows :
        (o : Option ℕ) (w : Generator Key Item)
        → w.task ≡ o
        → Kept w
        → Kept (record (cancel_task is_count o w) { phase = over was_cancelled })
    cancel_task-Follows none w t f = record {
      rest = f.rest;
      split = f.split;
      left = tt;
      honest = f.honest;
      unborn = f.unborn;
      current = f.current;
    }
    cancel_task-Follows (some i) w t f = record {
      rest = f.rest;
      split = f.split;
      left = tt;
      honest = λ j r held done. elim (Bool-cases (nat_eq i j)) [
        | inl same ↦
            let e = (nat_eq_iff i j).0 same in
            f.honest j r held (
              subst (λ (k : ℕ). w.tasks k ≡ finished r) e
                (finished-stopped (w.tasks i) r (rw same at done)))
        | inr apart ↦ f.honest j r held (rw apart at done)
      ];
      unborn = λ j above.
          let apart : nat_eq i j ≡ false = ground (arith, f.current i t) in
          rw apart (f.unborn j above);
      current = f.current;
    }

    Left-settle :
        (i : ℕ) (a : Phase) (o : Option ℕ) (w : Generator Key Item)
        (rest : List (PageResult Key Item))
        → Left is_count send end a o w rest
        → Left is_count send end a o (settle is_count send i w) rest
    unfolding settle
    Left-settle i fresh o w rest h = h
    Left-settle i awaiting none w rest h = h
    Left-settle i awaiting (some j) w rest h = h
    Left-settle i yielding none w rest h = h
    Left-settle i yielding (some j) w rest h = h
    Left-settle i (over exhausted) o w rest h = h
    Left-settle i (over (failed e)) o w rest h = h
    Left-settle i (over was_cancelled) o w rest h = h
    Left-settle i (over closed) o w rest h = h

    settle-Follows :
        (i : ℕ) (w : Generator Key Item) → i < w.started → Kept w → Kept (settle is_count send i w)
    unfolding settle
    settle-Follows i w below f = record {
      rest = f.rest;
      split = f.split;
      left = Left-settle i w.phase w.task w f.rest f.left;
      honest = λ j r held done. elim (Bool-cases (nat_eq i j)) [
        | inl same ↦
            let e = (nat_eq_iff i j).0 same in
            let gives : send i w.payload ≡ r = cc (rw same at done) in
            sym gives ∙ ap (λ (k : ℕ). send k w.payload) e
        | inr apart ↦ f.honest j r held (rw apart at done)
      ];
      unborn =
          λ j above. let apart : nat_eq i j ≡ false = ground arith in rw apart (f.unborn j above);
      current = f.current;
    }

    close-Follows : (w : Generator Key Item) → Kept w → Kept (close is_count w)
    unfolding close
    close-Follows w f = record {
      rest = f.rest;
      split = f.split;
      left = tt;
      honest = f.honest;
      unborn = f.unborn;
      current = f.current;
    }

    Step-Follows : {w v : Generator Key Item} → Step is_count send w v → Kept w → Kept v
    unfolding on_cancelled
    Step-Follows {w} (settles i below run e) f = subst Kept (sym e) (settle-Follows i w below f)
    Step-Follows {w} (begins h e) f =
        subst Kept (sym e) (begin-Follows is_count send end pages w f h)
    Step-Follows {w} (goes_on h e) f =
        subst Kept (sym e) (go_on-Follows is_count send end pages w h f)
    Step-Follows {w} (resumes i r h held done e) f =
        subst Kept (sym e) (resume_await-Follows is_count send end pages w i r h held done f)
    Step-Follows {w} (cancels h e) f = subst Kept (sym e) (cancel_task-Follows w.task w refl f)
    Step-Follows {w} (closes h e) f = subst Kept (sym e) (close-Follows w f)

    from_here : {w v : Generator Key Item} → Kept w → Reach is_count send w v → Kept v
    from_here f here = f
    from_here f (later r st) = Step-Follows st (from_here f r)

    -- Nothing is left where the loop or an exception has ended the generator.
    abbrev pub EndsAs : Phase → List (PageResult Key Item) → Type 0
    EndsAs (over exhausted) rest = (rest ≡ []) × (end ≡ ok tt)
    EndsAs (over (failed e)) rest = (rest ≡ []) × (end ≡ raised e)
    EndsAs _ rest = Unit

    ends_as :
        (a : Phase) (o : Option ℕ) (w : Generator Key Item) (rest : List (PageResult Key Item))
        → Left is_count send end a o w rest
        → EndsAs a rest
    ends_as fresh o w rest h = tt
    ends_as awaiting o w rest h = tt
    ends_as yielding o w rest h = tt
    ends_as (over exhausted) o w rest h = h
    ends_as (over (failed e)) o w rest h = h
    ends_as (over was_cancelled) o w rest h = tt
    ends_as (over closed) o w rest h = tt

    -- Where the loop of `_depaginate`, for a consumer that takes every page, yields `pages` and ends
    -- as `end`: in every state that the generator comes to, however its tasks and its consumer are
    -- scheduled, it has yielded the first pages of these, in order. Where its loop has ended it has
    -- yielded them all and the run raises nothing; where a request has raised, it has yielded them
    -- all and the run raises that exception.
    pub Reach-Follows :
        (fuel : ℕ) (start : Option Key) (limit : Option ℕ)
        → depaginate is_count send fuel start limit ≡ some (pages, end)
        → (w : Generator Key Item) → Reach is_count send (opened is_count start limit) w
        → (rest : List (PageResult Key Item)) × (w.yielded ++ rest ≡ pages) × EndsAs w.phase rest
    unfolding depaginate
    Reach-Follows fuel start limit run w r =
        let f =
          from_here
            (record {
              rest = pages;
              split = refl;
              left = (fuel, run);
              honest = λ i x. cc;
              unborn = λ i h. refl;
              current = λ i. cc;
            })
            r in
        (f.rest, f.split, ends_as w.phase w.task w f.rest f.left)
