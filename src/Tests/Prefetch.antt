-- ===== src/Tests/Prefetch.antt =====
-- A `_depaginate` whose consumer stops after the first page.
use aiodynamo.Prelude.{ℕ, zero, suc, ◌≡◌, refl, false, some, none, List, [], ◌∷◌, ◌++◌, arith, inr}
use aiodynamo.Errors.{Result, ok}
use aiodynamo.Client.Pagination.{PageResult, PageRequest, depaginate, loop, next_request}
use aiodynamo.Client.Pagination.Prefetch.{
  running, closed, over, Generator, opened, create_task, begin, receive, resume_await, close,
  settle, settles, begins, resumes, closes, Reach, here, later,
}
use aiodynamo.Client.Pagination.Prefetch.Safety.{Prefetches, Reach-Prefetches}
use aiodynamo.Client.Pagination.Prefetch.Following.{EndsAs, Reach-Follows}

-- Two pages, by number.
abbrev page_at : ℕ → PageResult ℕ ℕ
page_at zero = record { items = 1 ∷ []; count = 1; last_evaluated_key = some 1 }
page_at (suc i) = record { items = 2 ∷ []; count = 1; last_evaluated_key = none }

abbrev answer : ℕ → PageRequest ℕ → Result (PageResult ℕ ℕ)
answer i request = ok (page_at i)

abbrev first : Generator ℕ ℕ
first = opened false none none

abbrev awaited : Generator ℕ ℕ
awaited = settle false answer 0 (begin false first)

abbrev at_yield : Generator ℕ ℕ
at_yield = resume_await false (ok (page_at 0)) awaited

abbrev left_early : Generator ℕ ℕ
left_early = close false at_yield

left_early_reached : Reach false answer first left_early
unfolding begin create_task settle resume_await receive next_request close
left_early_reached =
    later
      (later (later (later here (begins refl refl)) (settles 0 (omega arith) refl refl))
        (resumes 0 (ok (page_at 0)) refl refl refl refl))
      (closes (inr refl) refl)

-- The request for the second page runs on.
runs_on : (left_early.phase ≡ over closed) × (left_early.tasks 1 ≡ running)
unfolding begin create_task settle resume_await receive next_request close
runs_on = (refl, refl)

Reach-Prefetches_example : Prefetches left_early
Reach-Prefetches_example = Reach-Prefetches false answer none none left_early left_early_reached

both_pages : depaginate false answer 2 none none ≡ some (page_at 0 ∷ page_at 1 ∷ [], ok tt)
unfolding depaginate loop next_request
both_pages = refl

Reach-Follows_example :
    (rest : List (PageResult ℕ ℕ)) × (left_early.yielded ++ rest ≡ page_at 0 ∷ page_at 1 ∷ [])
    × EndsAs false answer (ok tt) (page_at 0 ∷ page_at 1 ∷ []) left_early.phase rest
Reach-Follows_example =
    Reach-Follows false answer (ok tt) (page_at 0 ∷ page_at 1 ∷ []) 2 none none both_pages
      left_early left_early_reached
