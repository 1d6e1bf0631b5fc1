-- ===== src/Client/Pagination/Prefetch/Remaining.antt =====
-- What `Client._depaginate` of client.py has left to yield, and how the steps of its loop keep to it.
use aiodynamo.Prelude.{
  ℕ, zero, suc, ◌+◌, ◌≤◌, ◌≡◌, inl, inr, refl, sym, ap, ◌∙◌, subst, Bool, Option, none, some, List,
  [], ◌∷◌, ◌++◌, append-nil, append_assoc, arith, Option-cases,
}
use aiodynamo.Errors.{Result, ok, raised}
use aiodynamo.Client.Pagination.{PageResult, PageRequest, loop, follow}
use aiodynamo.Client.Pagination.Prefetch.{
  running, finished, exhausted, failed, Phase, fresh, awaiting, yielding, over, Generator,
  create_task, begin, test_task, go_on, fetch_ahead, receive, resume_await,
}

pair_parts :
    {A B : Type 0} {a c : A} {b d : B}
    → ◌≡◌ {A = Option (A × B)} (some (a, b)) (some (c, d))
    → (a ≡ c) × (b ≡ d)
pair_parts h = ground arith

module _ {Key Item : Type 0} (is_count : Bool)
    (send : ℕ → PageRequest Key → Result (PageResult Key Item)) (end : Result (Unit {0})) where
  -- What is left of a run: the loop from the request of the current task on, or nothing.
  abbrev pub Left : Phase → Option ℕ → Generator Key Item → List (PageResult Key Item) → Type 0
  Left fresh o w rest =
      (fuel : ℕ) × (loop is_count send fuel w.started w.payload w.limit ≡ some (rest, end))
  Left awaiting (some i) w rest =
      (fuel : ℕ) × (loop is_count send fuel i w.payload w.limit ≡ some (rest, end))
  Left awaiting none w rest = ⊥
  Left yielding (some i) w rest =
      (fuel : ℕ) × (loop is_count send fuel i w.payload w.limit ≡ some (rest, end))
  Left yielding none w rest = (rest ≡ []) × (end ≡ ok tt)
  Left (over exhausted) o w rest = (rest ≡ []) × (end ≡ ok tt)
  Left (over (failed e)) o w rest = (rest ≡ []) × (end ≡ raised e)
  Left (over _) o w rest = Unit

  module _ (pages : List (PageResult Key Item)) where
    -- The pages yielded so far are the first of `pages`, and the rest is still to come.
    pub record Follows (w : Generator Key Item) : Type 0 where
      pub rest : List (PageResult Key Item)
      pub split : w.yielded ++ rest ≡ pages
      pub left : Left w.phase w.task w rest
      pub honest :
          (i : ℕ) (r : Result (PageResult Key Item))
          → w.task ≡ some i
          → w.tasks i ≡ finished r
          → r ≡ send i w.payload
      pub unborn : (i : ℕ) → w.started ≤ i → w.tasks i ≡ running
      pub current : (i : ℕ) → w.task ≡ some i → i + 1 ≡ w.started

    Left-at :
        (w : Generator Key Item) (f : Follows w) (a : Phase) (o : Option ℕ)
        → w.phase ≡ a
        → w.task ≡ o
        → Left a o w f.rest
    Left-at w f a o p t =
        subst (λ (b : Phase). Left b o w f.rest) p
          (subst (λ (q : Option ℕ). Left w.phase q w f.rest) t f.left)

    -- A task that is new has not finished.
    new_honest :
        (w : Generator Key Item) (f : Follows w) (payload : PageRequest Key) (i : ℕ)
        (r : Result (PageResult Key Item))
        → some w.started ≡ some i
        → w.tasks i ≡ finished r
        → r ≡ send i payload
    new_honest w f payload i r same done =
        let last : w.started ≡ i = ground arith in absurd (cc (done, f.unborn i (omega arith)))

    pub begin-Follows :
        (w : Generator Key Item) → Follows w → w.phase ≡ fresh → Follows (begin is_count w)
    unfolding begin create_task
    begin-Follows w f p = record {
      rest = f.rest;
      split = f.split;
      left = Left-at w f fresh w.task p refl;
      honest = λ i r. new_honest w f w.payload i r;
      unborn = λ i h. f.unborn i (omega arith);
      current = λ i same. ground arith;
    }

    test_task-Follows :
        (o : Option ℕ) (w : Generator Key Item)
        → w.task ≡ o
        → w.phase ≡ yielding
        → Follows w
        → Follows (test_task is_count o w)
    test_task-Follows none w t p f = record {
      rest = f.rest;
      split = f.split;
      left = Left-at w f yielding none p t;
      honest = f.honest;
      unborn = f.unborn;
      current = f.current;
    }
    test_task-Follows (some i) w t p f = record {
      rest = f.rest;
      split = f.split;
      left =
          subst (λ (o : Option ℕ). Left awaiting o (record w { phase = awaiting }) f.rest) (sym t)
            (Left-at w f yielding (some i) p t);
      honest = f.honest;
      unborn = f.unborn;
      current = f.current;
    }

    pub go_on-Follows :
        (w : Generator Key Item) → w.phase ≡ yielding → Follows w → Follows (go_on is_count w)
    unfolding go_on
    go_on-Follows w p f = test_task-Follows w.task w refl p f

    -- A round of the loop from the request that has been answered.
    fetch_ahead-Follows :
        (o : Option (PageRequest Key × Option ℕ)) (w : Generator Key Item) (i fuel : ℕ)
        (result : PageResult Key Item)
        → w.task ≡ some i
        → (f : Follows w)
        → follow is_count send result o (loop is_count send fuel (i + 1)) ≡ some (f.rest, end)
        → Follows (record (fetch_ahead is_count o w) {
          phase = yielding;
          yielded = w.yielded ++ result ∷ [];
        })
    unfolding create_task
    fetch_ahead-Follows none w i fuel result t f run =
        let (one, ends) = pair_parts run in
        record {
          rest = [];
          split =
              append-nil (w.yielded ++ result ∷ [])
              ∙ ap (λ (ps : List (PageResult Key Item)). w.yielded ++ ps) one
              ∙ f.split;
          left = (refl, sym ends);
          honest = λ j r. cc;
          unborn = f.unborn;
          current = λ j. cc;
        }
    fetch_ahead-Follows (some (payload, limit)) w i fuel result t f run =
        elim (Option-cases (loop is_count send fuel (i + 1) payload limit)) [
          | inl none_left ↦ absurd (cc (rw none_left at run))
          | inr ((rest, end'), goes) ↦
              let (more, ends) = pair_parts (rw goes at run) in
              record {
                rest = rest;
                split =
                    append_assoc w.yielded (result ∷ []) rest
                    ∙ ap (λ (ps : List (PageResult Key Item)). w.yielded ++ ps) more
                    ∙ f.split;
                left = (
                  fuel,
                  subst (λ (j : ℕ). loop is_count send fuel j payload limit ≡ some (rest, end))
                      (f.current i t) (goes ∙ ap (λ (e : Result (Unit {0})). some (rest, e)) ends),
                );
                honest = λ j r. new_honest w f payload j r;
                unborn = λ j h. f.unborn j (omega arith);
                current = λ j same. ground arith;
              }
        ]

    pub resume_await-Follows :
        (w : Generator Key Item) (i : ℕ) (r : Result (PageResult Key Item))
        → w.phase ≡ awaiting
        → w.task ≡ some i
        → w.tasks i ≡ finished r
        → Follows w
        → Follows (resume_await is_count r w)
    unfolding resume_await receive loop
    resume_await-Follows w i r p t done f =
        go r (Left-at w f awaiting (some i) p t) (f.honest i r t done)
      where
        go :
            (r : Result (PageResult Key Item))
            → (fuel : ℕ) × (loop is_count send fuel i w.payload w.limit ≡ some (f.rest, end))
            → r ≡ send i w.payload
            → Follows (resume_await is_count r w)
        go r (zero, run) sent = absurd (cc)
        go (ok result) (suc fuel, run) sent =
            fetch_ahead-Follows _ w i fuel result t f (rw (← sent) at run)
        go (raised e) (suc fuel, run) sent =
            let (one, ends) = pair_parts (rw (← sent) at run) in
            record {
              rest = f.rest;
              split = f.split;
              left = (sym one, sym ends);
              honest = f.honest;
              unborn = f.unborn;
              current = f.current;
            }
