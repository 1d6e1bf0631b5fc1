-- ===== src/Client/Pagination/Pages.antt =====
-- `_depaginate` of client.py without a limit, and the items of the pages.
use aiodynamo.Prelude.{
  ℕ, zero, suc, ◌+◌, ◌≤◌, ◌≡◌, refl, sym, Bool, Option, none, some, List, [], ◌∷◌, ◌++◌, length,
  arith,
}
use aiodynamo.Errors.{Result, ok, ◌>>=◌, map_result}
use aiodynamo.Client.Pagination.{
  PageResult, PageRequest, next_request, loop, depaginate, stream_items,
}

abbrev pub all_items : {Key Item : Type 0} → List (PageResult Key Item) → List Item
all_items [] = []
all_items (page ∷ pages) = page.items ++ all_items pages

map_result-append {ℓ κ} :
    {A : Type ℓ} {B : Type κ} (f : A → Result B) (xs ys : List A)
    → map_result f (xs ++ ys) ≡ (map_result f xs >>= λ us. map_result f ys >>= λ vs. ok (us ++ vs))
unfolding map_result
map_result-append f [] ys = ground arith
map_result-append f (x ∷ xs) ys = rw (map_result-append f xs ys) (ground arith)

abbrev unlimited : {Key : Type 0} → Option Key → PageRequest Key
unlimited start = record { exclusive_start_key = start; limit = none }

module _ {Key Item : Type 0} (is_count : Bool)
    (send : ℕ → PageRequest Key → Result (PageResult Key Item)) where
  -- The pages that the server gives, one request after the other, from the i-th request on: each
  -- answers a request that starts at the last key of the page before it, and the last has none.
  pub data Pages : ℕ → Option Key → List (PageResult Key Item) → Type 0 where
    last :
        {i : ℕ} {start : Option Key} {page : PageResult Key Item}
        → send i (unlimited start) ≡ ok page
        → page.last_evaluated_key ≡ none
        → Pages i start (page ∷ [])
    more :
        {i : ℕ} {start : Option Key} {page : PageResult Key Item}
        {pages : List (PageResult Key Item)} (key : Key)
        → send i (unlimited start) ≡ ok page
        → page.last_evaluated_key ≡ some key
        → Pages (i + 1) (some key) pages
        → Pages i start (page ∷ pages)

  loop-Pages :
      (fuel : ℕ) {i : ℕ} {start : Option Key} {pages : List (PageResult Key Item)}
      → Pages i start pages
      → length pages ≤ fuel
      → loop is_count send fuel i (unlimited start) none ≡ some (pages, ok tt)
  unfolding loop next_request
  loop-Pages zero (last sent ends) h = absurd (omega arith)
  loop-Pages zero (more key sent goes rest) h = absurd (omega arith)
  loop-Pages (suc fuel) (last sent ends) h = rw (sent, ends)
  loop-Pages (suc fuel) (more key sent goes rest) h =
      rw (sent, goes, loop-Pages fuel rest (omega arith))

  -- Without a limit, `_depaginate` yields exactly the pages of the server, in order, and ends; as
  -- many rounds as there are pages are enough.
  pub depaginate-Pages :
      (fuel : ℕ) (start : Option Key) (pages : List (PageResult Key Item))
      → Pages 0 start pages
      → length pages ≤ fuel
      → depaginate is_count send fuel start none ≡ some (pages, ok tt)
  unfolding depaginate
  depaginate-Pages fuel start pages chain h = loop-Pages fuel chain h

-- The items of all pages are converted in order, as one list, up to the first that raises.
stream_items-flat {ℓ} :
    {Key Item : Type 0} {V : Type ℓ} (convert : Item → Result V)
    (pages : List (PageResult Key Item))
    → stream_items convert pages ≡ map_result convert (all_items pages)
unfolding stream_items map_result
stream_items-flat convert [] = refl
stream_items-flat convert (page ∷ pages) =
    rw (stream_items-flat convert pages)
      (sym (map_result-append convert page.items (all_items pages)))
