-- ===== src/Client/Pagination/Limits.antt =====
-- `_depaginate` of client.py with a limit.
use aiodynamo.Prelude.{ℕ, ◌+◌, ◌≤◌, ◌≡◌, Bool, Option, none, some, List, [], ◌∷◌, ◌⊎◌}
use aiodynamo.Errors.{Exception, Result, ok, raised}
use aiodynamo.Client.Pagination.{PageResult, PageRequest, consumed}

module _ {Key Item : Type 0} (is_count : Bool)
    (send : ℕ → PageRequest Key → Result (PageResult Key Item)) where
  pub total : List (PageResult Key Item) → ℕ
  total [] = 0
  total (page ∷ pages) = consumed is_count page + total pages

  -- DynamoDB reads at most "Limit" items for a page.
  abbrev pub HonoursLimit : Type 0
  HonoursLimit =
      (i : ℕ) (payload : PageRequest Key) (page : PageResult Key Item) (n : ℕ)
      → payload.limit ≡ some n
      → send i payload ≡ ok page
      → consumed is_count page ≤ n

  -- The n-th request, if it comes to it, is answered by a last page or raises.
  abbrev pub EndsAt : ℕ → Type 0
  EndsAt n =
      (payload : PageRequest Key)
      → ((page : PageResult Key Item) × (send n payload ≡ ok page)
          × (page.last_evaluated_key ≡ none))
        ⊎ ((e : Exception) × (send n payload ≡ raised e))

  -- A run that ends, and yields pages of at most `n` in all.
  abbrev pub Within : ℕ → Option (List (PageResult Key Item) × Result (Unit {0})) → Type 0
  Within n run =
      (pages : List (PageResult Key Item)) × (end : Result (Unit {0})) × (run ≡ some (pages, end))
      × (total pages ≤ n)
