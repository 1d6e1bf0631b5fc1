-- ===== src/Client/Pagination.antt =====
-- `Client._depaginate` of client.py, and the loops of query, scan, count and scan_count over it.
pub mod Limits
pub mod Pages
pub mod Prefetch
use aiodynamo.Prelude.{
  ℕ, zero, suc, ◌+◌, ◌-◌, Bool, true, false, Option, none, some, List, [], ◌∷◌, ◌++◌, length, ltb,
  if◌then◌else◌,
}
use aiodynamo.Errors.{Exception, Result, ok, raised, ◌>>=◌, map_result}

-- What the loop reads of a response.
pub record PageResult (Key Item : Type 0) : Type 0 where
  pub items : List Item
  pub count : ℕ
  pub last_evaluated_key : Option Key

-- What the loop writes in the payload: "ExclusiveStartKey" and "Limit".
pub record PageRequest (Key : Type 0) : Type 0 where
  pub exclusive_start_key : Option Key
  pub limit : Option ℕ

module _ {Key Item : Type 0} (is_count : Bool) where
  unfoldable pub consumed : PageResult Key Item → ℕ
  consumed result = if is_count then result.count else length result.items

  -- The request for the page after `result`: none where the loop is over. A limit at or below 0
  -- ends it, so the subtraction may stop at 0.
  unfoldable pub next_request :
      PageRequest Key
      → Option ℕ
      → PageResult Key Item
      → Option Key
      → Option (PageRequest Key × Option ℕ)
  unfolding consumed
  next_request payload limit result none = none
  next_request payload none result (some key) =
      some (record payload { exclusive_start_key = some key }, none)
  next_request payload (some limit) result (some key) =
      let left = limit - consumed result in
      if ltb 0 left
      then some (record { exclusive_start_key = some key; limit = some left }, some left)
      else none

  module _ (send : ℕ → PageRequest Key → Result (PageResult Key Item)) where
    abbrev pub prepend :
        PageResult Key Item
        → Option (List (PageResult Key Item) × Result (Unit {0}))
        → Option (List (PageResult Key Item) × Result (Unit {0}))
    prepend result none = none
    prepend result (some (results, end)) = some (result ∷ results, end)

    abbrev pub follow :
        PageResult Key Item
        → Option (PageRequest Key × Option ℕ)
        → (PageRequest Key → Option ℕ → Option (List (PageResult Key Item) × Result (Unit {0})))
        → Option (List (PageResult Key Item) × Result (Unit {0}))
    follow result none rest = some (result ∷ [], ok tt)
    follow result (some (payload, limit)) rest = prepend result (rest payload limit)

    abbrev pub handle :
        PageRequest Key
        → Option ℕ
        → Result (PageResult Key Item)
        → (PageRequest Key → Option ℕ → Option (List (PageResult Key Item) × Result (Unit {0})))
        → Option (List (PageResult Key Item) × Result (Unit {0}))
    handle payload limit (raised e) rest = some ([], raised e)
    handle payload limit (ok result) rest =
        follow result (next_request payload limit result result.last_evaluated_key) rest

    -- The results that are yielded, to a consumer that takes them all, and how the loop ends. The
    -- i-th request is `send i`. `none`: the fuel ran out.
    unfoldable pub loop :
        ℕ → ℕ → PageRequest Key → Option ℕ → Option (List (PageResult Key Item) × Result (Unit {0}))
    unfolding next_request
    loop zero i payload limit = none
    loop (suc fuel) i payload limit =
        let rest : PageRequest Key
            → Option ℕ
            → Option (List (PageResult Key Item) × Result (Unit {0})) =
          loop fuel (i + 1) in
        handle payload limit (send i payload) rest

    -- `_depaginate(action, payload, limit)`, where the payload has this start key.
    unfoldable pub depaginate :
        ℕ → Option Key → Option ℕ → Option (List (PageResult Key Item) × Result (Unit {0}))
    unfolding loop
    depaginate fuel start limit =
        loop fuel 0 (record { exclusive_start_key = start; limit = limit }) limit

-- `query` and `scan`: the items of all pages, each deserialized.
unfoldable pub stream_items {ℓ} :
    {Key Item : Type 0} {V : Type ℓ}
    → (Item → Result V)
    → List (PageResult Key Item)
    → Result (List V)
unfolding map_result
stream_items convert [] = ok []
stream_items convert (page ∷ pages) = do
  vs ← map_result convert page.items
  ws ← stream_items convert pages
  ok (vs ++ ws)

-- `count` and `scan_count`: the sum of "Count".
unfoldable pub count_sum : {Key Item : Type 0} → List (PageResult Key Item) → ℕ
count_sum [] = 0
count_sum (page ∷ pages) = page.count + count_sum pages
