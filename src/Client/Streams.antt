-- ===== src/Client/Streams.antt =====
-- query, scan, count and scan_count of client.py, for a caller who takes all that they yield. `send`
-- gives the response to the i-th request: the payload, and what `_depaginate` writes in it.
use aiodynamo.Prelude.{ℕ, String, Bool, true, false, Option, none, some, List}
use aiodynamo.Errors.{Result, ok, raised, ◌>>=◌}
use aiodynamo.Values.{Value, Fields, end, field, TaggedFields, dy2py, py2dy}
use aiodynamo.Client.Payloads.{Payload}
use aiodynamo.Client.Payloads.Query.{
  QueryArguments, ScanArguments, CountArguments, query_payload, scan_payload, count_payload,
  scan_count_payload,
}
use aiodynamo.Client.Pagination.{PageResult, PageRequest, depaginate, stream_items, count_sum}

-- The "ExclusiveStartKey" of a payload for a start key: none for None and for an empty one.
abbrev pub start_of : Option Fields → Result (Option TaggedFields)
start_of none = ok none
start_of (some end) = ok none
start_of (some (field k v fs)) = py2dy (field k v fs) >>= λ x. ok (some x)

-- The pages that are yielded, and how it ends.
abbrev pub Yielded : Type 0
Yielded = Option (List (PageResult TaggedFields TaggedFields) × Result (Unit {0}))

-- The items of the pages, of a caller who takes them all.
abbrev pub streamed : (String → Result Value) → Yielded → Option (Result (List Fields))
streamed numeric_type none = none
streamed numeric_type (some (pages, stop)) =
    some (stream_items (dy2py numeric_type) pages >>= λ fs. stop >>= λ _. ok fs)

abbrev pub counted : Yielded → Option (Result ℕ)
counted none = none
counted (some (pages, stop)) = some (stop >>= λ _. ok (count_sum pages))

module _
    (send : Payload
      → ℕ
      → PageRequest TaggedFields
      → Result (PageResult TaggedFields TaggedFields)) where
  -- `self._depaginate(action, payload, limit)`, where the payload and its start key can be built.
  abbrev pub yielded : Bool → ℕ → Option ℕ → Result Payload → Result (Option TaggedFields) → Yielded
  yielded is_count fuel limit (ok payload) (ok start) =
      depaginate is_count (send payload) fuel start limit
  yielded is_count fuel limit (ok payload) (raised e) = some (List.[], raised e)
  yielded is_count fuel limit (raised e) start = some (List.[], raised e)

  module _ (numeric_type : String → Result Value) where
    unfoldable pub query : ℕ → QueryArguments → Option ℕ → Option (Result (List Fields))
    unfolding query_payload depaginate stream_items dy2py py2dy
    query fuel arguments limit =
        streamed numeric_type
          (yielded false fuel limit (query_payload arguments) (start_of arguments.start_key))

    unfoldable pub scan : ℕ → ScanArguments → Option ℕ → Option (Result (List Fields))
    unfolding scan_payload depaginate stream_items dy2py py2dy
    scan fuel arguments limit =
        streamed numeric_type
          (yielded false fuel limit (scan_payload arguments) (start_of arguments.start_key))

  unfoldable pub count : ℕ → CountArguments → Option ℕ → Option (Result ℕ)
  unfolding count_payload depaginate count_sum py2dy
  count fuel arguments limit =
      counted (yielded true fuel limit (count_payload arguments) (start_of arguments.start_key))

  unfoldable pub scan_count : ℕ → ScanArguments → Option ℕ → Option (Result ℕ)
  unfolding scan_count_payload depaginate count_sum py2dy
  scan_count fuel arguments limit =
      counted
        (yielded true fuel limit (scan_count_payload arguments) (start_of arguments.start_key))
