-- ===== src/Client/Responses/Manual.antt =====
-- Following the pages of client.py by hand: query_single_page or scan_single_page again and again,
-- each time with the last key of the page before.
use aiodynamo.Prelude.{
  string_Keyed, ℕ, zero, suc, ◌+◌, ◌≡◌, sym, ◌∙◌, refl, String, false, Option, none, some, List, [],
  ◌∷◌, ◌++◌, arith, inl, inr, append-nil, length, ◌≤◌,
}
use aiodynamo.Errors.{Result, ok, raised, ◌>>=◌, map_result, Result-cases}
use aiodynamo.Values.{Value, Fields, TaggedFields, dy2py}
use aiodynamo.Client.Pagination.{PageResult, PageRequest, stream_items}
use aiodynamo.Client.Pagination.Pages.{Pages, last, more, depaginate-Pages}
use aiodynamo.Client.Responses.{Page, read_page, query_single_page, put_limit}
use aiodynamo.Client.Streams.{start_of, query}
use aiodynamo.Client.Payloads.{Payload, item}
use aiodynamo.Client.Payloads.Starting.{SameEntries, start_name, query_payload-Restarts}
use aiodynamo.Prelude.Dict.{insert}
use aiodynamo.Client.Payloads.Query.{QueryArguments, query_payload}

yielded :
    (r : Result (List Fields))
    → ◌≡◌ {A = Option (Result (List Fields))} (some r) (some (r >>= λ fs. ok fs))
yielded (ok fs) = refl
yielded (raised e) = refl

-- `{**payload, "ExclusiveStartKey": key}`
abbrev pub put_last_key : Option TaggedFields → Payload → Payload
put_last_key none payload = payload
put_last_key (some key) payload = insert start_name (item key) payload

-- The payload that `_depaginate` sends, from the one it was called with.
unfoldable pub sent_payload : Payload → PageRequest TaggedFields → Payload
unfolding insert
sent_payload payload request =
    put_limit request.limit (put_last_key request.exclusive_start_key payload)

-- A service gives its i-th response to a payload, and does not look at the order of its entries.
abbrev pub IsUnordered : (ℕ → Payload → Result (PageResult TaggedFields TaggedFields)) → Type 0
IsUnordered serve = (i : ℕ) (p q : Payload) → SameEntries p q → serve i p ≡ serve i q

-- The requests of `_depaginate` for a payload, to such a service.
abbrev pub requests :
    (ℕ → Payload → Result (PageResult TaggedFields TaggedFields))
    → Payload
    → ℕ
    → PageRequest TaggedFields
    → Result (PageResult TaggedFields TaggedFields)
requests serve payload i request = serve i (sent_payload payload request)

-- The last key of every page is read as a key that is sent as it came.
abbrev pub KeysReturn :
    (String → Result Value) → (ℕ → Payload → Result (PageResult TaggedFields TaggedFields)) → Type 0
KeysReturn numeric_type serve =
    (i : ℕ) (payload : Payload) (page : PageResult TaggedFields TaggedFields) (key : TaggedFields)
    → serve i payload ≡ ok page
    → page.last_evaluated_key ≡ some key
    → (fs : Fields) × (dy2py numeric_type key ≡ ok fs) × (start_of (some fs) ≡ ok (some key))

module _ (numeric_type : String → Result Value)
    (serve : ℕ → Payload → Result (PageResult TaggedFields TaggedFields))
    (arguments : QueryArguments) where
  abbrev pub prepend_items :
      List Fields → Option (Result (List Fields)) → Option (Result (List Fields))
  prepend_items fs none = none
  prepend_items fs (some (ok gs)) = some (ok (fs ++ gs))
  prepend_items fs (some (raised e)) = some (raised e)

  abbrev pub after_page :
      Result Page → (Fields → Option (Result (List Fields))) → Option (Result (List Fields))
  after_page (raised e) rest = some (raised e)
  after_page (ok page) rest = elim page.last_evaluated_key [
    | none ↦ some (ok page.items)
    | some key ↦ prepend_items page.items (rest key)
  ]

  -- A caller of query_single_page that asks for pages, each from the last key of the page before,
  -- until one of them is the last, and joins their items.
  unfoldable pub follow_pages : ℕ → ℕ → Option Fields → Option (Result (List Fields))
  unfolding query_single_page
  follow_pages zero i start = none
  follow_pages (suc fuel) i start =
      let rest : Option Fields → Option (Result (List Fields)) = follow_pages fuel (i + 1) in
      after_page
        (query_single_page numeric_type (serve i) (record arguments { start_key = start }) none)
        (λ key. rest (some key))

  prepend-ok :
      (fs : List Fields) (r : Result (List Fields))
      → prepend_items fs (some r) ≡ some (r >>= λ gs. ok (fs ++ gs))
  prepend-ok fs (ok gs) = refl
  prepend-ok fs (raised e) = refl

  page_last :
      (response : PageResult TaggedFields TaggedFields)
      (rest : Fields → Option (Result (List Fields)))
      → response.last_evaluated_key ≡ none
      → after_page (read_page numeric_type response) rest
        ≡ some (stream_items (dy2py numeric_type) (response ∷ []))
  unfolding read_page stream_items
  page_last response rest ends =
      elim (Result-cases (map_result (dy2py numeric_type) response.items)) [
        | inl (fs, run) ↦ rw (ends, run, append-nil) refl
        | inr (e, run) ↦ rw (ends, run) refl
      ]

  page_more :
      (response : PageResult TaggedFields TaggedFields)
      (pages : List (PageResult TaggedFields TaggedFields)) (key : TaggedFields) (fs : Fields)
      (rest : Fields → Option (Result (List Fields)))
      → response.last_evaluated_key ≡ some key
      → dy2py numeric_type key ≡ ok fs
      → rest fs ≡ some (stream_items (dy2py numeric_type) pages)
      → after_page (read_page numeric_type response) rest
        ≡ some (stream_items (dy2py numeric_type) (response ∷ pages))
  unfolding read_page stream_items
  page_more response pages key fs rest goes read same =
      elim (Result-cases (map_result (dy2py numeric_type) response.items)) [
        | inl (gs, run) ↦
            rw (goes, read, run, same) (prepend-ok gs (stream_items (dy2py numeric_type) pages))
        | inr (e, run) ↦ rw (goes, read, run) refl
      ]

  module _ (payload : Payload) (built : query_payload arguments ≡ ok payload) where
    -- A query from `start` asks for what is asked for with `key`.
    abbrev Asks : Option Fields → Option TaggedFields → Type 0
    Asks start key =
        (p : Payload) × (query_payload (record arguments { start_key = start }) ≡ ok p)
        × SameEntries p (put_last_key key payload)

    start-Asks :
        (key : Option TaggedFields)
        → start_of arguments.start_key ≡ ok key
        → Asks arguments.start_key key
    start-Asks none same = (payload, built, λ k. refl)
    start-Asks (some key) same =
        query_payload-Restarts arguments arguments.start_key key payload same built

    query_single_page-Asks :
        IsUnordered serve
        → (i : ℕ) (start : Option Fields) (key : Option TaggedFields) → Asks start key
        → query_single_page numeric_type (serve i) (record arguments { start_key = start }) none ≡ (
            requests serve payload i (record { exclusive_start_key = key; limit = none })
            >>= λ response. read_page numeric_type response)
    unfolding query_single_page sent_payload
    query_single_page-Asks unordered i start key (p, run, same) =
        rw (run, unordered i p (put_last_key key payload) same) refl

    follow-Pages :
        IsUnordered serve
        → KeysReturn numeric_type serve
        → (fuel : ℕ) (start : Option Fields) {i : ℕ} {key : Option TaggedFields}
          {pages : List (PageResult TaggedFields TaggedFields)}
        → Pages false (requests serve payload) i key pages
        → Asks start key
        → length pages ≤ fuel
        → follow_pages fuel i start ≡ some (stream_items (dy2py numeric_type) pages)
    unfolding follow_pages
    follow-Pages unordered keys zero start (last sent ends) asks h = absurd (omega arith)
    follow-Pages unordered keys zero start (more key sent goes rest) asks h = absurd (omega arith)
    follow-Pages unordered keys (suc fuel) start {i} {key = k} (last {page = page} sent ends) asks
          h =
        rw (query_single_page-Asks unordered i start k asks, sent)
          (page_last page (λ key. follow_pages fuel (i + 1) (some key)) ends)
    follow-Pages unordered keys (suc fuel) start {i} {key = k}
          (more {page = page} {pages = pages} key sent goes rest) asks h =
        let (fs, read, starts) = keys i _ page key sent goes in
        rw (query_single_page-Asks unordered i start k asks, sent)
          (page_more page pages key fs (λ key. follow_pages fuel (i + 1) (some key)) goes read
            (follow-Pages unordered keys fuel (some fs) rest
              (query_payload-Restarts arguments (some fs) key payload starts built) (omega arith)))

-- For a query whose payload can be built, a service that does not look at the order of a payload's
-- entries gives pages, one request after the other, the last of which has no last key, and every last
-- key is read as a key that is sent again as it came. Then `query` streams all their items, in order,
-- or raises what reading one of them raises; and a caller of `query_single_page` with these arguments
-- until a page is the last, each time from the last key of the page before, has exactly the same. Fuel
-- for as many requests as there are pages is enough for both.
pub follow_pages-query :
    (numeric_type : String → Result Value)
    (serve : ℕ → Payload → Result (PageResult TaggedFields TaggedFields))
    (arguments : QueryArguments) (payload : Payload) (key : Option TaggedFields)
    (pages : List (PageResult TaggedFields TaggedFields)) (fuel : ℕ)
    → IsUnordered serve
    → query_payload arguments ≡ ok payload
    → start_of arguments.start_key ≡ ok key
    → KeysReturn numeric_type serve
    → Pages false (requests serve payload) 0 key pages
    → length pages ≤ fuel
    → (query (requests serve) numeric_type fuel arguments none
        ≡ some (stream_items (dy2py numeric_type) pages))
      × (follow_pages numeric_type serve arguments fuel 0 arguments.start_key
          ≡ query (requests serve) numeric_type fuel arguments none)
unfolding query
follow_pages-query numeric_type serve arguments payload key pages fuel unordered built same keys
      served h =
    let manual =
      follow-Pages numeric_type serve arguments payload built unordered keys fuel
        arguments.start_key served (start-Asks numeric_type serve arguments payload built key same)
        h in
    let streams : query (requests serve) numeric_type fuel arguments none
        ≡ some (stream_items (dy2py numeric_type) pages) =
      rw (built, same, depaginate-Pages false (requests serve payload) fuel key pages served h)
        (sym (yielded (stream_items (dy2py numeric_type) pages))) in
    (streams, manual ∙ sym streams)
