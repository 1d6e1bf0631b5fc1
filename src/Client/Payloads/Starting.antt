-- ===== src/Client/Payloads/Starting.antt =====
-- The start key in the payload of a query of client.py: how it gets there in `_query_payload`, and in
-- the `{**payload, "ExclusiveStartKey": ...}` of `_depaginate`.
use aiodynamo.Prelude.{
  String, ◌≡◌, refl, sym, ap, ◌∙◌, Bool, true, false, Option, none, some, string_Keyed, ◌==◌,
  str_eq, Bool-cases, inl, inr, arith, if◌then◌else◌,
}
use aiodynamo.Prelude.Dict.{Dict, lookup, insert, lookup-insert}
use aiodynamo.Errors.{Result, ok, Result-cases, ok_injective}
use aiodynamo.Values.{Fields, Tagged, TaggedFields, py2dy, end, field}
use aiodynamo.Expressions.Parameters.{
  Parameters, Exec, pure, ◌>>=◌, new_parameters, to_request_payload,
}
use aiodynamo.Expressions.Fields.{encode_projection}
use aiodynamo.Expressions.Conditions.{encode_condition}
use aiodynamo.Expressions.Keys.{encode_key}
use aiodynamo.Client.Payloads.{
  Json, Payload, text, item, lift, put_expression, put_start_key, put_index, put_names, put_values,
  put_parameters, closed, with_parameters,
}
use aiodynamo.Client.Payloads.Query.{
  Select, count, all_attributes, all_projected_attributes, specific_attributes, select_value,
  QueryArguments, effective_select, encode_option, query_base, query_body, checked, query_payload,
}
use aiodynamo.Client.Streams.{start_of}

abbrev pub start_name : String
start_name = "ExclusiveStartKey"

-- The same dict, but for the order of its entries.
abbrev pub SameEntries : Payload → Payload → Type 0
SameEntries d e = (k : String) → lookup k d ≡ lookup k e

insert-SameEntries :
    (j : String) (v : Json) (d e : Payload)
    → SameEntries d e
    → SameEntries (insert j v d) (insert j v e)
insert-SameEntries j v d e same k = rw (lookup-insert j k v d, lookup-insert j k v e, same k)

insert_twice :
    (j : String) (v w : Json) (d : Payload) → SameEntries (insert j w (insert j v d)) (insert j w d)
insert_twice j v w d k = elim (Bool-cases (j == k)) [
  | inl same ↦ rw (lookup-insert j k w (insert j v d), lookup-insert j k w d, same)
  | inr apart ↦
      rw (lookup-insert j k w (insert j v d), lookup-insert j k w d, lookup-insert j k v d, apart)
]

insert_swap :
    (i j : String) (v w : Json) (d : Payload)
    → (i == j) ≡ false
    → SameEntries (insert i v (insert j w d)) (insert j w (insert i v d))
insert_swap i j v w d apart k =
    let first = lookup-insert i k v (insert j w d) in
    let second = lookup-insert j k w (insert i v d) in
    rw (first, second, lookup-insert j k w d, lookup-insert i k v d)
      (ground
        (arith, string_Keyed.same_iff i j, string_Keyed.same_iff i k, string_Keyed.same_iff j k))

module _ (start : Json) where
  -- A change of a payload that leaves the start key alone, and looks at no order.
  record Frame (g : Payload → Payload) : Type 0 where
    pub commutes :
        (d : Payload) → SameEntries (g (insert start_name start d)) (insert start_name start (g d))
    pub respects : (d e : Payload) → SameEntries d e → SameEntries (g d) (g e)

  id-Frame : Frame (λ d. d)
  id-Frame = record { commutes = λ d k. refl; respects = λ d e same. same }

  insert-Frame : (j : String) (v : Json) → (j == start_name) ≡ false → Frame (insert j v)
  insert-Frame j v apart = record {
    commutes = λ d. insert_swap j start_name v start d apart;
    respects = insert-SameEntries j v;
  }

  compose-Frame : (g h : Payload → Payload) → Frame g → Frame h → Frame (λ d. g (h d))
  compose-Frame g h fg fh = record {
    commutes = λ d k.
        fg.respects (h (insert start_name start d)) (insert start_name start (h d)) (fh.commutes d)
          k
        ∙ fg.commutes (h d) k;
    respects = λ d e same. fg.respects (h d) (h e) (fh.respects d e same);
  }

  choice-Frame :
      (b : Bool) (g h : Payload → Payload) → Frame g → Frame h → Frame (λ d. if b then g d else h d)
  choice-Frame true g h fg fh = fg
  choice-Frame false g h fg fh = fh

  index-Frame : (index : Option String) → Frame (put_index index)
  unfolding put_index
  index-Frame none = id-Frame
  index-Frame (some index) =
      choice-Frame (str_eq index "") (λ d. d) (insert "IndexName" (text index)) id-Frame
        (insert-Frame "IndexName" (text index) refl)

  names-Frame : (o : Option (Dict String String)) → Frame (put_names o)
  names-Frame none = id-Frame
  names-Frame (some d) = insert-Frame "ExpressionAttributeNames" (Json.names d) refl

  values-Frame : (o : Option (Dict String Tagged)) → Frame (put_values o)
  values-Frame none = id-Frame
  values-Frame (some d) = insert-Frame "ExpressionAttributeValues" (Json.values d) refl

  parameters-Frame : (p : Parameters) → Frame (put_parameters p)
  unfolding put_parameters to_request_payload
  parameters-Frame p =
      let d = to_request_payload p in
      compose-Frame (put_values d.expression_attribute_values)
        (put_names d.expression_attribute_names) (values-Frame _) (names-Frame _)

-- What follows the start key in `_query_payload`.
abbrev finished : Parameters → Option String → Select → Payload → Payload
finished p index select started =
    put_parameters p (insert "Select" (text (select_value select)) (put_index index started))

finished-Frame :
    (start : Json) (p : Parameters) (index : Option String) (select : Select)
    → Frame start (finished p index select)
finished-Frame start p index select =
    compose-Frame start (put_parameters p)
      (λ d. insert "Select" (text (select_value select)) (put_index index d))
      (parameters-Frame start p)
      (compose-Frame start (insert "Select" (text (select_value select))) (put_index index)
        (insert-Frame start "Select" (text (select_value select)) refl) (index-Frame start index))

-- A payload that starts at `key`, and is otherwise `payload`.
abbrev pub Restarts : Result Payload → TaggedFields → Payload → Type 0
Restarts r key payload =
    (p : Payload) × (r ≡ ok p) × SameEntries p (insert start_name (item key) payload)

abbrev from_start : Option Fields → Option String → Select → Payload → Exec Payload
from_start s index select filtered = do
  started ← put_start_key s filtered
  pure (insert "Select" (text (select_value select)) (put_index index started))

started_at :
    (s : Option Fields) (key : TaggedFields) (index : Option String) (select : Select) (d : Payload)
    (p : Parameters)
    → start_of s ≡ ok (some key)
    → closed (from_start s index select d p)
      ≡ ok (finished p index select (insert start_name (item key) d))
unfolding put_start_key lift pure ◌>>=◌
started_at none key index select d p h = absurd (ground arith)
started_at (some end) key index select d p h = absurd (ground arith)
started_at (some (field k v fs)) key index select d p h =
    elim (Result-cases (py2dy (field k v fs))) [
      | inr (e, fails) ↦ absurd (ground arith)
      | inl (x, there) ↦ let same : x ≡ key = ground arith in rw (there, same) refl
    ]

module _ (s : Option Fields) (key : TaggedFields) (index : Option String) (select : Select)
    (p : Parameters) (starts : start_of s ≡ ok (some key)) where
  abbrev restart : Payload → Payload
  restart = insert start_name (item key)

  restarted_from :
      (base d payload : Payload)
      → SameEntries (restart base) (restart d)
      → finished p index select base ≡ payload
      → Restarts (closed (from_start s index select d p)) key payload
  restarted_from base d payload same finishes =
      let frame = finished-Frame (item key) p index select in
      (
        finished p index select (restart d),
        started_at s key index select d p starts,
        λ k.
            sym (frame.respects (restart base) (restart d) same k)
            ∙ frame.commutes base k
            ∙ ap (λ (e : Payload). lookup k (restart e)) finishes,
      )

  restarted :
      (t : Option Fields) (d payload : Payload)
      → closed (from_start t index select d p) ≡ ok payload
      → Restarts (closed (from_start s index select d p)) key payload
  unfolding put_start_key lift pure ◌>>=◌
  restarted none d payload built = restarted_from d d payload (λ k. refl) (ok_injective built)
  restarted (some end) d payload built = restarted_from d d payload (λ k. refl) (ok_injective built)
  restarted (some (field k v fs)) d payload built = elim (Result-cases (py2dy (field k v fs))) [
    | inr (e, fails) ↦ absurd (cc (rw fails at built))
    | inl (x, there) ↦
        restarted_from (insert start_name (item x) d) d payload
          (insert_twice start_name (item x) (item key) d) (ok_injective (rw there at built))
  ]

-- The first part of a query's payload: all but the start key, the index and "Select".
query_body-Restarts :
    (a : QueryArguments) (s : Option Fields) (key : TaggedFields) (select : Select)
    (payload : Payload)
    → start_of s ≡ ok (some key)
    → with_parameters (query_body a select) ≡ ok payload
    → Restarts (with_parameters (query_body (record a { start_key = s }) select)) key payload
unfolding with_parameters query_body ◌>>=◌
query_body-Restarts a s key select payload starts built =
    elim (Result-cases (encode_key a.key_condition new_parameters)) [
      | inr (e, fails) ↦ absurd (cc (rw fails at built))
      | inl ((t, q), keyed) ↦
          let projecting =
            put_expression "ProjectionExpression" (encode_option encode_projection a.projection)
              (query_base a t) q in
          elim (Result-cases projecting) [
            | inr (e, fails) ↦ absurd (cc (rw (keyed, fails) at built))
            | inl ((d, r), projected) ↦
                let filtering =
                  put_expression "FilterExpression"
                    (encode_option encode_condition a.filter_expression) d r in
                elim (Result-cases filtering) [
                  | inr (e, fails) ↦ absurd (cc (rw (keyed, projected, fails) at built))
                  | inl ((f, p), filtered) ↦
                      rw (keyed, projected, filtered)
                        (restarted s key a.index select p starts a.start_key f payload
                          (rw (keyed, projected, filtered) at built))
                ]
          ]
    ]

checked-Restarts :
    (a : QueryArguments) (s : Option Fields) (key : TaggedFields) (payload : Payload)
    (select : Select)
    → start_of s ≡ ok (some key)
    → checked a select ≡ ok payload
    → Restarts (checked (record a { start_key = s }) select) key payload
checked-Restarts a s key payload count starts built = absurd cc
checked-Restarts a s key payload all_attributes starts built =
    query_body-Restarts a s key all_attributes payload starts built
checked-Restarts a s key payload all_projected_attributes starts built =
    query_body-Restarts a s key all_projected_attributes payload starts built
checked-Restarts a s key payload specific_attributes starts built =
    query_body-Restarts a s key specific_attributes payload starts built

-- The payload of a query is that of the same query from another start key, but for that key.
pub query_payload-Restarts :
    (a : QueryArguments) (s : Option Fields) (key : TaggedFields) (payload : Payload)
    → start_of s ≡ ok (some key)
    → query_payload a ≡ ok payload
    → Restarts (query_payload (record a { start_key = s })) key payload
unfolding query_payload
query_payload-Restarts a s key payload starts built =
    checked-Restarts a s key payload (effective_select a.projection a.select) starts built
