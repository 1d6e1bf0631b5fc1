-- ===== src/Client/Payloads/Meaning/Requests.antt =====
-- What the payloads of query, scan, count and scan_count of client.py say.
use aiodynamo.Prelude.{String, ◌∙◌, ◌≡◌, refl, subst, Option, none, some, List, string_Keyed}
use aiodynamo.Prelude.Dict.{lookup, insert}
use aiodynamo.Errors.{ok, raised, Result, type_error, ◌>>=◌ as ◌>>>◌}
use aiodynamo.Expressions.Parameters.{Parameters, Text, new_parameters}
use aiodynamo.Expressions.Meaning.{Meaning, resolve}
use aiodynamo.Expressions.Meaning.Refines.{Refines, Refines-bind}
use aiodynamo.Expressions.Meaning.Paths.{projection_meaning, encode_projection-Encodes}
use aiodynamo.Expressions.Meaning.Conditions.{condition_meaning, encode_condition-Encodes}
use aiodynamo.Expressions.Meaning.Keys.{key_meaning, encode_key-Encodes}
use aiodynamo.Expressions.Fields.{Projection}
use aiodynamo.Client.Payloads.{Json, Payload, text, put_index, with_parameters}
use aiodynamo.Client.Payloads.Query.{
  scan_count_payload, Select, all_attributes, all_projected_attributes, count, specific_attributes,
  select_value, QueryArguments, effective_select, query_base, query_body, checked, query_payload,
  ScanArguments, scan_base, scan_body, scan_payload, CountArguments, count_base, count_body,
  count_payload,
}
use aiodynamo.Client.Payloads.Meaning.{
  IsPlain, Slot, read, sent_parameters, insert-other, plain_slot, names_key, values_key,
  key_condition, projection, filter, Expected, nothing, with_slot, every_slot, slot_key, Entry,
  Holds, Holds-plain,
}
use aiodynamo.Expressions.Usage.{Listed}
use aiodynamo.Client.Payloads.Meaning.Usage.{SameSlots-Mentions, insert-SameSlots}
use aiodynamo.Client.Payloads.Meaning.Placeholders.{
  query_body-Used, scan_body-Used, count_body-Used,
}
use aiodynamo.Client.Payloads.Meaning.Sent.{
  sent, Sent, NoneUnused, not_sent, with_parameters-Sent, put_meaning, start_meaning, Refines-slot,
  Refines-start, put_index-Holds, Refines-finish,
}

-- A query: the key condition, the projection and the filter.
unfoldable pub query_meaning : QueryArguments → Result Expected
query_meaning a = key_meaning a.key_condition >>> λ key.
    put_meaning projection projection_meaning a.projection (with_slot key_condition key nothing)
    >>> λ projected.
        put_meaning filter condition_meaning a.filter_expression projected >>> λ filtered.
        start_meaning a.start_key filtered

-- A count of no named attributes is refused, whatever else the query asks for.
unfoldable pub checked_meaning : QueryArguments → Option Projection → Select → Result Expected
checked_meaning a none count = raised type_error
checked_meaning a none all_attributes = query_meaning a
checked_meaning a none all_projected_attributes = query_meaning a
checked_meaning a none specific_attributes = query_meaning a
checked_meaning a (some p) select = query_meaning a

query_base-Holds :
    (p : Parameters) (a : QueryArguments) (t : Text) (ms : List Meaning)
    → resolve p t ≡ some ms
    → Holds p (query_base a t) (with_slot key_condition ms nothing)
unfolding lookup
query_base-Holds p a t ms reads = record {
  entries =
      every_slot
        (λ k. Entry p (lookup (slot_key k) (query_base a t)) (with_slot key_condition ms nothing k))
        (t, refl, reads) refl refl refl refl;
  no_names = refl;
  no_values = refl;
}

query_body-Refines :
    (p : Parameters) (a : QueryArguments) (select : Select)
    → Refines Holds p (query_body a select) (query_meaning a)
unfolding query_body query_meaning
query_body-Refines p a select =
    Refines-bind p _ _ _ _ (encode_key-Encodes p a.key_condition) λ q t ms g reads.
      Refines-bind q _ _ _ _
        (Refines-slot encode_projection-Encodes q projection a.projection
          (query_base-Holds q a t ms reads))
        λ q₂ projected e₂ g₂ h₂.
          Refines-bind q₂ _ _ _ _
            (Refines-slot encode_condition-Encodes q₂ filter a.filter_expression h₂)
            λ q₃ filtered e₃ g₃ h₃.
              Refines-finish
                (λ started.
                  insert "Select" (text (select_value select)) (put_index a.index started))
                (Refines-start q₃ a.start_key h₃)
                λ r started e h.
                  Holds-plain "Select" (text (select_value select))
                    (refl, refl, refl, refl, refl, refl, refl) (put_index-Holds a.index h)

query_body-Sent :
    (a : QueryArguments) (select : Select)
    → Sent (with_parameters (query_body a select)) (query_meaning a)
query_body-Sent a select =
    with_parameters-Sent (query_body-Refines new_parameters a select) (query_body-Used a select)

checked-Sent :
    (a : QueryArguments) (p : Option Projection) (select : Select)
    → Sent (checked a (effective_select p select)) (checked_meaning a p select)
unfolding checked_meaning
checked-Sent a none count = not_sent
checked-Sent a none all_attributes = query_body-Sent a all_attributes
checked-Sent a none all_projected_attributes = query_body-Sent a all_projected_attributes
checked-Sent a none specific_attributes = query_body-Sent a specific_attributes
checked-Sent a (some p) select = query_body-Sent a specific_attributes

-- A query that selects COUNT and has no projection raises TypeError. Any other query raises what
-- encoding its expressions or its start key raises; or the key condition, the projection and the
-- filter in its payload, read with the names and values in that payload, are those of the
-- arguments, it holds no other expression, and each of its names and values stands in one of them.
pub query_payload-Sent :
    (a : QueryArguments) → Sent (query_payload a) (checked_meaning a a.projection a.select)
unfolding query_payload
query_payload-Sent a = checked-Sent a a.projection a.select

-- A scan: the start key, the projection and the filter.
unfoldable pub scan_meaning : ScanArguments → Result Expected
scan_meaning a = start_meaning a.start_key nothing >>> λ started.
    put_meaning projection projection_meaning a.projection started >>> λ projected.
    put_meaning filter condition_meaning a.filter_expression projected

scan_base-Holds : (p : Parameters) (a : ScanArguments) → Holds p (scan_base a) nothing
unfolding lookup
scan_base-Holds p a = record {
  entries =
      every_slot (λ k. Entry p (lookup (slot_key k) (scan_base a)) none) refl refl refl refl refl;
  no_names = refl;
  no_values = refl;
}

scan_body-Refines :
    (p : Parameters) (a : ScanArguments) → Refines Holds p (scan_body a) (scan_meaning a)
unfolding scan_body scan_meaning
scan_body-Refines p a =
    Refines-bind p _ _ _ _
      (Refines-start p a.start_key (put_index-Holds a.index (scan_base-Holds p a)))
      λ q started e g h.
        Refines-bind q _ _ _ _ (Refines-slot encode_projection-Encodes q projection a.projection h)
          λ q₂ projected e₂ g₂ h₂.
            Refines-slot encode_condition-Encodes q₂ filter a.filter_expression h₂

-- A scan raises what its start key or encoding its expressions raises; or the projection and the
-- filter in its payload, read with the names and values in that payload, are those of the
-- arguments, and it holds no other expression.
scan_payload-Sent : (a : ScanArguments) → Sent (scan_payload a) (scan_meaning a)
unfolding scan_payload
scan_payload-Sent a = with_parameters-Sent (scan_body-Refines new_parameters a) (scan_body-Used a)

sent_parameters-insert :
    (s : String) (v : Json) (payload : Payload)
    → IsPlain s
    → sent_parameters (insert s v payload) ≡ sent_parameters payload
sent_parameters-insert s v payload plain =
    rw (insert-other s names_key v payload plain.5, insert-other s values_key v payload plain.6)

read-insert :
    (s : String) (v : Json) (payload : Payload) (k : Slot)
    → IsPlain s
    → read (insert s v payload) k ≡ read payload k
read-insert s v payload k plain = rw (
  insert-other s (slot_key k) v payload (plain_slot s plain k),
  insert-other s names_key v payload plain.5,
  insert-other s values_key v payload plain.6,
)

-- An entry that is none of the expressions, the names and the values changes nothing of this.
insert-NoneUnused :
    (s : String) (v : Json) (payload : Payload)
    → IsPlain s
    → NoneUnused payload
    → NoneUnused (insert s v payload)
insert-NoneUnused s v payload plain all x listed =
    SameSlots-Mentions payload (insert s v payload) (insert-SameSlots s v payload plain) x (
      all x
        (subst (λ (p : Parameters). Listed p x) (sent_parameters-insert s v payload plain) listed))

plain-Sent :
    (s : String) (v : Json) (r : Result Payload) (e : Result Expected)
    → IsPlain s
    → Sent r e
    → Sent (r >>> λ payload. ok (insert s v payload)) e
plain-Sent s v (ok payload) (ok e) plain (sent says all) =
    sent (λ k. read-insert s v payload k plain ∙ says k) (insert-NoneUnused s v payload plain all)
plain-Sent s v (raised x) (raised x') plain not_sent = not_sent
plain-Sent s v (ok payload) (raised x') plain says = elim says [ ]
plain-Sent s v (raised x) (ok e) plain says = elim says [ ]

-- A scan that counts raises what its start key or encoding its filter raises; or the filter in its
-- payload, read with the names and values in that payload, is that of the arguments, and it holds no
-- other expression, whatever projection the arguments name.
scan_count_payload-Sent :
    (a : ScanArguments)
    → Sent (scan_count_payload a) (scan_meaning (record a { projection = none }))
unfolding scan_count_payload
scan_count_payload-Sent a =
    plain-Sent "Select" (text (select_value count)) _ _ (refl, refl, refl, refl, refl, refl, refl)
      (scan_payload-Sent (record a { projection = none }))

-- A scan, and one that counts, raise what the start key or encoding an expression raises; or the
-- projection and the filter in the payload, read with the names and values in that payload, are those
-- of the arguments, it holds no other expression, and each of its names and values stands in one of
-- them. The payload of a scan that counts never holds the projection.
pub scan_payloads-Sent :
    (a : ScanArguments)
    → Sent (scan_payload a) (scan_meaning a)
      × Sent (scan_count_payload a) (scan_meaning (record a { projection = none }))
scan_payloads-Sent a = (scan_payload-Sent a, scan_count_payload-Sent a)

-- A count: the key condition, the start key and the filter.
unfoldable pub count_meaning : CountArguments → Result Expected
count_meaning a = key_meaning a.key_condition >>> λ key.
    start_meaning a.start_key (with_slot key_condition key nothing) >>> λ started.
    put_meaning filter condition_meaning a.filter_expression started

count_base-Holds :
    (p : Parameters) (a : CountArguments) (t : Text) (ms : List Meaning)
    → resolve p t ≡ some ms
    → Holds p (count_base a t) (with_slot key_condition ms nothing)
unfolding lookup
count_base-Holds p a t ms reads = record {
  entries =
      every_slot
        (λ k. Entry p (lookup (slot_key k) (count_base a t)) (with_slot key_condition ms nothing k))
        (t, refl, reads) refl refl refl refl;
  no_names = refl;
  no_values = refl;
}

count_body-Refines :
    (p : Parameters) (a : CountArguments) → Refines Holds p (count_body a) (count_meaning a)
unfolding count_body count_meaning
count_body-Refines p a =
    Refines-bind p _ _ _ _ (encode_key-Encodes p a.key_condition) λ q t ms g reads.
      Refines-bind q _ _ _ _ (Refines-start q a.start_key (count_base-Holds q a t ms reads))
        λ q₂ started e₂ g₂ h₂.
          Refines-finish (λ filtered. put_index a.index filtered)
            (Refines-slot encode_condition-Encodes q₂ filter a.filter_expression h₂)
            λ r filtered e h. put_index-Holds a.index h

-- A count raises what encoding its expressions or its start key raises; or the key condition and
-- the filter in its payload, read with the names and values in that payload, are those of the
-- arguments, it holds no other expression, and each of its names and values stands in one of them.
pub count_payload-Sent : (a : CountArguments) → Sent (count_payload a) (count_meaning a)
unfolding count_payload
count_payload-Sent a =
    with_parameters-Sent (count_body-Refines new_parameters a) (count_body-Used a)
