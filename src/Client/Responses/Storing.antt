-- ===== src/Client/Responses/Storing.antt =====
-- `put_item` and `get_item` of client.py, in front of a service that keeps items.
use aiodynamo.Prelude.{
  String, ◌≡◌, refl, sym, ap, ◌∙◌, subst, true, false, Option, none, some, [], ◌∷◌, inl, inr,
  string_Keyed, ◌==◌, arith,
}
use aiodynamo.Prelude.Dict.{lookup, insert}
use aiodynamo.Errors.{Result, ok, ◌>>=◌, Result-cases, ok_injective, >>=-eq-ok}
use aiodynamo.Values.{Value, Fields, TaggedFields, py2dy, dy2py}
use aiodynamo.Values.RoundTrip.{AreStorableFields, dy2py-serialize_dict}
use aiodynamo.Expressions.Parameters.{
  Parameters, Text, Exec, pure, then_run, new_parameters, to_request_payload,
}
use aiodynamo.Expressions.Conditions.{Condition, encode_condition}
use aiodynamo.Models.{ReturnValues, return_value}
use aiodynamo.Client.Payloads.{
  Payload, text, boolean, item, expression, put_expression, put_parameters, with_parameters,
}
use aiodynamo.Client.Payloads.Query.{encode_option}
use aiodynamo.Client.Payloads.Items.{
  dynamo_item, not_empty, put_item_payload, condition_payload, get_item_payload, get_payload,
}
use aiodynamo.Client.Payloads.Meaning.{insert-other, names_key, values_key}
use aiodynamo.Client.Payloads.Meaning.Closed.{put_parameters-other}
use aiodynamo.Client.Responses.{get_item, read_item}

-- A service with its tables: what PutItem and GetItem make of a payload, and the key attributes of an
-- item. A consistent read of the key of an item that has been put gives that item.
pub record Service (Store : Type 0) : Type 0 where
  pub put : Payload → Store → Result (Option TaggedFields) × Store
  pub get : Payload → Store → Result (Option TaggedFields)
  pub key_of : TaggedFields → TaggedFields
  pub read_back :
      (p q : Payload) (s : Store) (table : String) (x : TaggedFields)
      (attributes : Option TaggedFields)
      → lookup "TableName" p ≡ some (text table)
      → lookup "Item" p ≡ some (item x)
      → (put p s).0 ≡ ok attributes
      → lookup "TableName" q ≡ some (text table)
      → lookup "Key" q ≡ some (item (key_of x))
      → lookup "ConsistentRead" q ≡ some (boolean true)
      → lookup "ProjectionExpression" q ≡ none
      → get q (put p s).1 ≡ ok (some x)

tagged_same : (x y : TaggedFields) → not_empty x ≡ ok y → y ≡ x
tagged_same TaggedFields.end y h = cc
tagged_same (TaggedFields.field k v fs) y h = sym (ok_injective h)

-- An entry that is none of the expression, the names and the values stays as it was.
entry_kept :
    (key : String) (o : Option (Exec Text)) (base payload : Payload) (k : String)
    → (key == k) ≡ false
    → (names_key == k) ≡ false
    → (values_key == k) ≡ false
    → with_parameters (put_expression key o base) ≡ ok payload
    → lookup k payload ≡ lookup k base
unfolding with_parameters put_expression pure aiodynamo.Expressions.Parameters.◌>>=◌
entry_kept key none base payload k apart no_name no_value h =
    let same : put_parameters new_parameters base ≡ payload = ground arith in
    ap (lookup k) (sym same) ∙ put_parameters-other new_parameters base k no_name no_value
entry_kept key (some m) base payload k apart no_name no_value h =
    elim (Result-cases (m new_parameters)) [
      | inr (e, fails) ↦ absurd (cc (rw fails at h))
      | inl ((t, q), goes) ↦
          let same : put_parameters q (insert key (expression t) base) ≡ payload =
            ok_injective (rw goes at h) in
          ap (lookup k) (sym same)
          ∙ put_parameters-other q (insert key (expression t) base) k no_name no_value
          ∙ insert-other key k (expression t) base apart
    ]

abbrev put_base : String → TaggedFields → ReturnValues → Payload
put_base table x returns =
    ("TableName", text table)
    ∷ ("Item", item x)
    ∷ ("ReturnValues", text (return_value returns))
    ∷ []

abbrev get_base : String → TaggedFields → Payload
get_base table k =
    ("TableName", text table) ∷ ("Key", item k) ∷ ("ConsistentRead", boolean true) ∷ []

-- What put_item sends.
put_entries :
    (table : String) (fs : Fields) (x : TaggedFields) (returns : ReturnValues)
    (c : Option Condition) (payload : Payload)
    → py2dy fs ≡ ok x
    → put_item_payload table fs returns c ≡ ok payload
    → (lookup "TableName" payload ≡ some (text table)) × (lookup "Item" payload ≡ some (item x))
unfolding put_item_payload condition_payload dynamo_item lookup
put_entries table fs x returns c payload there sent =
    let (y, non_empty, built) = >>=-eq-ok (py2dy fs >>= not_empty) _ sent in
    let same : y ≡ x = tagged_same x y (rw there at non_empty) in
    let kept = λ (k : String).
      entry_kept "ConditionExpression" (encode_option encode_condition c) (put_base table y returns)
        payload k in
    (
      kept "TableName" refl refl refl built,
      kept "Item" refl refl refl built ∙ ap (λ (z : TaggedFields). some (item z)) same,
    )

-- What get_item sends, without a projection.
get_sent :
    (table : String) (key : Fields) (k : TaggedFields)
    → dynamo_item key ≡ ok k
    → get_item_payload table key none true ≡ ok (get_base table k)
unfolding get_item_payload get_payload with_parameters put_expression pure put_parameters
    to_request_payload
get_sent table key k there = rw there refl

module _ {Store : Type 0} (service : Service Store) (numeric_type : String → Result Value) where
  -- With a service that gives back, on a consistent read, the item that was put with the key: when an
  -- item of the storable kind (its values are read back as themselves, so there are lists but no tuples)
  -- is put, its payload is built, and the service accepts it, then a consistent `get_item` of its key,
  -- without a projection, returns that item, whatever condition and return values the put had.
  pub get_item-put_item :
      (s : Store) (table : String) (fs key : Fields) (x : TaggedFields) (returns : ReturnValues)
      (c : Option Condition) (payload : Payload) (attributes : Option TaggedFields)
      → AreStorableFields numeric_type fs
      → py2dy fs ≡ ok x
      → dynamo_item key ≡ ok (service.key_of x)
      → put_item_payload table fs returns c ≡ ok payload
      → (service.put payload s).0 ≡ ok attributes
      → get_item numeric_type (λ q. service.get q (service.put payload s).1) table key none true
        ≡ ok fs
  unfolding get_item
  get_item-put_item s table fs key x returns c payload attributes storable there key_there sent
        accepted =
      let (named, kept) = put_entries table fs x returns c payload there sent in
      let k = service.key_of x in
      let found =
        service.read_back payload (get_base table k) s table x attributes named kept accepted
          (unfold lookup in refl) (unfold lookup in refl) (unfold lookup in refl)
          (unfold lookup in refl) in
      let (y, there', back) = dy2py-serialize_dict numeric_type fs storable in
      let same : y ≡ x = ok_injective (sym there' ∙ unfold py2dy in there) in
      let read = subst (λ (z : TaggedFields). dy2py numeric_type z ≡ ok fs) same back in
      rw (get_sent table key k key_there) (rw found (unfold read_item in read))
