-- ===== src/Client/Payloads.antt =====
-- The payloads of client.py, operations.py and models.py. A payload is a dict of JSON values; an
-- expression is kept in its pieces.
pub mod Query
pub mod Items
pub mod Meaning
pub mod Batches
pub mod Starting
use aiodynamo.Prelude.{
  ℕ, String, Bool, true, false, Option, none, some, List, [], ◌∷◌, string_Keyed, str_eq,
  if◌then◌else◌, non_empty,
}
use aiodynamo.Prelude.Dict.{Dict, insert}
use aiodynamo.Errors.{Exception, Result, ok, raised}
use aiodynamo.Values.{Fields, Tagged, TaggedFields, has_fields, py2dy, end, field}
use aiodynamo.Expressions.Parameters.{
  Parameters, ParametersDict, new_parameters, to_request_payload, Text, Exec, pure, raise, ◌>>=◌,
}

pub data Json : Type 0 where
  text : String → Json
  boolean : Bool → Json
  integer : ℕ → Json
  expression : Text → Json
  item : TaggedFields → Json
  items : List TaggedFields → Json
  names : Dict String String → Json
  values : Dict String Tagged → Json

abbrev pub Payload : Type 0
Payload = Dict String Json

-- A call that is not handed `params`.
unfoldable pub lift {ℓ} : {A : Type ℓ} → Result A → Exec A
lift (ok a) p = ok (a, p)
lift (raised e) p = raised e

-- `if x: payload[key] = x.encode(params)`
unfoldable pub put_expression : String → Option (Exec Text) → Payload → Exec Payload
put_expression key none payload = pure payload
put_expression key (some m) payload = do t ← m; pure (insert key (expression t) payload)

-- `if start_key: payload["ExclusiveStartKey"] = py2dy(start_key)`
unfoldable pub put_start_key : Option Fields → Payload → Exec Payload
put_start_key none payload = pure payload
put_start_key (some end) payload = pure payload
put_start_key (some (field k v fs)) payload = do
  start ← lift (py2dy (field k v fs))
  pure (insert "ExclusiveStartKey" (item start) payload)

-- `if index: payload["IndexName"] = index`
unfoldable pub put_index : Option String → Payload → Payload
put_index none payload = payload
put_index (some index) payload =
    if str_eq index "" then payload else insert "IndexName" (text index) payload

abbrev pub put_names : Option (Dict String String) → Payload → Payload
put_names none payload = payload
put_names (some d) payload = insert "ExpressionAttributeNames" (names d) payload

abbrev pub put_values : Option (Dict String Tagged) → Payload → Payload
put_values none payload = payload
put_values (some d) payload = insert "ExpressionAttributeValues" (values d) payload

-- `payload.update(params.to_request_payload())`
unfoldable pub put_parameters : Parameters → Payload → Payload
unfolding to_request_payload insert
put_parameters p payload =
    let d = to_request_payload p in
    put_values d.expression_attribute_values (put_names d.expression_attribute_names payload)

abbrev pub closed : Result (Payload × Parameters) → Result Payload
closed (ok (payload, p)) = ok (put_parameters p payload)
closed (raised e) = raised e

-- A payload that is built with new Parameters, which are added to it at the end.
unfoldable pub with_parameters : Exec Payload → Result Payload
with_parameters m = closed (m new_parameters)
