-- ===== src/Client/Payloads/Query.antt =====
-- `_query_payload` and `_scan_payload` of client.py, and the payloads of count and scan_count.
use aiodynamo.Prelude.{String, Bool, Option, none, some, [], ◌∷◌, string_Keyed}
use aiodynamo.Prelude.Dict.{insert}
use aiodynamo.Errors.{Result, ok, raised, type_error, ◌>>=◌ as ◌>>>◌}
use aiodynamo.Values.{Fields}
use aiodynamo.Expressions.Parameters.{Text, Exec, pure, ◌>>=◌}
use aiodynamo.Expressions.Fields.{Projection, encode_projection}
use aiodynamo.Expressions.Conditions.{Condition, encode_condition}
use aiodynamo.Expressions.Keys.{KeyCondition, encode_key}
use aiodynamo.Client.Payloads.{
  text, boolean, expression, Payload, put_expression, put_start_key, put_index, with_parameters,
}

pub data Select : Type 0 where
  all_attributes all_projected_attributes count specific_attributes : Select

unfoldable pub select_value : Select → String
select_value all_attributes = "ALL_ATTRIBUTES"
select_value all_projected_attributes = "ALL_PROJECTED_ATTRIBUTES"
select_value count = "COUNT"
select_value specific_attributes = "SPECIFIC_ATTRIBUTES"

pub record QueryArguments : Type 0 where
  pub table : String
  pub key_condition : KeyCondition
  pub start_key : Option Fields
  pub filter_expression : Option Condition
  pub scan_forward : Bool
  pub index : Option String
  pub projection : Option Projection
  pub select : Select
  pub consistent_read : Bool

abbrev pub encode_option {ℓ} : {A : Type ℓ} → (A → Exec Text) → Option A → Option (Exec Text)
encode_option f none = none
encode_option f (some a) = some (f a)

-- `if projection: select = Select.specific_attributes`
abbrev pub effective_select : Option Projection → Select → Select
effective_select none select = select
effective_select (some p) select = specific_attributes

abbrev pub query_base : QueryArguments → Text → Payload
query_base a key =
    ("TableName", text a.table)
    ∷ ("KeyConditionExpression", expression key)
    ∷ ("ScanIndexForward", boolean a.scan_forward)
    ∷ ("ConsistentRead", boolean a.consistent_read)
    ∷ []

unfoldable pub query_body : QueryArguments → Select → Exec Payload
query_body a select = do
  key ← encode_key a.key_condition
  projected ←
      put_expression "ProjectionExpression" (encode_option encode_projection a.projection)
        (query_base a key)
  filtered ←
      put_expression "FilterExpression" (encode_option encode_condition a.filter_expression)
        projected
  started ← put_start_key a.start_key filtered
  pure (insert "Select" (text (select_value select)) (put_index a.index started))

abbrev pub checked : QueryArguments → Select → Result Payload
checked a count = raised type_error
checked a select = with_parameters (query_body a select)

unfoldable pub query_payload : QueryArguments → Result Payload
query_payload a = checked a (effective_select a.projection a.select)

pub record ScanArguments : Type 0 where
  pub table : String
  pub index : Option String
  pub start_key : Option Fields
  pub projection : Option Projection
  pub filter_expression : Option Condition
  pub consistent_read : Bool

abbrev pub scan_base : ScanArguments → Payload
scan_base a = ("TableName", text a.table) ∷ ("ConsistentRead", boolean a.consistent_read) ∷ []

unfoldable pub scan_body : ScanArguments → Exec Payload
scan_body a = do
  started ← put_start_key a.start_key (put_index a.index (scan_base a))
  projected ←
      put_expression "ProjectionExpression" (encode_option encode_projection a.projection) started
  put_expression "FilterExpression" (encode_option encode_condition a.filter_expression) projected

unfoldable pub scan_payload : ScanArguments → Result Payload
scan_payload a = with_parameters (scan_body a)

-- `scan_count`: no projection, and "Select" is "COUNT".
unfoldable pub scan_count_payload : ScanArguments → Result Payload
scan_count_payload a = scan_payload (record a { projection = none }) >>> λ payload.
    ok (insert "Select" (text (select_value count)) payload)

pub record CountArguments : Type 0 where
  pub table : String
  pub key_condition : KeyCondition
  pub start_key : Option Fields
  pub filter_expression : Option Condition
  pub index : Option String
  pub consistent_read : Bool

abbrev pub count_base : CountArguments → Text → Payload
count_base a key =
    ("TableName", text a.table)
    ∷ ("KeyConditionExpression", expression key)
    ∷ ("Select", text "COUNT")
    ∷ ("ConsistentRead", boolean a.consistent_read)
    ∷ []

unfoldable pub count_body : CountArguments → Exec Payload
count_body a = do
  key ← encode_key a.key_condition
  started ← put_start_key a.start_key (count_base a key)
  filtered ←
      put_expression "FilterExpression" (encode_option encode_condition a.filter_expression) started
  pure (put_index a.index filtered)

unfoldable pub count_payload : CountArguments → Result Payload
count_payload a = with_parameters (count_body a)
