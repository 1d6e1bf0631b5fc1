-- ===== src/Client/Payloads/Items.antt =====
-- The payloads of the operations on one item: get_item, put_item, delete_item and update_item of
-- client.py, the transaction operations of operations.py, and the batch requests of models.py.
use aiodynamo.Prelude.{
  String, Bool, Option, none, some, List, [], ◌∷◌, ◌++◌, map, length, ltb, nat_eq, string_Keyed,
  if◌then◌else◌,
}
use aiodynamo.Errors.{
  Result, ok, raised, empty_item, transaction_empty, too_many_transactions, map_result,
  ◌>>=◌ as ◌>>>◌,
}
use aiodynamo.Values.{Fields, TaggedFields, end, field, py2dy}
use aiodynamo.Expressions.Parameters.{Text, Exec, pure, raise, ◌>>=◌}
use aiodynamo.Expressions.Fields.{Projection, encode_projection}
use aiodynamo.Expressions.Conditions.{Condition, encode_condition}
use aiodynamo.Expressions.Updates.{UpdateExpression, encode_update}
use aiodynamo.Models.{ReturnValues, return_value}
use aiodynamo.Client.Payloads.{
  text, boolean, expression, item, items, Payload, lift, put_expression, with_parameters,
}
use aiodynamo.Client.Payloads.Query.{encode_option}

-- `py2dy(...)` and `if not ...: raise EmptyItem()`
abbrev pub not_empty : TaggedFields → Result TaggedFields
not_empty end = raised empty_item
not_empty (field k v fs) = ok (field k v fs)

unfoldable pub dynamo_item : Fields → Result TaggedFields
dynamo_item fs = py2dy fs >>> not_empty

-- The payload of a Get: `get_item` adds "ConsistentRead" to it.
unfoldable pub get_payload : String → Payload → Fields → Option Projection → Result Payload
get_payload table extra key projection = dynamo_item key >>> λ k. with_parameters (
    put_expression "ProjectionExpression" (encode_option encode_projection projection)
      (("TableName", text table) ∷ ("Key", item k) ∷ extra))

-- The payload of a Put, a Delete or a ConditionCheck, with the item under its name.
unfoldable pub condition_payload :
    String → Payload → String → Fields → Option Condition → Result Payload
condition_payload table extra name fs condition = dynamo_item fs >>> λ x. with_parameters (
    put_expression "ConditionExpression" (encode_option encode_condition condition)
      (("TableName", text table) ∷ (name, item x) ∷ extra))

unfoldable pub get_item_payload : String → Fields → Option Projection → Bool → Result Payload
get_item_payload table key projection consistent_read =
    get_payload table (("ConsistentRead", boolean consistent_read) ∷ []) key projection

unfoldable pub put_item_payload : String → Fields → ReturnValues → Option Condition → Result Payload
put_item_payload table fs return_values condition =
    condition_payload table (("ReturnValues", text (return_value return_values)) ∷ []) "Item" fs
      condition

unfoldable pub delete_item_payload :
    String → Fields → ReturnValues → Option Condition → Result Payload
delete_item_payload table key return_values condition =
    condition_payload table (("ReturnValues", text (return_value return_values)) ∷ []) "Key" key
      condition

abbrev pub updating : Option Text → Exec Text
updating none = raise empty_item
updating (some t) = pure t

-- The update is encoded before the key, and the condition with the same Parameters.
unfoldable pub update_body :
    String → Payload → Fields → UpdateExpression → Option Condition → Exec Payload
update_body table extra key update condition = do
  encoded ← encode_update update
  t ← updating encoded
  k ← lift (py2dy key)
  put_expression "ConditionExpression" (encode_option encode_condition condition)
      (("TableName", text table) ∷ ("UpdateExpression", expression t) ∷ ("Key", item k) ∷ extra)

unfoldable pub update_item_payload :
    String → Fields → UpdateExpression → ReturnValues → Option Condition → Result Payload
update_item_payload table key update return_values condition = with_parameters (
    update_body table (("ReturnValues", text (return_value return_values)) ∷ []) key update
      condition)

-- The operations of a transaction.
pub data Operation : Type 0 where
  get : String → Fields → Option Projection → Operation
  put : String → Fields → Option Condition → Operation
  update : String → Fields → UpdateExpression → Option Condition → Operation
  delete : String → Fields → Option Condition → Operation
  condition_check : String → Fields → Option Condition → Operation

abbrev named : String → Result Payload → Result (String × Payload)
named name r = r >>> λ payload. ok (name, payload)

-- `to_request_payload` of each class: {name: payload}
unfoldable pub operation_payload : Operation → Result (String × Payload)
operation_payload (get table key projection) = named "Get" (get_payload table [] key projection)
operation_payload (put table fs condition) =
    named "Put" (condition_payload table [] "Item" fs condition)
operation_payload (update table key expr condition) =
    named "Update" (with_parameters (update_body table [] key expr condition))
operation_payload (delete table key condition) =
    named "Delete" (condition_payload table [] "Key" key condition)
operation_payload (condition_check table key condition) =
    named "ConditionCheck" (condition_payload table [] "Key" key condition)

-- The guards of `transact_write_items` and `transact_get_items`, and "TransactItems".
unfoldable pub transact_payload : List Operation → Result (List (String × Payload))
transact_payload operations =
    if nat_eq (length operations) 0
    then raised transaction_empty
    else if ltb 100 (length operations)
    then raised too_many_transactions
    else map_result operation_payload operations

-- `BatchGetRequest.to_request_payload`
unfoldable pub batch_get_payload : List Fields → Option Projection → Bool → Result Payload
batch_get_payload keys projection consistent_read = map_result py2dy keys >>> λ ks.
    with_parameters (
      put_expression "ProjectionExpression" (encode_option encode_projection projection)
        (("Keys", items ks) ∷ ("ConsistentRead", boolean consistent_read) ∷ []))

-- A write of a batch, as it is sent and as it comes back unprocessed.
pub data WriteRequest : Type 0 where
  delete_request : TaggedFields → WriteRequest
  put_request : TaggedFields → WriteRequest

-- `BatchWriteRequest.to_request_payload`, with None as no keys or items.
unfoldable pub batch_write_payload : List Fields → List Fields → Result (List WriteRequest)
batch_write_payload keys_to_delete items_to_put = map_result py2dy keys_to_delete >>> λ ks.
    map_result py2dy items_to_put >>> λ xs. ok (map delete_request ks ++ map put_request xs)

-- The loop over "UnprocessedItems" of one table in `batch_write`: the keys that were not deleted
-- and the items that were not put.
unfoldable pub unprocessed :
    (TaggedFields → Result Fields) → List WriteRequest → Result (List Fields × List Fields)
unprocessed dy2py [] = ok ([], [])
unprocessed dy2py (delete_request key ∷ rest) =
    dy2py key >>> λ k. unprocessed dy2py rest >>> λ (keys, puts). ok (k ∷ keys, puts)
unprocessed dy2py (put_request x ∷ rest) =
    dy2py x >>> λ v. unprocessed dy2py rest >>> λ (keys, puts). ok (keys, v ∷ puts)
