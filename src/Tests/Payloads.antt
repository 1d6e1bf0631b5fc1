-- ===== src/Tests/Payloads.antt =====
-- Payloads and errors at concrete inputs.
use aiodynamo.Prelude.{
  ◌≡◌, refl, String, ◌+s◌, true, false, some, none, List, [], ◌∷◌, arith, inr, inl, string_Keyed,
}
use aiodynamo.Prelude.Dict.{lookup}
use aiodynamo.Errors.{
  ok, error_body, exception_from_response, parse_error, error_code, construct, dynamo_error,
  throttled, map_result,
}
use aiodynamo.Errors.Codes.{has_no_hash, HasNoHash, exception_from_response-prefix}
use aiodynamo.Values.{Value, Fields, Tagged, TaggedFields, dy2py, py2dy, serialize_dict}
use aiodynamo.Expressions.Keys.{KeyCondition}
use aiodynamo.Models.{ReturnValues}
use aiodynamo.Expressions.Parameters.{pure, to_request_payload}
use aiodynamo.Client.Payloads.{Payload, text, item, with_parameters, put_expression, put_parameters}
use aiodynamo.Client.Payloads.Query.{
  scan_count_payload, Select, QueryArguments, query_payload, ScanArguments, scan_payload,
  CountArguments, count_payload,
}
use aiodynamo.Client.Payloads.Items.{
  Operation, operation_payload, condition_payload, dynamo_item, transact_payload, WriteRequest,
  get_item_payload, put_item_payload, delete_item_payload, update_item_payload, batch_write_payload,
  unprocessed,
}
use aiodynamo.Client.Payloads.Meaning.{projection, condition, nothing}
use aiodynamo.Client.Payloads.Meaning.Sent.{Sent, put_meaning}
use aiodynamo.Client.Payloads.Meaning.Requests.{
  checked_meaning, query_payload-Sent, scan_meaning, scan_payloads-Sent, count_meaning,
  count_payload-Sent,
}
use aiodynamo.Client.Payloads.Meaning.Items.{
  item_meaning, item_payloads-Sent, update_item_meaning, update_item_payload-Sent,
}
use aiodynamo.Client.Payloads.Meaning.Transactions.{
  Agrees, SaysEntries, transaction_meaning, transact_payload-Agrees,
}
use aiodynamo.Client.Payloads.Batches.{unprocessed-batch_write_payload}
use aiodynamo.Expressions.Meaning.Paths.{projection_meaning}
use aiodynamo.Expressions.Meaning.Conditions.{condition_meaning}
use aiodynamo.Tests.Encoding.{in_range, absent, updates, partition, paths}
use aiodynamo.Tests.Storage.{read_number, listed}

abbrev key : Fields
key = Fields.field "pk" (Value.str "x") Fields.end

abbrev query_arguments : QueryArguments
query_arguments = record {
  table = "t";
  key_condition = KeyCondition.hash_and_range_key partition in_range;
  start_key = some key;
  filter_expression = some absent;
  scan_forward = true;
  index = some "i";
  projection = some paths;
  select = Select.all_attributes;
  consistent_read = false;
}

abbrev scan_arguments : ScanArguments
scan_arguments = record {
  table = "t";
  index = some "i";
  start_key = some key;
  projection = some paths;
  filter_expression = some in_range;
  consistent_read = false;
}

abbrev count_arguments : CountArguments
count_arguments = record {
  table = "t";
  key_condition = KeyCondition.hash_and_range_key partition in_range;
  start_key = some key;
  filter_expression = some absent;
  index = none;
  consistent_read = true;
}

query_payload-Sent_example :
    Sent
      (query_payload query_arguments)
      (checked_meaning query_arguments (some paths) Select.all_attributes)
query_payload-Sent_example = query_payload-Sent query_arguments

scan_payloads-Sent_example :
    Sent (scan_payload scan_arguments) (scan_meaning scan_arguments)
    × Sent
        (scan_count_payload scan_arguments)
        (scan_meaning (record scan_arguments { projection = none }))
scan_payloads-Sent_example = scan_payloads-Sent scan_arguments

count_payload-Sent_example : Sent (count_payload count_arguments) (count_meaning count_arguments)
count_payload-Sent_example = count_payload-Sent count_arguments

item_payloads-Sent_example :
    Sent
      (get_item_payload "t" key (some paths) true)
      (item_meaning key (put_meaning projection projection_meaning (some paths) nothing))
    × Sent
        (put_item_payload "t" key ReturnValues.none (some in_range))
        (item_meaning key (put_meaning condition condition_meaning (some in_range) nothing))
    × Sent
        (delete_item_payload "t" key ReturnValues.none (some in_range))
        (item_meaning key (put_meaning condition condition_meaning (some in_range) nothing))
item_payloads-Sent_example =
    item_payloads-Sent "t" key (some paths) true ReturnValues.none (some in_range)

update_item_payload-Sent_example :
    Sent
      (update_item_payload "t" key updates ReturnValues.none (some in_range))
      (update_item_meaning key updates (some in_range))
update_item_payload-Sent_example =
    update_item_payload-Sent "t" key updates ReturnValues.none (some in_range)

abbrev operations : List Operation
operations = Operation.delete "t" key none ∷ []

abbrev sent_operations : List (String × Payload)
sent_operations =
    (
      "Delete",
      ("TableName", text "t")
          ∷ ("Key", item (TaggedFields.field "pk" (Tagged.s "x") TaggedFields.end))
          ∷ [],
    )
    ∷ []

operations_sent : transact_payload operations ≡ ok sent_operations
unfolding transact_payload operation_payload condition_payload dynamo_item py2dy serialize_dict
    with_parameters put_expression pure map_result put_parameters to_request_payload
operations_sent = refl

-- One operation of each kind.
abbrev each_operation : List Operation
each_operation =
    Operation.get "t" key (some paths)
    ∷ Operation.put "t" key (some in_range)
    ∷ Operation.update "t" key updates (some in_range)
    ∷ Operation.delete "t" key none
    ∷ Operation.condition_check "t" key (some absent)
    ∷ []

transact_payload-Agrees_example :
    Agrees SaysEntries (transact_payload each_operation) (transaction_meaning each_operation)
transact_payload-Agrees_example = transact_payload-Agrees each_operation

unprocessed-batch_write_payload_example :
    (ws : List WriteRequest) × (batch_write_payload
        (key ∷ [])
        (Fields.field "a" listed Fields.end ∷ [])
      ≡ ok ws)
    × (unprocessed (dy2py read_number) ws ≡ ok (key ∷ [], Fields.field "a" listed Fields.end ∷ []))
unprocessed-batch_write_payload_example =
    unprocessed-batch_write_payload read_number (key ∷ []) (Fields.field "a" listed Fields.end ∷ [])
      ((tt, tt), tt) (((refl, (omega arith, (inr (inl tt), tt))), tt), tt)

plain_known :
    parse_error (error_body (some "ThrottlingException") none) ≡ ok (dynamo_error throttled)
unfolding parse_error error_code construct lookup
plain_known = refl

namespace_plain : HasNoHash "com.amazon"
unfolding has_no_hash
namespace_plain = refl

code_plain : HasNoHash "ThrottlingException"
unfolding has_no_hash
code_plain = refl

exception_from_response-prefix_example :
    exception_from_response 400
      (error_body (some ("com.amazon" +s ("#" +s "ThrottlingException"))) none)
    ≡ exception_from_response 400 (error_body (some "ThrottlingException") none)
exception_from_response-prefix_example =
    exception_from_response-prefix 400 "com.amazon" "ThrottlingException" none
      (dynamo_error throttled) namespace_plain code_plain plain_known
