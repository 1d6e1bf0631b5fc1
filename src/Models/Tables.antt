-- ===== src/Models/Tables.antt =====
-- TableDescription and time to live of models.py.
pub mod Attributes
use aiodynamo.Prelude.{
  ℕ, String, Bool, true, false, Option, none, some, List, [], ◌∷◌, map, non_empty, string_Keyed,
  str_eq, if◌then◌else◌,
}
use aiodynamo.Prelude.Dict.{Dict, insert}
use aiodynamo.Errors.{Result, ok, raised, value_error, key_error, ◌>>=◌, require}
use aiodynamo.Models.Indexes.{
  Throughput, ThroughputType, provisioned, pay_per_request, pay_per_request_mode,
}
use aiodynamo.Models.Keys.{
  KeyType, KeySchema, EncodedKeySchema, key_type_value, encode, parse_key_schema,
}

pub data TimeToLiveStatus : Type 0 where
  enabling disabling enabled disabled : TimeToLiveStatus

-- `TimeToLiveStatus(text)`
unfoldable pub time_to_live_status : String → Result TimeToLiveStatus
time_to_live_status text =
    if str_eq text "ENABLING"
    then ok enabling
    else if str_eq text "DISABLING"
    then ok disabling
    else if str_eq text "ENABLED"
    then ok enabled
    else if str_eq text "DISABLED"
    then ok disabled
    else raised value_error

pub record TimeToLiveDescription : Type 0 where
  pub table : String
  pub attribute : Option String
  pub status : TimeToLiveStatus

pub data TableStatus : Type 0 where
  creating updating deleting active : TableStatus

-- `TableStatus(text)`
unfoldable pub table_status : String → Result TableStatus
table_status text =
    if str_eq text "CREATING"
    then ok creating
    else if str_eq text "UPDATING"
    then ok updating
    else if str_eq text "DELETING"
    then ok deleting
    else if str_eq text "ACTIVE"
    then ok active
    else raised value_error

-- `KeyType(text)`
unfoldable pub key_type : String → Result KeyType
key_type text =
    if str_eq text "S"
    then ok KeyType.string
    else if str_eq text "N"
    then ok KeyType.number
    else if str_eq text "B"
    then ok KeyType.binary
    else raised value_error

-- A datetime is kept as the timestamp that it is made of.
pub record TableDescription : Type 0 where
  pub attributes : Option (Dict String KeyType)
  pub created : Option ℕ
  pub item_count : Option ℕ
  pub key_schema : Option KeySchema
  pub throughput : Option ThroughputType
  pub status : TableStatus

-- The keys of a response that `from_response` reads, each with `none` where it is not there. An entry
-- of "AttributeDefinitions" is its "AttributeName" and its "AttributeType".
pub record RawDescription : Type 0 where
  pub attribute_definitions : Option (List (String × String))
  pub creation_date_time : Option ℕ
  pub key_schema : Option (List EncodedKeySchema)
  pub billing_mode_summary : Option (Option String)
  pub provisioned_throughput : Option (Option ℕ × Option ℕ)
  pub item_count : Option ℕ
  pub table_status : Option String

unfoldable pub parse_attributes :
    List (String × String) → Dict String KeyType → Result (Dict String KeyType)
unfolding key_type insert
parse_attributes [] attributes = ok attributes
parse_attributes ((name, text) ∷ definitions) attributes =
    key_type text >>= λ kind. parse_attributes definitions (insert name kind attributes)

abbrev pub parse_definitions :
    Option (List (String × String)) → Result (Option (Dict String KeyType))
parse_definitions none = ok none
parse_definitions (some definitions) =
    parse_attributes definitions [] >>= λ attributes. ok (some attributes)

-- `if attributes and "KeySchema" in description`
abbrev pub parse_schema :
    Option (Dict String KeyType) → Option (List EncodedKeySchema) → Result (Option KeySchema)
parse_schema (some (a ∷ attributes)) (some keys) =
    parse_key_schema keys (a ∷ attributes) >>= λ schema. ok (some schema)
parse_schema _ _ = ok none

abbrev pub parse_provisioned : Option (Option ℕ × Option ℕ) → Result (Option ThroughputType)
parse_provisioned none = ok none
parse_provisioned (some (read, write)) = require key_error read >>= λ r.
    require key_error write >>= λ w. ok (some (provisioned (record { read = r; write = w })))

unfoldable pub parse_throughput :
    Option (Option String) → Option (Option ℕ × Option ℕ) → Result (Option ThroughputType)
parse_throughput none capacity = parse_provisioned capacity
parse_throughput (some mode) capacity = require key_error mode >>= λ text.
    if str_eq text pay_per_request_mode
    then ok (some pay_per_request)
    else parse_provisioned capacity

-- `TableDescription.from_response`
unfoldable pub from_response : RawDescription → Result TableDescription
unfolding parse_attributes parse_key_schema parse_throughput table_status
from_response d = parse_definitions d.attribute_definitions >>= λ attributes.
    parse_schema attributes d.key_schema >>= λ schema.
    parse_throughput d.billing_mode_summary d.provisioned_throughput >>= λ throughput.
    require key_error d.table_status >>= λ text. table_status text >>= λ status. ok (record {
      attributes = attributes;
      created = d.creation_date_time;
      item_count = d.item_count;
      key_schema = schema;
      throughput = throughput;
      status = status;
    })
