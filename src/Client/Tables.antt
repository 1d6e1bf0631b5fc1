-- ===== src/Client/Tables.antt =====
-- The table administration of client.py: creating, describing and deleting tables.
-- What `send_request` gives is the environment's: for a description, that of the k-th attempt of a
-- wait.
pub mod Waits
pub mod Creation
pub mod Deletion
pub mod RoundTrip
use aiodynamo.Prelude.{
  ℕ, String, Bool, true, false, Option, none, some, List, [], ◌∷◌, map, string_Keyed, if◌then◌else◌,
}
use aiodynamo.Prelude.Dict.{Dict, update}
use aiodynamo.Errors.{
  Exception, Result, ok, raised, ◌>>=◌, require, key_error, dynamo_error, table_not_found,
  table_did_not_become_active, table_did_not_become_disabled, time_to_live_status_not_changed,
}
use aiodynamo.Models.Keys.{KeySchema, EncodedKeySchema, to_attributes, encode}
use aiodynamo.Models.Tables.{
  TableDescription, RawDescription, from_response, TableStatus, creating, updating, deleting,
  active, TimeToLiveStatus, enabling, disabling, enabled, disabled, TimeToLiveDescription,
  time_to_live_status,
}
use aiodynamo.Models.Indexes.{
  ThroughputType, EncodedThroughput, encode_throughput, LocalSecondaryIndex, GlobalSecondaryIndex,
  EncodedIndex, encode_local, encode_global, StreamSpecification, EncodedStreamSpecification,
  encode_stream, truthy,
}
use aiodynamo.Models.Retry.{WaitConfig, wait}

-- The payload of "CreateTable"; a key of the dict that may not be there is an Option.
pub record CreateTable : Type 0 where
  pub attribute_definitions : List (String × String)
  pub table_name : String
  pub key_schema : List EncodedKeySchema
  pub throughput : EncodedThroughput
  pub local_secondary_indexes : Option (List EncodedIndex)
  pub global_secondary_indexes : Option (List EncodedIndex)
  pub stream_specification : Option EncodedStreamSpecification

unfoldable pub add_schemas : List KeySchema → Dict String String → Dict String String
unfolding update to_attributes
add_schemas [] attributes = attributes
add_schemas (s ∷ ss) attributes = add_schemas ss (update attributes (to_attributes s))

-- The schemas of the indexes, where there are any.
abbrev pub local_schemas : Option (List LocalSecondaryIndex) → List KeySchema
local_schemas none = []
local_schemas (some lsis) = map (λ (i : LocalSecondaryIndex). i.schema) lsis

abbrev pub global_schemas : Option (List GlobalSecondaryIndex) → List KeySchema
global_schemas none = []
global_schemas (some gsis) = map (λ (i : GlobalSecondaryIndex). i.index.schema) gsis

abbrev pub encode_option {ℓ κ} : {A : Type ℓ} {B : Type κ} → (A → B) → Option A → Option B
encode_option f none = none
encode_option f (some a) = some (f a)

unfoldable pub create_table_payload :
    String
    → ThroughputType
    → KeySchema
    → Option (List LocalSecondaryIndex)
    → Option (List GlobalSecondaryIndex)
    → Option StreamSpecification
    → CreateTable
unfolding add_schemas to_attributes encode encode_throughput encode_local encode_global
    encode_stream
create_table_payload name throughput keys lsis gsis stream =
    let attributes =
      add_schemas (global_schemas gsis) (add_schemas (local_schemas lsis) (to_attributes keys)) in
    record {
      attribute_definitions = attributes;
      table_name = name;
      key_schema = encode keys;
      throughput = encode_throughput throughput;
      local_secondary_indexes = encode_option (map encode_local) (truthy lsis);
      global_secondary_indexes = encode_option (map encode_global) (truthy gsis);
      stream_specification = encode_option encode_stream stream;
    }

-- `TableDescription.from_response(response[...])`
unfoldable pub described : Result (Option RawDescription) → Result TableDescription
unfolding from_response
described response = response >>= λ raw. require key_error raw >>= from_response

abbrev pub is_active : TableStatus → Bool
is_active active = true
is_active _ = false

-- `except TableNotFound:`
abbrev pub is_not_found : Exception → Bool
is_not_found (dynamo_error table_not_found) = true
is_not_found _ = false

-- `Client.table_exists`
abbrev pub exists_by : Result TableDescription → Result Bool
exists_by (ok d) = ok (is_active d.status)
exists_by (raised e) = if is_not_found e then ok false else raised e

unfoldable pub table_exists : Result (Option RawDescription) → Result Bool
unfolding described
table_exists response = exists_by (described response)

-- The check of `create_table`: a description that was found is kept.
abbrev pub checked_active :
    TableDescription → Result TableDescription → Result (Bool × TableDescription)
checked_active old (ok d) = ok (is_active d.status, d)
checked_active old (raised e) = if is_not_found e then ok (false, old) else raised e

-- The check of `delete_table`.
abbrev pub checked_gone : Result TableDescription → Result (Bool × Unit {0})
checked_gone (ok d) = ok (false, tt)
checked_gone (raised e) = if is_not_found e then ok (true, tt) else raised e

-- `if not await wait(...): raise ...`, and the return.
abbrev pub or_raise {ℓ} : {S : Type ℓ} → Exception → Option (Result (Bool × S)) → Option (Result S)
or_raise e none = none
or_raise e (some (ok (true, s))) = some (ok s)
or_raise e (some (ok (false, s))) = some (raised e)
or_raise e (some (raised x)) = some (raised x)

abbrev pub await_active :
    ℕ
    → WaitConfig
    → (ℕ → Result (Option RawDescription))
    → Result TableDescription
    → Option (Result TableDescription)
await_active fuel config describe (raised e) = some (raised e)
await_active fuel config describe (ok d) =
    let waited =
      or_raise table_did_not_become_active
        (wait fuel config (λ k old. checked_active old (described (describe k))) d) in
    if is_active d.status then some (ok d) else waited

-- `Client.create_table`, after its payload is sent with this response. `none`: the fuel ran out.
unfoldable pub create_table :
    ℕ
    → WaitConfig
    → (CreateTable → Result (Option RawDescription))
    → (ℕ → Result (Option RawDescription))
    → CreateTable
    → Option (Result TableDescription)
unfolding described wait
create_table fuel config create describe payload =
    await_active fuel config describe (described (create payload))

abbrev pub await_gone :
    ℕ
    → WaitConfig
    → (ℕ → Result (Option RawDescription))
    → Result (Unit {0})
    → Option (Result (Unit {0}))
await_gone fuel config describe (raised e) = some (raised e)
await_gone fuel config describe (ok _) =
    or_raise table_did_not_become_disabled
      (wait fuel config (λ k s. checked_gone (described (describe k))) tt)

-- `Client.delete_table`
unfoldable pub delete_table :
    ℕ
    → WaitConfig
    → Result (Unit {0})
    → (ℕ → Result (Option RawDescription))
    → Option (Result (Unit {0}))
unfolding described wait
delete_table fuel config delete describe = await_gone fuel config describe delete
