-- ===== src/Tests/Tables.antt =====
-- The administration of tables at concrete inputs.
use aiodynamo.Prelude.{
  ℕ, zero, suc, ◌≡◌, refl, String, true, Option, none, some, [], ◌∷◌, arith, inl, inr,
}
use aiodynamo.Errors.{Result, ok, raised, dynamo_error, table_not_found}
use aiodynamo.Models.Keys.{KeyType, KeySpec, OneOrMany, KeySchema, make_key_schema, specs}
use aiodynamo.Models.Tables.{TableDescription, RawDescription, from_response}
use aiodynamo.Models.Indexes.{
  Throughput, ThroughputType, ProjectionType, LocalSecondaryIndex, StreamSpecification,
  StreamViewType, encode_throughput,
}
use aiodynamo.Models.Retry.{WaitConfig}
use aiodynamo.Models.Tables.{TableStatus, table_status, parse_throughput}
use aiodynamo.Client.Tables.{
  CreateTable, described, create_table_payload, create_table, delete_table,
}
use aiodynamo.Client.TimeToLive.{RawTimeToLive, UpdateTimeToLive}
use aiodynamo.Client.Tables.Creation.{
  IsReady, create_table-IsReady, create_table-Pending, missing, inactive, reached,
}
use aiodynamo.Client.Tables.Deletion.{IsGone, delete_table-IsGone}
use aiodynamo.Client.Tables.RoundTrip.{Describes, Parsed, from_response-create_table_payload}
use aiodynamo.Tests.Requests.{five_seconds}

-- All keys are of type S.
abbrev all_strings : String → KeyType
all_strings name = KeyType.string

abbrev spec : String → KeySpec
spec name = record { name = name; key_type = KeyType.string }

abbrev keys : KeySchema
keys = record { hash_key = OneOrMany.one (spec "pk"); range_key = some (OneOrMany.one (spec "sk")) }

abbrev index : LocalSecondaryIndex
index = record {
  name = "by_date";
  schema = record {
    hash_key = OneOrMany.one (spec "pk");
    range_key = some (OneOrMany.one (spec "date"));
  };
  projection = record { projection_type = ProjectionType.all; attrs = none };
}

abbrev units : Throughput
units = record { read = 5; write = 6 }

abbrev stream : StreamSpecification
stream = record { enabled = true; view_type = StreamViewType.new_image }

abbrev payload : CreateTable
payload =
    create_table_payload "t" (ThroughputType.provisioned units) keys (some (index ∷ [])) none
      (some stream)

-- The table as it is described with this status.
abbrev raw : String → RawDescription
raw status = record {
  attribute_definitions = some payload.attribute_definitions;
  creation_date_time = some 7;
  key_schema = some payload.key_schema;
  billing_mode_summary = none;
  provisioned_throughput = some (some 5, some 6);
  item_count = some 0;
  table_status = some status;
}

keys_made : make_key_schema (OneOrMany.one (spec "pk")) (some (OneOrMany.one (spec "sk"))) ≡ ok keys
unfolding make_key_schema
keys_made = refl

raw-Describes : Describes payload (raw "ACTIVE")
unfolding create_table_payload encode_throughput
raw-Describes = record {
  same_definitions = refl;
  same_keys = refl;
  same_throughput = (inl refl, refl);
  is_active = refl;
}

from_response-create_table_payload_example :
    (d : TableDescription) × (from_response (raw "ACTIVE") ≡ ok d)
    × Parsed
        (OneOrMany.one (spec "pk"))
        (some (OneOrMany.one (spec "sk")))
        keys
        (ThroughputType.provisioned units)
        (some (index ∷ []))
        none
        d
unfolding specs
from_response-create_table_payload_example =
    from_response-create_table_payload all_strings (OneOrMany.one (spec "pk"))
      (some (OneOrMany.one (spec "sk"))) keys "t" (ThroughputType.provisioned units)
      (some (index ∷ [])) none (some stream) (raw "ACTIVE") keys_made (refl, (refl, tt))
      ((refl, (refl, tt)), tt) tt raw-Describes

-- The table is not found, then being created, then active.
abbrev coming : ℕ → Result (Option RawDescription)
coming zero = raised (dynamo_error table_not_found)
coming (suc zero) = ok (some (raw "CREATING"))
coming (suc (suc k)) = ok (some (raw "ACTIVE"))

abbrev creates : CreateTable → Result (Option RawDescription)
creates p = ok (some (raw "CREATING"))

create_table-IsReady_example :
    (y : Result TableDescription) × (create_table 5
        (WaitConfig.retry five_seconds)
        creates
        coming
        payload
      ≡ some y)
    × IsReady coming (WaitConfig.retry five_seconds) (described (creates payload)) y
create_table-IsReady_example =
    create_table-IsReady coming creates payload 5 (WaitConfig.retry five_seconds)
      (3, omega arith, inr (omega arith))

-- A description of nothing but the status, as it is sent and as it is parsed.
abbrev bare : String → RawDescription
bare status = record {
  attribute_definitions = none;
  creation_date_time = none;
  key_schema = none;
  billing_mode_summary = none;
  provisioned_throughput = none;
  item_count = none;
  table_status = some status;
}

abbrev parsed : TableStatus → TableDescription
parsed status = record {
  attributes = none;
  created = none;
  item_count = none;
  key_schema = none;
  throughput = none;
  status = status;
}

statuses :
    (described (ok (some (bare "CREATING"))) ≡ ok (parsed TableStatus.creating))
    × (described (ok (some (bare "ACTIVE"))) ≡ ok (parsed TableStatus.active))
unfolding described from_response table_status parse_throughput
statuses = (refl, refl)

not_found :
    described (raised (dynamo_error table_not_found)) ≡ raised (dynamo_error table_not_found)
unfolding described
not_found = refl

abbrev arriving : ℕ → Result (Option RawDescription)
arriving zero = raised (dynamo_error table_not_found)
arriving (suc zero) = ok (some (bare "CREATING"))
arriving (suc (suc k)) = ok (some (bare "ACTIVE"))

abbrev begins : CreateTable → Result (Option RawDescription)
begins p = ok (some (bare "CREATING"))

create_table-Pending_example :
    create_table 5 (WaitConfig.retry five_seconds) begins arriving payload
    ≡ some (ok (parsed TableStatus.active))
create_table-Pending_example =
    create_table-Pending arriving begins payload five_seconds 5 2 1 (parsed TableStatus.creating)
      (parsed TableStatus.active) statuses.0 refl
      (missing 1 refl not_found (omega arith) (
        inactive 1 (parsed TableStatus.creating) refl statuses.0 refl (omega arith) (reached refl)))
      refl statuses.1 refl (omega arith)

-- The table is being deleted, then not found.
abbrev going : ℕ → Result (Option RawDescription)
going zero = ok (some (raw "DELETING"))
going (suc k) = raised (dynamo_error table_not_found)

delete_table-IsGone_example :
    (y : Result (Unit {0})) × (delete_table 5 (WaitConfig.retry five_seconds) (ok tt) going
      ≡ some y)
    × IsGone going (WaitConfig.retry five_seconds) (ok tt) y
delete_table-IsGone_example =
    delete_table-IsGone going (ok tt) 5 (WaitConfig.retry five_seconds)
      (3, omega arith, inr (omega arith))

abbrev ttl_status : String → RawTimeToLive
ttl_status status = record { attribute_name = some "expires"; time_to_live_status = some status }

abbrev changing : ℕ → Result (Option RawTimeToLive)
changing zero = ok (some (ttl_status "ENABLING"))
changing (suc k) = ok (some (ttl_status "ENABLED"))

abbrev accepts : UpdateTimeToLive → Result (Unit {0})
accepts u = ok tt
