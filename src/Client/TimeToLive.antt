-- ===== src/Client/TimeToLive.antt =====
-- The time to live of client.py: describing and changing it. What `send_request` gives is the
-- environment's: for a description, that of the k-th attempt of a wait.
pub mod Changes
use aiodynamo.Prelude.{
  ℕ, String, Bool, true, false, Option, none, some, List, [], ◌∷◌, map, string_Keyed, if◌then◌else◌,
}
use aiodynamo.Prelude.Dict.{Dict, update}
use aiodynamo.Errors.{
  Exception, Result, ok, raised, ◌>>=◌, require, key_error, dynamo_error, table_not_found,
  table_did_not_become_active, table_did_not_become_disabled, time_to_live_status_not_changed,
}
use aiodynamo.Models.Keys.{KeySchema, EncodedKeySchema, to_attributes, encode}
use aiodynamo.Models.Tables.{
  TableDescription, RawDescription, from_response, TableStatus, creating, updating, deleting,
  active, TimeToLiveStatus, enabling, disabling, enabled, disabled, TimeToLiveDescription,
  time_to_live_status,
}
use aiodynamo.Models.Indexes.{
  ThroughputType, EncodedThroughput, encode_throughput, LocalSecondaryIndex, GlobalSecondaryIndex,
  EncodedIndex, encode_local, encode_global, StreamSpecification, EncodedStreamSpecification,
  encode_stream, truthy,
}
use aiodynamo.Models.Retry.{WaitConfig, wait}
use aiodynamo.Client.Tables.{or_raise}

-- "TimeToLiveDescription" of a response: its "AttributeName" and its "TimeToLiveStatus".
pub record RawTimeToLive : Type 0 where
  pub attribute_name : Option String
  pub time_to_live_status : Option String

-- `Client.describe_time_to_live`
unfoldable pub describe_time_to_live :
    String → Result (Option RawTimeToLive) → Result TimeToLiveDescription
unfolding time_to_live_status
describe_time_to_live table response = response >>= λ found. require key_error found >>= λ raw.
    require key_error raw.time_to_live_status >>= λ text. time_to_live_status text >>= λ status.
    ok (record { table = table; attribute = raw.attribute_name; status = status })

-- The payload of "UpdateTimeToLive".
pub record UpdateTimeToLive : Type 0 where
  pub table_name : String
  pub attribute_name : String
  pub enabled : Bool

abbrev pub desired_state : Bool → TimeToLiveStatus
desired_state true = enabled
desired_state false = disabled

abbrev pub status_eq : TimeToLiveStatus → TimeToLiveStatus → Bool
status_eq enabling enabling = true
status_eq disabling disabling = true
status_eq enabled enabled = true
status_eq disabled disabled = true
status_eq _ _ = false

abbrev pub checked_status :
    TimeToLiveStatus → Result TimeToLiveDescription → Result (Bool × Unit {0})
checked_status desired (ok d) = ok (status_eq d.status desired, tt)
checked_status desired (raised e) = raised e

abbrev pub await_change :
    ℕ
    → WaitConfig
    → (ℕ → Result TimeToLiveDescription)
    → TimeToLiveStatus
    → Result (Unit {0})
    → Option (Result (Unit {0}))
await_change fuel config describe desired (raised e) = some (raised e)
await_change fuel config describe desired (ok _) =
    or_raise time_to_live_status_not_changed
      (wait fuel config (λ k s. checked_status desired (describe k)) tt)

-- `Client.set_time_to_live`
unfoldable pub set_time_to_live :
    ℕ
    → WaitConfig
    → (UpdateTimeToLive → Result (Unit {0}))
    → (ℕ → Result (Option RawTimeToLive))
    → String
    → String
    → Bool
    → Option (Result (Unit {0}))
unfolding describe_time_to_live wait
set_time_to_live fuel config update_ttl describe table attribute status =
    await_change fuel config (λ k. describe_time_to_live table (describe k)) (desired_state status)
      (update_ttl (record { table_name = table; attribute_name = attribute; enabled = status }))

unfoldable pub enable_time_to_live :
    ℕ
    → WaitConfig
    → (UpdateTimeToLive → Result (Unit {0}))
    → (ℕ → Result (Option RawTimeToLive))
    → String
    → String
    → Option (Result (Unit {0}))
unfolding set_time_to_live
enable_time_to_live fuel config update_ttl describe table attribute =
    set_time_to_live fuel config update_ttl describe table attribute true

unfoldable pub disable_time_to_live :
    ℕ
    → WaitConfig
    → (UpdateTimeToLive → Result (Unit {0}))
    → (ℕ → Result (Option RawTimeToLive))
    → String
    → String
    → Option (Result (Unit {0}))
unfolding set_time_to_live
disable_time_to_live fuel config update_ttl describe table attribute =
    set_time_to_live fuel config update_ttl describe table attribute false
