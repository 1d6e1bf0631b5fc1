-- ===== src/Errors.antt =====
-- errors.py: the exceptions, the table `ERRORS` and `exception_from_response`; with the exceptions
-- of the language and of the other modules that pass through the same code.
pub mod Codes
use aiodynamo.Prelude.{
  ◌≡◌, refl, ◌⊎◌, inl, inr, ℕ, String, Option, none, some, List, [], ◌∷◌, ◌==◌, nat_Keyed,
  string_Keyed, if◌then◌else◌, str_eq, arith,
}
use aiodynamo.Prelude.Dict.{Dict, lookup}

-- `CancellationReason`.
pub record CancellationReason : Type 0 where
  pub code : String
  pub message : String

-- One entry of "CancellationReasons": its "Code" and "Message", where present.
pub record RawReason : Type 0 where
  pub raw_code : Option String
  pub raw_message : Option String

-- What `json.loads` makes of an error's body: no JSON object, or an object with its "__type" and
-- its "CancellationReasons", where present.
pub data Body : Type 0 where
  not_json : Body
  error_body : Option String → Option (List RawReason) → Body

-- The classes that `ERRORS` names, but for TransactionCanceled, which has a constructor of its own.
pub data DynamoError : Type 0 where
  table_not_found unknown_operation provisioned_throughput_exceeded request_limit_exceeded :
      DynamoError
  item_collection_size_limit_exceeded backup_in_use continuous_backups_unavailable : DynamoError
  table_in_use global_table_already_exists source_table_does_not_exist limit_exceeded : DynamoError
  backup_not_found conditional_check_failed transaction_conflict global_table_not_found :
      DynamoError
  table_already_exists invalid_restore_time point_in_time_recovery_unavailable : DynamoError
  transaction_canceled replica_already_exists replica_not_found throttled validation_exception :
      DynamoError
  expired_token resource_in_use idempotent_parameter_mismatch transaction_in_progress : DynamoError
  access_denied incomplete_signature missing_authentication_token unrecognized_client : DynamoError
  serialization_exception : DynamoError

-- Every exception that the modelled code raises or passes on.
pub data Exception : Type 0 where
  dynamo_error : DynamoError → Exception
  canceled : List (Option CancellationReason) → Exception
  unknown_error : ℕ → Body → Exception
  internal_dynamo_error service_unavailable broken_throttle_config no_credentials_found : Exception
  empty_item item_not_found cannot_add_to_nested_field : Exception
  transaction_empty too_many_transactions : Exception
  table_did_not_become_active table_did_not_become_disabled time_to_live_status_not_changed :
      Exception
  type_error value_error key_error index_error assertion_error : Exception
  retry_timeout timeout_error too_many_retries disabled : Exception
  -- any other exception, raised by code that is not modelled, by a number that tells it apart
  other_error : ℕ → Exception

pub data Result {ℓ} (A : Type ℓ) : Type ℓ where
  ok : A → Result A
  raised : Exception → Result A

pub Result-cases {ℓ} :
    {A : Type ℓ} (r : Result A) → ((a : A) × (r ≡ ok a)) ⊎ ((e : Exception) × (r ≡ raised e))
Result-cases (ok a) = inl (a, refl)
Result-cases (raised e) = inr (e, refl)

pub ok_injective {ℓ} : {A : Type ℓ} {a b : A} → ok a ≡ ok b → a ≡ b
ok_injective h = ground arith

infixl 5 ◌>>=◌ ◌>>◌
abbrev pub ◌>>=◌ {ℓ κ} : {A : Type ℓ} {B : Type κ} → Result A → (A → Result B) → Result B
ok a >>= f = f a
raised e >>= f = raised e

abbrev pub ◌>>◌ {ℓ κ} : {A : Type ℓ} {B : Type κ} → Result A → Result B → Result B
m >> k = m >>= λ _. k

-- The two steps of a bind that returns.
pub >>=-eq-ok {ℓ κ} :
    {A : Type ℓ} {B : Type κ} (r : Result A) (f : A → Result B) {b : B}
    → (r >>= f) ≡ ok b
    → (a : A) × (r ≡ ok a) × (f a ≡ ok b)
>>=-eq-ok (ok a) f h = (a, refl, h)
>>=-eq-ok (raised e) f h = cc

-- A comprehension `[f(x) for x in xs]` whose element expression may raise.
unfoldable pub map_result {ℓ κ} :
    {A : Type ℓ} {B : Type κ} → (A → Result B) → List A → Result (List B)
map_result f [] = ok []
map_result f (x ∷ xs) = do y ← f x; ys ← map_result f xs; ok (y ∷ ys)

-- A lookup `d[k]` that raises.
abbrev pub require {ℓ} : {A : Type ℓ} → Exception → Option A → Result A
require e (some a) = ok a
require e none = raised e

-- The table `ERRORS`.
abbrev pub errors_table : Dict String DynamoError
errors_table =
    ("ResourceNotFoundException", table_not_found)
    ∷ ("UnknownOperationException", unknown_operation)
    ∷ ("ProvisionedThroughputExceededException", provisioned_throughput_exceeded)
    ∷ ("RequestLimitExceeded", request_limit_exceeded)
    ∷ ("ItemCollectionSizeLimitExceededException", item_collection_size_limit_exceeded)
    ∷ ("BackupInUseException", backup_in_use)
    ∷ ("ContinuousBackupsUnavailableException", continuous_backups_unavailable)
    ∷ ("TableInUseException", table_in_use)
    ∷ ("GlobalTableAlreadyExistsException", global_table_already_exists)
    ∷ ("TableNotFoundException", source_table_does_not_exist)
    ∷ ("LimitExceededException", limit_exceeded)
    ∷ ("BackupNotFoundException", backup_not_found)
    ∷ ("ConditionalCheckFailedException", conditional_check_failed)
    ∷ ("TransactionConflictException", transaction_conflict)
    ∷ ("GlobalTableNotFoundException", global_table_not_found)
    ∷ ("TableAlreadyExistsException", table_already_exists)
    ∷ ("InvalidRestoreTimeException", invalid_restore_time)
    ∷ ("PointInTimeRecoveryUnavailableException", point_in_time_recovery_unavailable)
    ∷ ("TransactionCanceledException", transaction_canceled)
    ∷ ("ReplicaAlreadyExistsException", replica_already_exists)
    ∷ ("ReplicaNotFoundException", replica_not_found)
    ∷ ("ThrottlingException", throttled)
    ∷ ("ValidationException", validation_exception)
    ∷ ("ExpiredTokenException", expired_token)
    ∷ ("ResourceInUseException", resource_in_use)
    ∷ ("IdempotentParameterMismatchException", idempotent_parameter_mismatch)
    ∷ ("TransactionInProgressException", transaction_in_progress)
    ∷ ("AccessDeniedException", access_denied)
    ∷ ("IncompleteSignatureException", incomplete_signature)
    ∷ ("MissingAuthenticationTokenException", missing_authentication_token)
    ∷ ("UnrecognizedClientException", unrecognized_client)
    ∷ ("SerializationException", serialization_exception)
    ∷ []

-- `s.split("#", 1)[-1]`: what follows the first '#', or all of `s` where there is none.
unfoldable pub after_hash : String → Option String
after_hash String.[] = none
after_hash (String.◌∷◌ c s) = if str_eq (String.◌∷◌ c String.[]) "#" then some s else after_hash s

abbrev or_else : String → Option String → String
or_else s (some t) = t
or_else s none = s

unfoldable pub error_code : String → String
unfolding after_hash
error_code s = or_else s (after_hash s)

-- One step of the loop in `TransactionCanceled.__init__`.
unfoldable pub cancellation_reason : RawReason → Result (Option CancellationReason)
cancellation_reason r = do
  code ← require key_error r.raw_code
  if str_eq code "None" then ok none else do
    message ← require key_error r.raw_message
    ok (some (record { code = code; message = message }))

-- `ERRORS[...](data)`: only TransactionCanceled reads its argument.
unfoldable pub construct : DynamoError → Option (List RawReason) → Result Exception
unfolding cancellation_reason map_result
construct transaction_canceled reasons = do
  entries ← require key_error reasons
  parsed ← map_result cancellation_reason entries
  ok (canceled parsed)
construct error reasons = ok (dynamo_error error)

unfoldable pub parse_error : Body → Result Exception
unfolding error_code construct lookup
parse_error not_json = raised value_error
parse_error (error_body tag reasons) = do
  name ← require key_error tag
  error ← require key_error (lookup (error_code name) errors_table)
  construct error reasons

-- `except Exception: return UnknownError(status, body)`.
abbrev or_unknown : ℕ → Body → Result Exception → Exception
or_unknown status body (ok e) = e
or_unknown status body (raised e) = unknown_error status body

unfoldable pub exception_from_response : ℕ → Body → Exception
unfolding parse_error
exception_from_response status body =
    if status == 500
    then internal_dynamo_error
    else if status == 503
    then service_unavailable
    else or_unknown status body (parse_error body)
