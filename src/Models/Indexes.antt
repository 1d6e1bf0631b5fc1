-- ===== src/Models/Indexes.antt =====
-- Throughput, secondary indexes and streams of models.py, and their encodings.
use aiodynamo.Prelude.{ℕ, String, Bool, Option, none, some, List, ◌∷◌, string_Keyed, if◌then◌else◌}
use aiodynamo.Models.Keys.{KeySchema, EncodedKeySchema, encode}

pub record Throughput : Type 0 where
  pub read : ℕ
  pub write : ℕ

pub data ThroughputType : Type 0 where
  provisioned : Throughput → ThroughputType
  pay_per_request : ThroughputType

-- What `encode` adds to a payload: {"ProvisionedThroughput": ...} or {"BillingMode": ...}.
pub data EncodedThroughput : Type 0 where
  provisioned_throughput : ℕ → ℕ → EncodedThroughput
  billing_mode : String → EncodedThroughput

abbrev pub pay_per_request_mode : String
pay_per_request_mode = "PAY_PER_REQUEST"

unfoldable pub encode_throughput : ThroughputType → EncodedThroughput
encode_throughput (provisioned t) = provisioned_throughput t.read t.write
encode_throughput pay_per_request = billing_mode pay_per_request_mode

pub data ProjectionType : Type 0 where
  all keys_only include : ProjectionType

unfoldable pub projection_type_value : ProjectionType → String
projection_type_value all = "ALL"
projection_type_value keys_only = "KEYS_ONLY"
projection_type_value include = "INCLUDE"

pub record Projection : Type 0 where
  pub projection_type : ProjectionType
  pub attrs : Option (List String)

pub record EncodedProjection : Type 0 where
  pub projection_type : String
  pub non_key_attributes : Option (List String)

-- `if xs:`, for a list or None.
abbrev pub truthy {ℓ} : {A : Type ℓ} → Option (List A) → Option (List A)
truthy (some (x ∷ xs)) = some (x ∷ xs)
truthy _ = none

unfoldable pub encode_projection : Projection → EncodedProjection
unfolding projection_type_value
encode_projection p = record {
  projection_type = projection_type_value p.projection_type;
  non_key_attributes = truthy p.attrs;
}

pub record LocalSecondaryIndex : Type 0 where
  pub name : String
  pub schema : KeySchema
  pub projection : Projection

pub record GlobalSecondaryIndex : Type 0 where
  pub index : LocalSecondaryIndex
  pub throughput : Option Throughput

pub record EncodedIndex : Type 0 where
  pub index_name : String
  pub key_schema : List EncodedKeySchema
  pub projection : EncodedProjection
  pub throughput : Option EncodedThroughput

unfoldable pub encode_local : LocalSecondaryIndex → EncodedIndex
unfolding encode encode_projection
encode_local i = record {
  index_name = i.name;
  key_schema = encode i.schema;
  projection = encode_projection i.projection;
  throughput = none;
}

abbrev pub encoded_option : Option Throughput → Option EncodedThroughput
encoded_option none = none
encoded_option (some t) = some (encode_throughput (provisioned t))

unfoldable pub encode_global : GlobalSecondaryIndex → EncodedIndex
unfolding encode_local encode_throughput
encode_global i = record (encode_local i.index) { throughput = encoded_option i.throughput }

pub data StreamViewType : Type 0 where
  keys_only new_image old_image new_and_old_images : StreamViewType

unfoldable pub view_type_value : StreamViewType → String
view_type_value keys_only = "KEYS_ONLY"
view_type_value new_image = "NEW_IMAGE"
view_type_value old_image = "OLD_IMAGE"
view_type_value new_and_old_images = "NEW_AND_OLD_IMAGES"

pub record StreamSpecification : Type 0 where
  pub enabled : Bool
  pub view_type : StreamViewType

pub record EncodedStreamSpecification : Type 0 where
  pub stream_enabled : Bool
  pub stream_view_type : Option String

unfoldable pub encode_stream : StreamSpecification → EncodedStreamSpecification
unfolding view_type_value
encode_stream s = record {
  stream_enabled = s.enabled;
  stream_view_type = if s.enabled then some (view_type_value s.view_type) else none;
}
