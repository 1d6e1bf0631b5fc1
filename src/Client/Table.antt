-- ===== src/Client/Table.antt =====
-- The classes Table and TimeToLive of client.py: the operations of Client for the table of this name.
use aiodynamo.Prelude.{ℕ, String, Bool, Option, List}
use aiodynamo.Errors.{Result}
use aiodynamo.Values.{Value, Fields, TaggedFields}
use aiodynamo.Expressions.Fields.{Projection}
use aiodynamo.Expressions.Conditions.{Condition}
use aiodynamo.Expressions.Updates.{UpdateExpression}
use aiodynamo.Models.{ReturnValues}
use aiodynamo.Models.Keys.{KeySchema}
use aiodynamo.Models.Tables.{TableDescription, RawDescription, TimeToLiveDescription}
use aiodynamo.Models.Indexes.{
  ThroughputType, LocalSecondaryIndex, GlobalSecondaryIndex, StreamSpecification,
}
use aiodynamo.Models.Retry.{WaitConfig}
use aiodynamo.Client.Payloads.{Payload}
use aiodynamo.Client.Payloads.Query.{QueryArguments, ScanArguments, CountArguments}
use aiodynamo.Client.Pagination.{PageResult, PageRequest}
use aiodynamo.Client.Streams as Streams
use aiodynamo.Client.Responses.{Page}
use aiodynamo.Client.Responses as Responses
use aiodynamo.Client.Tables.{
  CreateTable, create_table_payload, create_table, table_exists, described, delete_table,
}
use aiodynamo.Client.TimeToLive.{
  RawTimeToLive, UpdateTimeToLive, enable_time_to_live, disable_time_to_live, describe_time_to_live,
}

pub record Table : Type 0 where
  pub name : String

pub record TimeToLive : Type 0 where
  pub table : Table

-- `Client.table`
unfoldable pub table : String → Table
table name = record { name = name }

unfoldable pub time_to_live : Table → TimeToLive
time_to_live t = record { table = t }

-- `describe` gives the response to the k-th "DescribeTable" for a table.
module _ (describe_response : String → ℕ → Result (Option RawDescription)) where
  unfoldable pub exists : Table → Result Bool
  unfolding table_exists
  exists t = table_exists (describe_response t.name 0)

  unfoldable pub create :
      ℕ
      → (CreateTable → Result (Option RawDescription))
      → Table
      → ThroughputType
      → KeySchema
      → Option (List LocalSecondaryIndex)
      → Option (List GlobalSecondaryIndex)
      → Option StreamSpecification
      → WaitConfig
      → Option (Result TableDescription)
  unfolding create_table create_table_payload
  create fuel created t throughput keys lsis gsis stream wait_for_active =
      create_table fuel wait_for_active created (describe_response t.name)
        (create_table_payload t.name throughput keys lsis gsis stream)

  unfoldable pub describe : Table → Result TableDescription
  unfolding described
  describe t = described (describe_response t.name 0)

  unfoldable pub delete :
      ℕ → (String → Result (Unit {0})) → Table → WaitConfig → Option (Result (Unit {0}))
  unfolding delete_table
  delete fuel deleted t wait_for_disabled =
      delete_table fuel wait_for_disabled (deleted t.name) (describe_response t.name)

-- The response to the k-th "DescribeTimeToLive" for a table.
module _ (ttl_response : String → ℕ → Result (Option RawTimeToLive)) where
  unfoldable pub enable :
      ℕ
      → (UpdateTimeToLive → Result (Unit {0}))
      → TimeToLive
      → String
      → WaitConfig
      → Option (Result (Unit {0}))
  unfolding enable_time_to_live
  enable fuel updated ttl attribute wait_for_enabled =
      enable_time_to_live fuel wait_for_enabled updated (ttl_response ttl.table.name) ttl.table.name
        attribute

  unfoldable pub disable :
      ℕ
      → (UpdateTimeToLive → Result (Unit {0}))
      → TimeToLive
      → String
      → WaitConfig
      → Option (Result (Unit {0}))
  unfolding disable_time_to_live
  disable fuel updated ttl attribute wait_for_disabled =
      disable_time_to_live fuel wait_for_disabled updated (ttl_response ttl.table.name)
        ttl.table.name attribute

  unfoldable pub describe_ttl : TimeToLive → Result TimeToLiveDescription
  unfolding describe_time_to_live
  describe_ttl ttl = describe_time_to_live ttl.table.name (ttl_response ttl.table.name 0)

module _ (numeric_type : String → Result Value) where
  module _ (send : Payload → Result (Option TaggedFields)) where
    unfoldable pub delete_item :
        Table → Fields → ReturnValues → Option Condition → Result (Option Fields)
    unfolding Responses.delete_item
    delete_item t key return_values condition =
        Responses.delete_item numeric_type send t.name key return_values condition

    unfoldable pub get_item : Table → Fields → Option Projection → Bool → Result Fields
    unfolding Responses.get_item
    get_item t key projection consistent_read =
        Responses.get_item numeric_type send t.name key projection consistent_read

    unfoldable pub put_item :
        Table → Fields → ReturnValues → Option Condition → Result (Option Fields)
    unfolding Responses.put_item
    put_item t fs return_values condition =
        Responses.put_item numeric_type send t.name fs return_values condition

    unfoldable pub update_item :
        Table → Fields → UpdateExpression → ReturnValues → Option Condition → Result (Option Fields)
    unfolding Responses.update_item
    update_item t key update_expression return_values condition =
        Responses.update_item numeric_type send t.name key update_expression return_values condition

  module _ (send : Payload → Result (PageResult TaggedFields TaggedFields)) where
    unfoldable pub query_single_page : Table → QueryArguments → Option ℕ → Result Page
    unfolding Responses.query_single_page
    query_single_page t arguments limit =
        Responses.query_single_page numeric_type send (record arguments { table = t.name }) limit

    unfoldable pub scan_single_page : Table → ScanArguments → Option ℕ → Result Page
    unfolding Responses.scan_single_page
    scan_single_page t arguments limit =
        Responses.scan_single_page numeric_type send (record arguments { table = t.name }) limit

-- The arguments of Client with the name of the table in them.
module _
    (send : Payload
      → ℕ
      → PageRequest TaggedFields
      → Result (PageResult TaggedFields TaggedFields)) where
  unfoldable pub query :
      (String → Result Value)
      → ℕ
      → Table
      → QueryArguments
      → Option ℕ
      → Option (Result (List Fields))
  unfolding Streams.query
  query numeric_type fuel t arguments limit =
      Streams.query send numeric_type fuel (record arguments { table = t.name }) limit

  unfoldable pub scan :
      (String → Result Value) → ℕ → Table → ScanArguments → Option ℕ → Option (Result (List Fields))
  unfolding Streams.scan
  scan numeric_type fuel t arguments limit =
      Streams.scan send numeric_type fuel (record arguments { table = t.name }) limit

  unfoldable pub count : ℕ → Table → CountArguments → Option ℕ → Option (Result ℕ)
  unfolding Streams.count
  count fuel t arguments limit = Streams.count send fuel (record arguments { table = t.name }) limit

  unfoldable pub scan_count : ℕ → Table → ScanArguments → Option ℕ → Option (Result ℕ)
  unfolding Streams.scan_count
  scan_count fuel t arguments limit =
      Streams.scan_count send fuel (record arguments { table = t.name }) limit
