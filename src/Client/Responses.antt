-- ===== src/Client/Responses.antt =====
-- What client.py makes of the responses to its requests, and query_single_page and scan_single_page. A
-- response is given by the keys that are read of it, and `send` is `send_request` with the action.
pub mod Manual
pub mod Storing
use aiodynamo.Prelude.{
  ℕ, String, Bool, true, false, Option, none, some, List, [], ◌∷◌, string_Keyed,
}
use aiodynamo.Prelude.Dict.{Dict, insert}
use aiodynamo.Errors.{
  Exception, Result, ok, raised, ◌>>=◌, map_result, require, key_error, item_not_found,
}
use aiodynamo.Values.{Value, Fields, TaggedFields, dy2py}
use aiodynamo.Expressions.Fields.{Projection}
use aiodynamo.Expressions.Conditions.{Condition}
use aiodynamo.Expressions.Updates.{UpdateExpression}
use aiodynamo.Models.{ReturnValues}
use aiodynamo.Client.Payloads.{Payload, integer}
use aiodynamo.Client.Payloads.Query.{QueryArguments, ScanArguments, query_payload, scan_payload}
use aiodynamo.Client.Payloads.Items.{
  WriteRequest, unprocessed, get_item_payload, put_item_payload, delete_item_payload,
  update_item_payload, Operation, transact_payload, batch_get_payload, batch_write_payload,
}
use aiodynamo.Client.Pagination.{PageResult}

-- The class Page of models.py.
pub record Page : Type 0 where
  pub items : List Fields
  pub last_evaluated_key : Option Fields

unfoldable pub is_last_page : Page → Bool
is_last_page page = elim page.last_evaluated_key [ none ↦ true | some key ↦ false ]

-- `BatchGetResponse`
pub record BatchGetResponse : Type 0 where
  pub items : Dict String (List Fields)
  pub unprocessed_keys : Dict String (List Fields)

-- `BatchWriteResult`
pub record BatchWriteResult : Type 0 where
  pub undeleted_keys : List Fields
  pub unput_items : List Fields

pub record BatchGetRequest : Type 0 where
  pub keys : List Fields
  pub projection : Option Projection
  pub consistent_read : Bool

pub record BatchWriteRequest : Type 0 where
  pub keys_to_delete : List Fields
  pub items_to_put : List Fields

-- A comprehension over the items of a dict, `{k: f(v) for k, v in d.items()}`.
unfoldable pub map_dict {ℓ κ} :
    {A : Type ℓ} {B : Type κ} → (A → Result B) → Dict String A → Result (Dict String B)
map_dict f [] = ok []
map_dict f ((k, v) ∷ d) = f v >>= λ w. map_dict f d >>= λ e. ok ((k, w) ∷ e)

-- `if limit is not None: payload["Limit"] = limit`
abbrev pub put_limit : Option ℕ → Payload → Payload
put_limit none payload = payload
put_limit (some limit) payload = insert "Limit" (integer limit) payload

module _ (numeric_type : String → Result Value) where
  -- `get_item`, of the "Item" of its response.
  unfoldable pub read_item : Option TaggedFields → Result Fields
  unfolding dy2py
  read_item none = raised item_not_found
  read_item (some x) = dy2py numeric_type x

  -- `put_item`, `delete_item` and `update_item`, of the "Attributes" of their responses.
  unfoldable pub read_attributes : Option TaggedFields → Result (Option Fields)
  unfolding dy2py
  read_attributes none = ok none
  read_attributes (some x) = dy2py numeric_type x >>= λ fs. ok (some fs)

  -- `except KeyError: last_evaluated_key = None`
  abbrev pub or_last : Result Fields → Result (Option Fields)
  or_last (ok key) = ok (some key)
  or_last (raised key_error) = ok none
  or_last (raised e) = raised e

  abbrev pub read_key : Option TaggedFields → Result (Option Fields)
  read_key none = ok none
  read_key (some key) = or_last (dy2py numeric_type key)

  -- What query_single_page and scan_single_page make of a response.
  unfoldable pub read_page : PageResult TaggedFields TaggedFields → Result Page
  unfolding dy2py map_result
  read_page response = read_key response.last_evaluated_key >>= λ key.
      map_result (dy2py numeric_type) response.items >>= λ fs.
      ok (record { items = fs; last_evaluated_key = key })

  module _ (send : Payload → Result (PageResult TaggedFields TaggedFields)) where
    unfoldable pub query_single_page : QueryArguments → Option ℕ → Result Page
    unfolding query_payload read_page insert
    query_single_page arguments limit = query_payload arguments >>= λ payload.
        send (put_limit limit payload) >>= λ response. read_page response

    unfoldable pub scan_single_page : ScanArguments → Option ℕ → Result Page
    unfolding scan_payload read_page insert
    scan_single_page arguments limit = scan_payload arguments >>= λ payload.
        send (put_limit limit payload) >>= λ response. read_page response

  module _ (send : Payload → Result (Option TaggedFields)) where
    unfoldable pub get_item : String → Fields → Option Projection → Bool → Result Fields
    unfolding get_item_payload read_item
    get_item table key projection consistent_read =
        get_item_payload table key projection consistent_read >>= λ payload.
        send payload >>= λ found. read_item found

    unfoldable pub put_item :
        String → Fields → ReturnValues → Option Condition → Result (Option Fields)
    unfolding put_item_payload read_attributes
    put_item table fs return_values condition =
        put_item_payload table fs return_values condition >>= λ payload.
        send payload >>= λ attributes. read_attributes attributes

    unfoldable pub delete_item :
        String → Fields → ReturnValues → Option Condition → Result (Option Fields)
    unfolding delete_item_payload read_attributes
    delete_item table key return_values condition =
        delete_item_payload table key return_values condition >>= λ payload.
        send payload >>= λ attributes. read_attributes attributes

    unfoldable pub update_item :
        String
        → Fields
        → UpdateExpression
        → ReturnValues
        → Option Condition
        → Result (Option Fields)
    unfolding update_item_payload read_attributes
    update_item table key expression return_values condition =
        update_item_payload table key expression return_values condition >>= λ payload.
        send payload >>= λ attributes. read_attributes attributes

  -- "Responses" and "UnprocessedKeys" of a response to "BatchGetItem".
  unfoldable pub batch_get :
      (Dict String Payload
        → Result (Dict String (List TaggedFields) × Dict String (List TaggedFields)))
      → Dict String BatchGetRequest
      → Result BatchGetResponse
  unfolding map_dict map_result dy2py batch_get_payload
  batch_get send request =
      map_dict (λ (r : BatchGetRequest). batch_get_payload r.keys r.projection r.consistent_read)
        request
      >>= λ payload. send payload >>= λ (responses, unprocessed_keys).
          map_dict (map_result (dy2py numeric_type)) responses >>= λ found.
          map_dict (map_result (dy2py numeric_type)) unprocessed_keys >>= λ keys.
          ok (record { items = found; unprocessed_keys = keys })

  abbrev pub write_result : List WriteRequest → Result BatchWriteResult
  write_result requests = unprocessed (dy2py numeric_type) requests >>= λ (keys, puts).
      ok (record { undeleted_keys = keys; unput_items = puts })

  -- "UnprocessedItems" of a response to "BatchWriteItem".
  unfoldable pub batch_write :
      (Dict String (List WriteRequest) → Result (Dict String (List WriteRequest)))
      → Dict String BatchWriteRequest
      → Result (Dict String BatchWriteResult)
  unfolding map_dict unprocessed dy2py batch_write_payload
  batch_write send request =
      map_dict (λ (r : BatchWriteRequest). batch_write_payload r.keys_to_delete r.items_to_put)
        request
      >>= λ payload. send payload >>= λ requests. map_dict write_result requests

  abbrev pub read_entry : Option TaggedFields → Result Fields
  read_entry found = require key_error found >>= λ x. dy2py numeric_type x

  -- The entries of "Responses" of a response to "TransactGetItems", each by its "Item".
  unfoldable pub transact_get_items :
      (List (String × Payload) → Result (List (Option TaggedFields)))
      → List Operation
      → Result (List Fields)
  unfolding transact_payload map_result dy2py
  transact_get_items send operations = transact_payload operations >>= λ payload.
      send payload >>= λ responses. map_result read_entry responses

  -- `transact_write_items`, but for its request token.
  unfoldable pub transact_write_items :
      (List (String × Payload) → Result (Unit {0})) → List Operation → Result (Unit {0})
  unfolding transact_payload
  transact_write_items send operations = transact_payload operations >>= λ payload. send payload
