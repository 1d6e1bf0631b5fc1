-- ===== src/Tests/Pages.antt =====
-- Pages followed by hand at concrete inputs.
use aiodynamo.Prelude.{
  string_Keyed, ap, ℕ, ◌≡◌, refl, subst, String, true, false, Option, none, some, [], ◌∷◌, arith,
}
use aiodynamo.Errors.{Result, ok}
use aiodynamo.Values.{
  Value, Fields, Tagged, TaggedFields, dy2py, py2dy, serialize_dict, low_level_serialize,
  deserialize,
}
use aiodynamo.Client.Pagination.{PageResult, stream_items}
use aiodynamo.Client.Pagination.Pages.{last, more}
use aiodynamo.Client.Streams.{start_of, query}
use aiodynamo.Prelude.Dict.{lookup, insert}
use aiodynamo.Client.Payloads.{
  Json, item, Payload, with_parameters, put_expression, put_start_key, put_index, put_parameters,
}
use aiodynamo.Client.Payloads.Query.{QueryArguments, Select, query_payload, query_body}
use aiodynamo.Expressions.Parameters.{pure, ◌>>=◌, ◌⊕◌, encode_value}
use aiodynamo.Expressions.Fields.{encode_path}
use aiodynamo.Expressions.Keys.{KeyCondition, encode_key, encode_hash, encode_pair}
use aiodynamo.Tests.Encoding.{partition}
use aiodynamo.Client.Responses.Manual.{
  KeysReturn, IsUnordered, sent_payload, requests, follow_pages, follow_pages-query,
}
use aiodynamo.Tests.Storage.{read_number}

-- An item with one key, and as it is stored.
abbrev named : String → Fields
named name = Fields.field "pk" (Value.str name) Fields.end

abbrev stored : String → TaggedFields
stored name = TaggedFields.field "pk" (Tagged.s name) TaggedFields.end

-- Two pages: the first without a start key, the last with any.
abbrev page_for : Option Json → PageResult TaggedFields TaggedFields
page_for none = record {
  items = stored "x" ∷ [];
  count = 1;
  last_evaluated_key = some (stored "a");
}
page_for (some key) = record { items = stored "y" ∷ []; count = 1; last_evaluated_key = none }

abbrev two_pages : ℕ → Payload → Result (PageResult TaggedFields TaggedFields)
two_pages i payload = ok (page_for (lookup "ExclusiveStartKey" payload))

two_pages-IsUnordered : IsUnordered two_pages
two_pages-IsUnordered i p q same =
    ap (λ (o : Option Json). ok (page_for o)) (same "ExclusiveStartKey")

key_returns :
    (o : Option Json) (page : PageResult TaggedFields TaggedFields) (key : TaggedFields)
    → ◌≡◌ {A = Result (PageResult TaggedFields TaggedFields)} (ok (page_for o)) (ok page)
    → page.last_evaluated_key ≡ some key
    → (fs : Fields) × (dy2py read_number key ≡ ok fs) × (start_of (some fs) ≡ ok (some key))
unfolding dy2py py2dy deserialize serialize_dict low_level_serialize
key_returns none page key sent goes =
    let same : stored "a" ≡ key = ground arith in
    subst
      (λ (k : TaggedFields).
        (fs : Fields) × (dy2py read_number k ≡ ok fs) × (start_of (some fs) ≡ ok (some k)))
      same (named "a", refl, refl)
key_returns (some start) page key sent goes = absurd (ground arith)

two_pages-KeysReturn : KeysReturn read_number two_pages
two_pages-KeysReturn i payload page key sent goes =
    key_returns (lookup "ExclusiveStartKey" payload) page key sent goes

abbrev query_all : QueryArguments
query_all = record {
  table = "t";
  key_condition = KeyCondition.hash_key partition;
  start_key = none;
  filter_expression = none;
  scan_forward = true;
  index = none;
  projection = none;
  select = Select.all_attributes;
  consistent_read = false;
}

-- Its payload can be built.
query_all_built : (payload : Payload) × (query_payload query_all ≡ ok payload)
unfolding query_payload query_body with_parameters encode_key encode_hash encode_pair put_expression
    put_start_key put_index pure ◌>>=◌ ◌⊕◌ encode_path encode_value
query_all_built = (_, refl)

follow_pages-query_example :
    (query (requests two_pages) read_number 2 query_all none
      ≡ some (
          stream_items
            (dy2py read_number)
            (page_for none ∷ page_for (some (item (stored "a"))) ∷ [])))
    × (follow_pages read_number two_pages query_all 2 0 none
        ≡ query (requests two_pages) read_number 2 query_all none)
unfolding lookup insert sent_payload query_payload query_body with_parameters put_parameters
    encode_key encode_hash encode_pair put_expression put_start_key put_index pure ◌>>=◌ ◌⊕◌
    encode_path encode_value query_all_built
follow_pages-query_example =
    follow_pages-query read_number two_pages query_all query_all_built.0 none
      (page_for none ∷ page_for (some (item (stored "a"))) ∷ []) 2 two_pages-IsUnordered
      query_all_built.1 refl two_pages-KeysReturn (more (stored "a") refl refl (last refl refl))
      (omega arith)
