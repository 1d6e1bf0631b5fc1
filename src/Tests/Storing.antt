-- ===== src/Tests/Storing.antt =====
-- An item that is put and got back from a service that keeps one item.
use aiodynamo.Prelude.{
  ◌≡◌, refl, true, Option, none, some, string_Keyed, Bool, String, ◌==◌, if◌then◌else◌,
}
use aiodynamo.Errors.{ok}
use aiodynamo.Values.{
  Value, Fields, Tagged, TaggedFields, py2dy, serialize_dict, low_level_serialize,
}
use aiodynamo.Prelude.Dict.{lookup}
use aiodynamo.Expressions.Parameters.{pure}
use aiodynamo.Models.{ReturnValues}
use aiodynamo.Client.Payloads.{Json, Payload, item, with_parameters, put_expression}
use aiodynamo.Client.Payloads.Items.{dynamo_item, put_item_payload, condition_payload}
use aiodynamo.Client.Responses.{get_item}
use aiodynamo.Client.Responses.Storing.{Service, get_item-put_item}
use aiodynamo.Tests.Storage.{read_number}

-- The first attribute is the key.
abbrev key_of : TaggedFields → TaggedFields
key_of TaggedFields.end = TaggedFields.end
key_of (TaggedFields.field k v fs) = TaggedFields.field k v TaggedFields.end

abbrev item_of : Option Json → Option TaggedFields
item_of (some (item x)) = some x
item_of _ = none

-- The text of a key that is one string.
abbrev key_text : TaggedFields → String
key_text (TaggedFields.field k (Tagged.s text) fs) = text
key_text _ = ""

abbrev same_key : TaggedFields → TaggedFields → Bool
same_key x y = key_text x == key_text y

same_key_refl : (x : TaggedFields) → same_key x x ≡ true
same_key_refl x = (string_Keyed.same_iff (key_text x) (key_text x)).1 refl

abbrev find : Option Json → Option TaggedFields → Option TaggedFields
find (some (item k)) (some x) = if same_key k (key_of x) then some x else none
find _ _ = none

-- It keeps the item that was put last.
abbrev one_item : Service (Option TaggedFields)
unfolding lookup
one_item = record {
  put = λ p s. (ok none, item_of (lookup "Item" p));
  get = λ q s. ok (find (lookup "Key" q) s);
  key_of = key_of;
  read_back = λ p q s table x attributes h there accepted named found consistent whole.
      rw there (rw found (rw (same_key_refl (key_of x)) refl));
}

abbrev user : Fields
user = Fields.field "pk" (Value.str "x") (Fields.field "name" (Value.str "ada") Fields.end)

abbrev stored_user : TaggedFields
stored_user =
    TaggedFields.field "pk" (Tagged.s "x")
      (TaggedFields.field "name" (Tagged.s "ada") TaggedFields.end)

abbrev user_key : Fields
user_key = Fields.field "pk" (Value.str "x") Fields.end

user_stored : py2dy user ≡ ok stored_user
unfolding py2dy serialize_dict low_level_serialize
user_stored = refl

key_stored : dynamo_item user_key ≡ ok (key_of stored_user)
unfolding dynamo_item py2dy serialize_dict low_level_serialize
key_stored = refl

user_sent : (payload : Payload) × (put_item_payload "t" user ReturnValues.none none ≡ ok payload)
unfolding put_item_payload condition_payload dynamo_item py2dy serialize_dict low_level_serialize
    with_parameters put_expression pure
user_sent = (_, refl)

get_item-put_item_example :
    get_item read_number
      (λ q. one_item.get q (one_item.put user_sent.0 none).1)
      "t"
      user_key
      none
      true
    ≡ ok user
unfolding one_item
get_item-put_item_example =
    get_item-put_item one_item read_number none "t" user user_key stored_user ReturnValues.none none
      user_sent.0 none (tt, (tt, tt)) user_stored key_stored user_sent.1 refl
