-- ===== src/Client/Payloads/Meaning/Items.antt =====
-- What the payloads of the requests on one item, of client.py, say.
use aiodynamo.Prelude.{String, ◌≡◌, refl, Bool, Option, none, some, List, [], ◌∷◌, string_Keyed}
use aiodynamo.Prelude.Dict.{lookup}
use aiodynamo.Errors.{Result, ok, raised, empty_item, ◌>>=◌ as ◌>>>◌}
use aiodynamo.Values.{Fields, Tagged, TaggedFields, py2dy, low_level_serialize, serialize_dict}
use aiodynamo.Expressions.Parameters.{Parameters, Text, new_parameters}
use aiodynamo.Expressions.Fields.{Projection}
use aiodynamo.Expressions.Conditions.{Condition}
use aiodynamo.Expressions.Updates.{UpdateExpression}
use aiodynamo.Expressions.Meaning.{Meaning, resolve}
use aiodynamo.Expressions.Meaning.Refines.{
  Refines, Refines-bind, Refines-raise, Reads, Encodes-pure,
}
use aiodynamo.Expressions.Meaning.Paths.{projection_meaning, encode_projection-Encodes}
use aiodynamo.Expressions.Meaning.Conditions.{condition_meaning, encode_condition-Encodes}
use aiodynamo.Expressions.Meaning.Updates.{update_meaning, ReadsOption, encode_update-Refines}
use aiodynamo.Models.{ReturnValues, return_value}
use aiodynamo.Client.Payloads.{Payload, text, boolean, item, expression, with_parameters}
use aiodynamo.Client.Payloads.Items.{
  dynamo_item, not_empty, get_payload, condition_payload, get_item_payload, put_item_payload,
  delete_item_payload, updating, update_body, update_item_payload,
}
use aiodynamo.Client.Payloads.Meaning.{
  Slot, names_key, values_key, key_condition, projection, filter, condition, update, Expected,
  nothing, with_slot, every_slot, slot_key, Holds,
}
use aiodynamo.Client.Payloads.Meaning.Placeholders.{
  projected-Used, conditional-Used, update_body-Used,
}
use aiodynamo.Client.Payloads.Meaning.Sent.{
  Sent, not_sent, with_parameters-Sent, put_meaning, Refines-slot, Refines-lift,
}

-- A request whose item must serialize and not be empty.
unfoldable pub item_meaning : Fields → Result Expected → Result Expected
item_meaning Fields.end rest = raised empty_item
item_meaning (Fields.field k v fs) rest = py2dy (Fields.field k v fs) >>> λ x. rest

both-Sent :
    (r : Result Tagged) (rs : Result TaggedFields) (k : String) (f : TaggedFields → Result Payload)
    (s : Result Expected)
    → ((x : TaggedFields) → Sent (f x) s)
    → let fields = r >>> λ x. rs >>> λ xs. ok (TaggedFields.field k x xs) in
      Sent ((fields >>> not_empty) >>> f) (fields >>> λ x. s)
both-Sent (ok x) (ok xs) k f s each = each (TaggedFields.field k x xs)
both-Sent (ok x) (raised e) k f s each = not_sent
both-Sent (raised e) rs k f s each = not_sent

pub item-Sent :
    (fs : Fields) (f : TaggedFields → Result Payload) (s : Result Expected)
    → ((x : TaggedFields) → Sent (f x) s)
    → Sent (dynamo_item fs >>> f) (item_meaning fs s)
unfolding dynamo_item py2dy serialize_dict item_meaning
item-Sent Fields.end f s each = not_sent
item-Sent (Fields.field k v fs) f s each =
    both-Sent (low_level_serialize v) (serialize_dict fs) k f s each

pub no_expressions-Holds :
    (p : Parameters) (payload : Payload)
    → ((k : Slot) → lookup (slot_key k) payload ≡ none)
    → lookup names_key payload ≡ none
    → lookup values_key payload ≡ none
    → Holds p payload nothing
no_expressions-Holds p payload none_there no_names no_values = record {
  entries = none_there;
  no_names = no_names;
  no_values = no_values;
}

get_base-Holds :
    (p : Parameters) (table : String) (x : TaggedFields) (consistent_read : Bool)
    → Holds p
        (("TableName", text table)
          ∷ ("Key", item x)
          ∷ ("ConsistentRead", boolean consistent_read)
          ∷ [])
        nothing
unfolding lookup
get_base-Holds p table x consistent_read =
    no_expressions-Holds p _ (every_slot _ refl refl refl refl refl) refl refl

item_base-Holds :
    (p : Parameters) (table returns : String) (x : TaggedFields)
    → Holds p
        (("TableName", text table) ∷ ("Item", item x) ∷ ("ReturnValues", text returns) ∷ [])
        nothing
unfolding lookup
item_base-Holds p table returns x =
    no_expressions-Holds p _ (every_slot _ refl refl refl refl refl) refl refl

key_base-Holds :
    (p : Parameters) (table returns : String) (x : TaggedFields)
    → Holds p
        (("TableName", text table) ∷ ("Key", item x) ∷ ("ReturnValues", text returns) ∷ [])
        nothing
unfolding lookup
key_base-Holds p table returns x =
    no_expressions-Holds p _ (every_slot _ refl refl refl refl refl) refl refl

-- The entries of an update beside its expressions.
abbrev pub IsExtra : Payload → Type 0
IsExtra extra =
    ((k : Slot) → lookup (slot_key k) extra ≡ none)
    × (lookup names_key extra ≡ none)
    × (lookup values_key extra ≡ none)

update_base-Holds :
    (p : Parameters) (table : String) (extra : Payload) (x : TaggedFields) (t : Text)
    (ms : List Meaning)
    → IsExtra extra
    → resolve p t ≡ some ms
    → Holds p
        (("TableName", text table) ∷ ("UpdateExpression", expression t) ∷ ("Key", item x) ∷ extra)
        (with_slot update ms nothing)
unfolding lookup
update_base-Holds p table extra x t ms plain reads = record {
  entries =
      every_slot _ (plain.0 key_condition) (plain.0 projection) (plain.0 filter) (plain.0 condition)
        (t, refl, reads);
  no_names = plain.1;
  no_values = plain.2;
}

-- A get raises EmptyItem for an empty key, and what serializing the key raises; or the projection in
-- its payload, read with the names and values in that payload, is that of the arguments, and it
-- holds no other expression.
get_item_payload-Sent :
    (table : String) (key : Fields) (projected : Option Projection) (consistent_read : Bool)
    → Sent
        (get_item_payload table key projected consistent_read)
        (item_meaning key (put_meaning projection projection_meaning projected nothing))
unfolding get_item_payload get_payload lookup
get_item_payload-Sent table key projected consistent_read = item-Sent key _ _ λ x.
    with_parameters-Sent
      (Refines-slot encode_projection-Encodes new_parameters projection projected
        (get_base-Holds new_parameters table x consistent_read))
      (projected-Used projected _ refl)

-- A put raises EmptyItem for an empty item, and what serializing the item or encoding the condition
-- raises; or the condition in its payload, read with the names and values in that payload, is that
-- of the arguments, and it holds no other expression.
put_item_payload-Sent :
    (table : String) (fs : Fields) (returns : ReturnValues) (c : Option Condition)
    → Sent
        (put_item_payload table fs returns c)
        (item_meaning fs (put_meaning condition condition_meaning c nothing))
unfolding put_item_payload condition_payload lookup
put_item_payload-Sent table fs returns c = item-Sent fs _ _ λ x.
    with_parameters-Sent
      (Refines-slot encode_condition-Encodes new_parameters condition c
        (item_base-Holds new_parameters table (return_value returns) x))
      (conditional-Used c _ refl)

-- A delete raises EmptyItem for an empty key, and what serializing the key or encoding the condition
-- raises; or the condition in its payload, read with the names and values in that payload, is that
-- of the arguments, and it holds no other expression.
delete_item_payload-Sent :
    (table : String) (key : Fields) (returns : ReturnValues) (c : Option Condition)
    → Sent
        (delete_item_payload table key returns c)
        (item_meaning key (put_meaning condition condition_meaning c nothing))
unfolding delete_item_payload condition_payload lookup
delete_item_payload-Sent table key returns c = item-Sent key _ _ λ x.
    with_parameters-Sent
      (Refines-slot encode_condition-Encodes new_parameters condition c
        (key_base-Holds new_parameters table (return_value returns) x))
      (conditional-Used c _ refl)

-- A get, a put and a delete raise EmptyItem for an empty key or item, and what serializing it or
-- encoding the projection or the condition raises; or the projection of the get, and the condition of
-- the put and of the delete, read with the names and values in the payload, are those of the
-- arguments, the payload holds no other expression, and each of its names and values stands in one.
pub item_payloads-Sent :
    (table : String) (fs : Fields) (projected : Option Projection) (consistent_read : Bool)
    (returns : ReturnValues) (c : Option Condition)
    → Sent
        (get_item_payload table fs projected consistent_read)
        (item_meaning fs (put_meaning projection projection_meaning projected nothing))
      × Sent
          (put_item_payload table fs returns c)
          (item_meaning fs (put_meaning condition condition_meaning c nothing))
      × Sent
          (delete_item_payload table fs returns c)
          (item_meaning fs (put_meaning condition condition_meaning c nothing))
item_payloads-Sent table fs projected consistent_read returns c = (
  get_item_payload-Sent table fs projected consistent_read,
  put_item_payload-Sent table fs returns c,
  delete_item_payload-Sent table fs returns c,
)

unfoldable pub updating_meaning : Option (List Meaning) → Result (List Meaning)
updating_meaning none = raised empty_item
updating_meaning (some ms) = ok ms

-- An update: the update expression, which may not be empty, a key that serializes, and the
-- condition.
unfoldable pub update_item_meaning : Fields → UpdateExpression → Option Condition → Result Expected
update_item_meaning key u c = update_meaning u >>> λ o. updating_meaning o >>> λ ms.
    py2dy key >>> λ k. put_meaning condition condition_meaning c (with_slot update ms nothing)

Refines-updating :
    (p : Parameters) (o : Option Text) (m : Option (List Meaning))
    → ReadsOption p o m
    → Refines Reads p (updating o) (updating_meaning m)
unfolding updating_meaning
Refines-updating p none none h = Refines-raise p empty_item
Refines-updating p (some t) (some ms) h = Encodes-pure p t ms h
Refines-updating p none (some ms) h = elim h [ ]
Refines-updating p (some t) none h = elim h [ ]

update_body-Refines :
    (p : Parameters) (table : String) (extra : Payload) (key : Fields) (u : UpdateExpression)
    (c : Option Condition)
    → IsExtra extra
    → Refines Holds p (update_body table extra key u c) (update_item_meaning key u c)
unfolding update_body update_item_meaning
update_body-Refines p table extra key u c plain =
    Refines-bind p _ _ _ _ (encode_update-Refines p u) λ q o m g reads.
      Refines-bind q _ _ _ _ (Refines-updating q o m reads) λ q₂ t ms g₂ reads₂.
        Refines-lift q₂ (py2dy key) _ _ λ k.
          Refines-slot encode_condition-Encodes q₂ condition c
            (update_base-Holds q₂ table extra k t ms plain reads₂)

pub update_body-Sent :
    (table : String) (extra : Payload) (key : Fields) (u : UpdateExpression) (c : Option Condition)
    → IsExtra extra
    → Sent (with_parameters (update_body table extra key u c)) (update_item_meaning key u c)
update_body-Sent table extra key u c plain =
    with_parameters-Sent (update_body-Refines new_parameters table extra key u c plain)
      (update_body-Used table extra key u c (plain.0 condition))

-- An update raises EmptyItem where it lists no update, and what encoding its expressions or
-- serializing the key raises; or the update and the condition in its payload, read with the names
-- and values in that payload, are those of the arguments, it holds no other expression, and each of
-- its names and values stands in one of them.
pub update_item_payload-Sent :
    (table : String) (key : Fields) (u : UpdateExpression) (returns : ReturnValues)
    (c : Option Condition)
    → Sent (update_item_payload table key u returns c) (update_item_meaning key u c)
unfolding update_item_payload lookup
update_item_payload-Sent table key u returns c =
    update_body-Sent table (("ReturnValues", text (return_value returns)) ∷ []) key u c
      (every_slot _ refl refl refl refl refl, refl, refl)
