-- ===== src/Client/Payloads/Meaning.antt =====
-- What a payload of client.py says: each of its expressions, read with the names and the values that
-- the payload itself holds.
pub mod Usage
pub mod Placeholders
pub mod Closed
pub mod Sent
pub mod Requests
pub mod Items
pub mod Transactions
use aiodynamo.Prelude.{
  ℕ, String, ◌≡◌, refl, sym, ◌∙◌, ap, subst, Bool, true, false, Option, none, some, List, [], ◌∷◌,
  inl, inr, string_Keyed, ◌==◌, if◌then◌else◌, non_empty, Bool-cases, arith,
}
use aiodynamo.Prelude.Dict.{Dict, lookup, insert, lookup-insert}
use aiodynamo.Errors.{Exception, Result, ok, raised, ◌>>=◌ as ◌>>>◌}
use aiodynamo.Values.{Tagged, Fields, py2dy, end, field}
use aiodynamo.Expressions.Parameters.{Parameters, Text, Exec, pure, ◌>>=◌, new_parameters}
use aiodynamo.Expressions.Meaning.{
  Meaning, resolve, resolve-Grows, Grows, new_parameters-IsWellFormed, Grows-refl,
}
use aiodynamo.Expressions.Meaning.Refines.{
  Outcome, done, failed, Refines, Encodes, Refines-bind, Refines-pure, Refines-raise, later,
}
use aiodynamo.Client.Payloads.{
  Json, text, expression, item, names, values, Payload, put_names, put_values, put_expression,
  put_start_key, put_index, put_parameters, with_parameters, closed,
}

-- The expressions of a payload.
pub data Slot : Type 0 where
  key_condition projection filter condition update : Slot

abbrev pub slot_key : Slot → String
slot_key key_condition = "KeyConditionExpression"
slot_key projection = "ProjectionExpression"
slot_key filter = "FilterExpression"
slot_key condition = "ConditionExpression"
slot_key update = "UpdateExpression"

abbrev pub names_key : String
names_key = "ExpressionAttributeNames"

abbrev pub values_key : String
values_key = "ExpressionAttributeValues"

pub slot_key-plain :
    (k : Slot) → ((slot_key k == names_key) ≡ false) × ((slot_key k == values_key) ≡ false)
slot_key-plain key_condition = (refl, refl)
slot_key-plain projection = (refl, refl)
slot_key-plain filter = (refl, refl)
slot_key-plain condition = (refl, refl)
slot_key-plain update = (refl, refl)

-- What each expression should mean, where there is one.
abbrev pub Expected : Type 0
Expected = Slot → Option (List Meaning)

abbrev pub nothing : Expected
nothing k = none

abbrev pub with_slot : Slot → List Meaning → Expected → Expected
with_slot j ms e k = if slot_key j == slot_key k then some ms else e k

abbrev pub names_of : Option Json → Dict String String
names_of (some (names d)) = d
names_of _ = []

abbrev pub values_of : Option Json → Dict String Tagged
values_of (some (values d)) = d
values_of _ = []

-- The names and values that are sent.
abbrev pub sent_parameters : Payload → Parameters
sent_parameters payload = record {
  names = record { entries = names_of (lookup names_key payload); index_gen = 0; cache = [] };
  values = record { entries = values_of (lookup values_key payload); index_gen = 0; cache = [] };
}

abbrev pub read_entry : Parameters → Option Json → Option (List Meaning)
read_entry p (some (expression t)) = resolve p t
read_entry p _ = none

-- An expression of the payload, read with the names and values of the payload.
abbrev pub read : Payload → Slot → Option (List Meaning)
read payload k = read_entry (sent_parameters payload) (lookup (slot_key k) payload)

abbrev pub Entry : Parameters → Option Json → Option (List Meaning) → Type 0
Entry p found none = found ≡ none
Entry p found (some ms) = (t : Text) × (found ≡ some (expression t)) × (resolve p t ≡ some ms)

-- A payload in the making, before its parameters are added.
pub record Holds (p : Parameters) (payload : Payload) (e : Expected) : Type 0 where
  pub entries : (k : Slot) → Entry p (lookup (slot_key k) payload) (e k)
  pub no_names : lookup names_key payload ≡ none
  pub no_values : lookup values_key payload ≡ none

pub every_slot :
    (P : Slot → Type 0)
    → P key_condition
    → P projection
    → P filter
    → P condition
    → P update
    → (k : Slot) → P k
every_slot P a b c d e key_condition = a
every_slot P a b c d e projection = b
every_slot P a b c d e filter = c
every_slot P a b c d e condition = d
every_slot P a b c d e update = e

Entry-Grows :
    {p q : Parameters} (found : Option Json) (o : Option (List Meaning))
    → Grows p q
    → Entry p found o
    → Entry q found o
Entry-Grows found none g h = h
Entry-Grows found (some ms) g (t, same, reads) = (t, same, resolve-Grows g t ms reads)

pub Holds-Grows :
    {p q : Parameters} {payload : Payload} {e : Expected}
    → Grows p q
    → Holds p payload e
    → Holds q payload e
Holds-Grows {p} {q} {payload} {e} g h = record {
  entries = λ k. Entry-Grows (lookup (slot_key k) payload) (e k) g (h.entries k);
  no_names = h.no_names;
  no_values = h.no_values;
}

pub insert-other :
    (j k : String) (v : Json) (payload : Payload)
    → (j == k) ≡ false
    → lookup k (insert j v payload) ≡ lookup k payload
insert-other j k v payload h = lookup-insert j k v payload ∙ rw h

insert-slot :
    (p : Parameters) (payload : Payload) (e : Expected) (j k : Slot) (t : Text) (ms : List Meaning)
    → Entry p (lookup (slot_key k) payload) (e k)
    → resolve p t ≡ some ms
    → Entry p
        (lookup (slot_key k) (insert (slot_key j) (expression t) payload))
        (with_slot j ms e k)
insert-slot p payload e j k t ms old reads = elim (Bool-cases (slot_key j == slot_key k)) [
  | inl same ↦
      rw (lookup-insert (slot_key j) (slot_key k) (expression t) payload, same) (t, refl, reads)
  | inr apart ↦ rw (lookup-insert (slot_key j) (slot_key k) (expression t) payload, apart) old
]

pub Holds-slot :
    {p : Parameters} {payload : Payload} {e : Expected} (j : Slot) (t : Text) (ms : List Meaning)
    → Holds p payload e
    → resolve p t ≡ some ms
    → Holds p (insert (slot_key j) (expression t) payload) (with_slot j ms e)
Holds-slot {p} {payload} {e} j t ms h reads = record {
  entries = λ k. insert-slot p payload e j k t ms (h.entries k) reads;
  no_names =
      insert-other (slot_key j) names_key (expression t) payload (slot_key-plain j).0 ∙ h.no_names;
  no_values =
      insert-other (slot_key j) values_key (expression t) payload (slot_key-plain j).1
      ∙ h.no_values;
}

-- A key of a payload that is no expression's, nor that of the names or the values.
abbrev pub IsPlain : String → Type 0
IsPlain s =
    ((s == slot_key key_condition) ≡ false)
    × ((s == slot_key projection) ≡ false)
    × ((s == slot_key filter) ≡ false)
    × ((s == slot_key condition) ≡ false)
    × ((s == slot_key update) ≡ false)
    × ((s == names_key) ≡ false)
    × ((s == values_key) ≡ false)

pub plain_slot : (s : String) → IsPlain s → (k : Slot) → (s == slot_key k) ≡ false
plain_slot s plain key_condition = plain.0
plain_slot s plain projection = plain.1
plain_slot s plain filter = plain.2
plain_slot s plain condition = plain.3
plain_slot s plain update = plain.4

pub Holds-plain :
    {p : Parameters} {payload : Payload} {e : Expected} (s : String) (v : Json)
    → IsPlain s
    → Holds p payload e
    → Holds p (insert s v payload) e
Holds-plain {p} {payload} {e} s v plain h = record {
  entries = λ k. rw (insert-other s (slot_key k) v payload (plain_slot s plain k)) (h.entries k);
  no_names = insert-other s names_key v payload plain.5 ∙ h.no_names;
  no_values = insert-other s values_key v payload plain.6 ∙ h.no_values;
}
