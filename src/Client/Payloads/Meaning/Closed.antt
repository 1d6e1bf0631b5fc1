-- ===== src/Client/Payloads/Meaning/Closed.antt =====
-- A payload of client.py once its parameters have been added.
use aiodynamo.Prelude.{
  String, ◌≡◌, refl, ◌∙◌, ap, subst, true, false, Option, none, some, List, [], ◌∷◌, string_Keyed,
  ◌==◌, if◌then◌else◌, non_empty,
}
use aiodynamo.Prelude.Dict.{Dict, lookup, lookup-insert}
use aiodynamo.Values.{Tagged}
use aiodynamo.Expressions.Parameters.{Parameters, to_request_payload}
use aiodynamo.Expressions.Meaning.{Meaning, resolve-Grows, Grows}
use aiodynamo.Client.Payloads.{Json, names, values, Payload, put_names, put_values, put_parameters}
use aiodynamo.Expressions.Parameters.{Piece, lit, name_ref, value_ref}
use aiodynamo.Expressions.Parameters.Placeholders.Entries.{is_some}
use aiodynamo.Expressions.Usage.{Listed}
use aiodynamo.Client.Payloads.Meaning.{
  Slot, key_condition, projection, filter, condition, update, slot_key, names_key, values_key,
  Expected, names_of, values_of, sent_parameters, read, read_entry, Entry, Holds, insert-other,
}

or_none {ℓ} : {A : Type ℓ} → List A → Option (List A)
or_none xs = if non_empty xs then some xs else none

put_names-other :
    (o : Option (Dict String String)) (k : String) (payload : Payload)
    → (names_key == k) ≡ false
    → lookup k (put_names o payload) ≡ lookup k payload
put_names-other none k payload h = refl
put_names-other (some d) k payload h = insert-other names_key k (names d) payload h

put_values-other :
    (o : Option (Dict String Tagged)) (k : String) (payload : Payload)
    → (values_key == k) ≡ false
    → lookup k (put_values o payload) ≡ lookup k payload
put_values-other none k payload h = refl
put_values-other (some d) k payload h = insert-other values_key k (values d) payload h

names_put :
    (d : Dict String String) (payload : Payload)
    → lookup names_key payload ≡ none
    → names_of (lookup names_key (put_names (or_none d) payload)) ≡ d
unfolding or_none
names_put [] payload h = rw h
names_put (x ∷ d) payload h = rw (lookup-insert names_key names_key (names (x ∷ d)) payload)

values_put :
    (d : Dict String Tagged) (payload : Payload)
    → lookup values_key payload ≡ none
    → values_of (lookup values_key (put_values (or_none d) payload)) ≡ d
unfolding or_none
values_put [] payload h = rw h
values_put (x ∷ d) payload h = rw (lookup-insert values_key values_key (values (x ∷ d)) payload)

-- The names and values that are sent are those of the Parameters.
closed_names :
    {p : Parameters} {payload : Payload} {e : Expected}
    → Holds p payload e
    → names_of (lookup names_key (put_parameters p payload)) ≡ p.names.entries
unfolding put_parameters to_request_payload or_none
closed_names {p} {payload} h =
    ap names_of (
      put_values-other (or_none p.values.entries) names_key
        (put_names (or_none p.names.entries) payload) refl)
    ∙ names_put p.names.entries payload h.no_names

closed_values :
    {p : Parameters} {payload : Payload} {e : Expected}
    → Holds p payload e
    → values_of (lookup values_key (put_parameters p payload)) ≡ p.values.entries
unfolding put_parameters to_request_payload or_none
closed_values {p} {payload} h =
    values_put p.values.entries (put_names (or_none p.names.entries) payload)
      (put_names-other (or_none p.names.entries) values_key payload refl ∙ h.no_values)

closed-Grows :
    {p : Parameters} {payload : Payload} {e : Expected}
    → Holds p payload e
    → Grows p (sent_parameters (put_parameters p payload))
closed-Grows h = record {
  names = record { keeps = λ s v found. ap (λ d. lookup s d) (closed_names h) ∙ found };
  values = record { keeps = λ s v found. ap (λ d. lookup s d) (closed_values h) ∙ found };
}

pub closed-Listed :
    {p : Parameters} {payload : Payload} {e : Expected}
    → Holds p payload e
    → (x : Piece) → Listed (sent_parameters (put_parameters p payload)) x
    → Listed p x
closed-Listed h (lit s) listed = listed
closed-Listed h (name_ref s) listed =
    subst (λ (d : Dict String String). is_some (lookup s d) ≡ true) (closed_names h) listed
closed-Listed h (value_ref s) listed =
    subst (λ (d : Dict String Tagged). is_some (lookup s d) ≡ true) (closed_values h) listed

slot_key-apart :
    (k : Slot) → ((names_key == slot_key k) ≡ false) × ((values_key == slot_key k) ≡ false)
slot_key-apart key_condition = (refl, refl)
slot_key-apart projection = (refl, refl)
slot_key-apart filter = (refl, refl)
slot_key-apart condition = (refl, refl)
slot_key-apart update = (refl, refl)

pub put_parameters-other :
    (p : Parameters) (payload : Payload) (k : String)
    → (names_key == k) ≡ false
    → (values_key == k) ≡ false
    → lookup k (put_parameters p payload) ≡ lookup k payload
unfolding put_parameters to_request_payload
put_parameters-other p payload k no_name no_value =
    put_values-other _ k _ no_value ∙ put_names-other _ k payload no_name

pub closed-lookup :
    (p : Parameters) (payload : Payload) (k : Slot)
    → lookup (slot_key k) (put_parameters p payload) ≡ lookup (slot_key k) payload
closed-lookup p payload k =
    put_parameters-other p payload (slot_key k) (slot_key-apart k).0 (slot_key-apart k).1

read_entry-Entry :
    (p q : Parameters) (found : Option Json) (o : Option (List Meaning))
    → Grows p q
    → Entry p found o
    → read_entry q found ≡ o
read_entry-Entry p q found none g h = rw h
read_entry-Entry p q found (some ms) g (t, same, reads) = rw same (resolve-Grows g t ms reads)

pub read-Holds :
    {p : Parameters} {payload : Payload} {e : Expected}
    → Holds p payload e
    → (k : Slot) → read (put_parameters p payload) k ≡ e k
read-Holds {p} {payload} {e} h k = rw (closed-lookup p payload k) (
    read_entry-Entry p (sent_parameters (put_parameters p payload)) (lookup (slot_key k) payload)
      (e k) (closed-Grows h) (h.entries k))
