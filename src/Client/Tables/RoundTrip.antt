-- ===== src/Client/Tables/RoundTrip.antt =====
-- `create_table` of client.py and `TableDescription.from_response` of models.py: the description of a
-- table that was created.
use aiodynamo.Prelude.{
  ap, sym, ◌≡◌, ◌∙◌, refl, String, Option, some, List, [], ◌∷◌, ◌++◌, All, string_Keyed, ◌≤◌,
  length, arith, subst,
}
use aiodynamo.Prelude.Dict.{Dict, lookup, update}
use aiodynamo.Errors.{ok}
use aiodynamo.Models.Keys.{
  KeyType, KeySpec, OneOrMany, KeySchema, make_key_schema, specs, normalize, range_specs, encode,
  to_attributes,
}
use aiodynamo.Models.Keys.RoundTrip.{Typed, canonical_schema, made_schema, parse-encode}
use aiodynamo.Models.Keys.Attributes.{Agrees, IsSound, Gives, update-Keeps, to_attributes-Gives}
use aiodynamo.Models.Tables.{
  TableDescription, RawDescription, parse_schema, parse_definitions, parse_throughput, table_status,
  from_response, active,
}
use aiodynamo.Models.Indexes.{
  LocalSecondaryIndex, GlobalSecondaryIndex, ThroughputType, StreamSpecification,
}
use aiodynamo.Models.Tables.Attributes.{
  Types, Reports, parse_attributes-Types, parse_schema-lookup, parse-encode_throughput,
}
use aiodynamo.Client.Tables.{
  CreateTable, add_schemas, local_schemas, global_schemas, create_table_payload,
}

-- The description repeats the attribute definitions, the key schema and the throughput of the request,
-- and the table is active.
pub record Describes (payload : CreateTable) (raw : RawDescription) : Type 0 where
  pub same_definitions : raw.attribute_definitions ≡ some payload.attribute_definitions
  pub same_keys : raw.key_schema ≡ some payload.key_schema
  pub same_throughput :
      Reports payload.throughput raw.billing_mode_summary raw.provisioned_throughput
  pub is_active : raw.table_status ≡ some "ACTIVE"

module _ (types : String → KeyType) where
  abbrev pub AllGiven : Dict String String → List KeySpec → Type 0
  AllGiven d = All (λ (k : KeySpec). Gives types d k.name)

  map-AllGiven :
      (d e : Dict String String)
      → ((m : String) → Gives types d m → Gives types e m)
      → (ks : List KeySpec) → AllGiven d ks
      → AllGiven e ks
  map-AllGiven d e f [] h = tt
  map-AllGiven d e f (k ∷ ks) h = (f k.name h.0, map-AllGiven d e f ks h.1)

  map-schemas :
      (d e : Dict String String)
      → ((m : String) → Gives types d m → Gives types e m)
      → (ss : List KeySchema) → All (λ (s : KeySchema). AllGiven d (specs s)) ss
      → All (λ (s : KeySchema). AllGiven e (specs s)) ss
  map-schemas d e f [] h = tt
  map-schemas d e f (s ∷ ss) h = (map-AllGiven d e f (specs s) h.0, map-schemas d e f ss h.1)

  add_schemas-Gives :
      (ss : List KeySchema) (d : Dict String String)
      → All (λ (s : KeySchema). Agrees types (specs s)) ss
      → IsSound types d
      → IsSound types (add_schemas ss d)
        × ((m : String) → Gives types d m → Gives types (add_schemas ss d) m)
        × All (λ (s : KeySchema). AllGiven (add_schemas ss d) (specs s)) ss
  unfolding add_schemas
  add_schemas-Gives [] d h sound = (sound, (λ m g. g), tt)
  add_schemas-Gives (s ∷ ss) d h sound =
      let (own, given) = to_attributes-Gives types s h.0 in
      let ((after, kept), new) = update-Keeps types d (to_attributes s) sound own in
      let (last, keeps, rest) = add_schemas-Gives ss (update d (to_attributes s)) h.1 after in
      let there = map-AllGiven (to_attributes s) (update d (to_attributes s)) new (specs s) given in
      let e = update d (to_attributes s) in
      (
        last,
        (λ m g. keeps m (kept m g)),
        (map-AllGiven e (add_schemas ss e) keeps (specs s) there, rest),
      )

  AllGiven-Typed :
      (d : Dict String String) (a : Dict String KeyType)
      → ((m : String) → Gives types d m → Types types a m)
      → (ks : List KeySpec) → Agrees types ks
      → AllGiven d ks
      → Typed a ks
  AllGiven-Typed d a f [] h g = tt
  AllGiven-Typed d a f (k ∷ ks) h g = (
    subst (λ (t : KeyType). lookup k.name a ≡ some t) h.0 (f k.name g.0),
    AllGiven-Typed d a f ks h.1 g.1,
  )

  Agrees-Typed :
      (ss : List KeySchema) (d : Dict String String) (a : Dict String KeyType)
      → ((m : String) → Gives types d m → Types types a m)
      → All (λ (s : KeySchema). Agrees types (specs s)) ss
      → All (λ (s : KeySchema). AllGiven d (specs s)) ss
      → All (λ (s : KeySchema). Typed a (specs s)) ss
  Agrees-Typed [] d a f h g = tt
  Agrees-Typed (s ∷ ss) d a f h g =
      (AllGiven-Typed d a f (specs s) h.0 g.0, Agrees-Typed ss d a f h.1 g.1)

Typed-append :
    (a : Dict String KeyType) (ks ls : List KeySpec) → Typed a (ks ++ ls) → Typed a ks × Typed a ls
Typed-append a [] ls h = (tt, h)
Typed-append a (k ∷ ks) ls h = let (l, r) = Typed-append a ks ls h.1 in ((h.0, l), r)

first-Typed :
    (a : Dict String KeyType) (ks : List KeySpec)
    → 1 ≤ length ks
    → Typed a ks
    → (k : KeySpec) × (lookup k.name a ≡ some k.key_type)
first-Typed a [] full h = absurd (omega arith)
first-Typed a (k ∷ ks) full h = (k, h.0)

-- The schema that `parse_schema` finds in attributes that type it.
parse_schema-encode :
    (hash_key : OneOrMany) (range_key : Option OneOrMany) (keys : KeySchema)
    (a : Dict String KeyType)
    → make_key_schema hash_key range_key ≡ ok keys
    → Typed a (specs keys)
    → parse_schema (some a) (some (encode keys)) ≡ ok (some (canonical_schema hash_key range_key))
unfolding specs
parse_schema-encode hash_key range_key keys a made typed =
    let (full, same, again) = made_schema hash_key range_key keys made in
    let parts =
      Typed-append a (normalize hash_key) (range_specs range_key)
        (subst (λ (s : KeySchema). Typed a (specs s)) (sym same) typed) in
    let (k, first) = first-Typed a (normalize hash_key) full parts.0 in
    rw
      (
        parse_schema-lookup k.name k.key_type a (encode keys) first,
        parse-encode hash_key range_key keys a made parts.0 parts.1,
      )
      refl

-- The parts of a description: the canonical schema, the throughput, an active table, and attributes
-- that type every key of the table and of its indexes.
abbrev pub Parsed :
    OneOrMany
    → Option OneOrMany
    → KeySchema
    → ThroughputType
    → Option (List LocalSecondaryIndex)
    → Option (List GlobalSecondaryIndex)
    → TableDescription
    → Type 0
Parsed hash_key range_key keys throughput lsis gsis d =
    (d.key_schema ≡ some (canonical_schema hash_key range_key))
    × (d.throughput ≡ some throughput)
    × (d.status ≡ active)
    × ((a : Dict String KeyType) × (d.attributes ≡ some a)
        × Typed a (specs keys)
        × All (λ (s : KeySchema). Typed a (specs s)) (local_schemas lsis)
        × All (λ (s : KeySchema). Typed a (specs s)) (global_schemas gsis))

abbrev active_table :
    RawDescription → Dict String KeyType → KeySchema → ThroughputType → TableDescription
active_table raw a schema throughput = record {
  attributes = some a;
  created = raw.creation_date_time;
  item_count = raw.item_count;
  key_schema = some schema;
  throughput = some throughput;
  status = active;
}

from_response_active :
    (raw : RawDescription) (a : Dict String KeyType) (schema : KeySchema)
    (throughput : ThroughputType)
    → parse_definitions raw.attribute_definitions ≡ ok (some a)
    → parse_schema (some a) raw.key_schema ≡ ok (some schema)
    → parse_throughput raw.billing_mode_summary raw.provisioned_throughput ≡ ok (some throughput)
    → raw.table_status ≡ some "ACTIVE"
    → from_response raw ≡ ok (active_table raw a schema throughput)
unfolding from_response table_status
from_response_active raw a schema throughput defs keys read up = simp (defs, keys, read, up)

-- A table is created with a schema that `KeySchema(...)` accepts, and indexes such that all the keys
-- with one name have one type. If the description of the table repeats the attribute definitions, the
-- key schema and the throughput of the request, and says that it is active, then it is parsed: its
-- schema has the same specs in the same roles (a tuple of one spec is the spec, an empty range key
-- None), its throughput is the one requested, its status is active, and its attributes give every key
-- of the table and of its indexes its type.
pub from_response-create_table_payload :
    (types : String → KeyType) (hash_key : OneOrMany) (range_key : Option OneOrMany)
    (keys : KeySchema) (name : String) (throughput : ThroughputType)
    (lsis : Option (List LocalSecondaryIndex)) (gsis : Option (List GlobalSecondaryIndex))
    (stream : Option StreamSpecification) (raw : RawDescription)
    → make_key_schema hash_key range_key ≡ ok keys
    → Agrees types (specs keys)
    → All (λ (s : KeySchema). Agrees types (specs s)) (local_schemas lsis)
    → All (λ (s : KeySchema). Agrees types (specs s)) (global_schemas gsis)
    → Describes (create_table_payload name throughput keys lsis gsis stream) raw
    → (d : TableDescription) × (from_response raw ≡ ok d)
      × Parsed hash_key range_key keys throughput lsis gsis d
unfolding create_table_payload
from_response-create_table_payload types hash_key range_key keys name throughput lsis gsis stream
      raw made own local global describes =
    let d0 = to_attributes keys in
    let d1 = add_schemas (local_schemas lsis) d0 in
    let d2 = add_schemas (global_schemas gsis) d1 in
    let (sound0, given0) = to_attributes-Gives types keys own in
    let (sound1, keeps1, given1) = add_schemas-Gives types (local_schemas lsis) d0 local sound0 in
    let (sound2, keeps2, given2) = add_schemas-Gives types (global_schemas gsis) d1 global sound1 in
    let (a, run, _, found) = parse_attributes-Types types d2 [] sound2 in
    let typed =
      AllGiven-Typed types d2 a found (specs keys) own
        (map-AllGiven types d0 d2 (λ m g. keeps2 m (keeps1 m g)) (specs keys) given0) in
    (
      active_table raw a (canonical_schema hash_key range_key) throughput,
      from_response_active raw a (canonical_schema hash_key range_key) throughput
          (ap parse_definitions describes.same_definitions ∙ rw run refl)
          (ap (parse_schema (some a)) describes.same_keys
            ∙ parse_schema-encode hash_key range_key keys a made typed)
          (parse-encode_throughput throughput raw.billing_mode_summary raw.provisioned_throughput
            describes.same_throughput)
          describes.is_active,
      (
        refl,
        refl,
        refl,
        (
          a,
          refl,
          typed,
          Agrees-Typed types (local_schemas lsis) d2 a found local
              (map-schemas types d1 d2 keeps2 (local_schemas lsis) given1),
          Agrees-Typed types (global_schemas gsis) d2 a found global given2,
        ),
      ),
    )
