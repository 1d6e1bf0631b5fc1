-- ===== src/Models/Keys/RoundTrip.antt =====
-- `KeySchema.encode` and `_parse_key_schema` of models.py, one after the other.
use aiodynamo.Prelude.{
  subst, ◌≤◌, ◌≡◌, refl, ◌∙◌, String, Option, none, some, List, [], ◌∷◌, ◌++◌, map, All, length,
  append-nil, append_assoc, arith, string_Keyed,
}
use aiodynamo.Prelude.Dict.{Dict, lookup}
use aiodynamo.Errors.{ok}
use aiodynamo.Models.Keys.{
  KeyType, KeySpec, OneOrMany, one, many, KeySchema, EncodedKeySchema, encode_spec, normalize,
  range_specs, make_key_schema, encode, collect, collapse, collapse_range, parse_key_schema,
}

-- The attributes give each of the specs its type.
abbrev pub Typed : Dict String KeyType → List KeySpec → Type 0
Typed attributes = All (λ (k : KeySpec). lookup k.name attributes ≡ some k.key_type)

collect-hash :
    (ks : List KeySpec) (more : List EncodedKeySchema) (attributes : Dict String KeyType)
    (hs rs : List KeySpec)
    → Typed attributes ks
    → collect (map (encode_spec "HASH") ks ++ more) attributes hs rs
      ≡ collect more attributes (hs ++ ks) rs
unfolding collect
collect-hash [] more attributes hs rs h = rw append-nil
collect-hash (k ∷ ks) more attributes hs rs h =
    rw (h.0) (collect-hash ks more attributes (hs ++ k ∷ []) rs h.1 ∙ rw append_assoc)

collect-range :
    (ks : List KeySpec) (attributes : Dict String KeyType) (hs rs : List KeySpec)
    → Typed attributes ks
    → collect (map (encode_spec "RANGE") ks) attributes hs rs ≡ ok (hs, rs ++ ks)
unfolding collect
collect-range [] attributes hs rs h = rw append-nil
collect-range (k ∷ ks) attributes hs rs h =
    rw (h.0) (collect-range ks attributes hs (rs ++ k ∷ []) h.1 ∙ rw append_assoc)

-- A tuple of one spec is parsed as the spec, and an empty range key as None.
abbrev pub canonical : List KeySpec → OneOrMany
canonical (k ∷ []) = one k
canonical ks = many ks

abbrev pub canonical_range : List KeySpec → Option OneOrMany
canonical_range [] = none
canonical_range (k ∷ ks) = some (canonical (k ∷ ks))

collapse-canonical : (ks : List KeySpec) → 1 ≤ length ks → collapse ks ≡ ok (canonical ks)
unfolding collapse
collapse-canonical [] h = absurd (omega arith)
collapse-canonical (k ∷ []) h = refl
collapse-canonical (k ∷ l ∷ ks) h = refl

collapse_range-canonical : (ks : List KeySpec) → collapse_range ks ≡ ok (canonical_range ks)
unfolding collapse_range
collapse_range-canonical [] = refl
collapse_range-canonical (k ∷ []) = refl
collapse_range-canonical (k ∷ l ∷ ks) = refl

normalize-canonical : (ks : List KeySpec) → normalize (canonical ks) ≡ ks
unfolding normalize
normalize-canonical [] = refl
normalize-canonical (k ∷ []) = refl
normalize-canonical (k ∷ l ∷ ks) = refl

range_specs-canonical : (ks : List KeySpec) → range_specs (canonical_range ks) ≡ ks
unfolding range_specs
range_specs-canonical [] = refl
range_specs-canonical (k ∷ ks) = normalize-canonical (k ∷ ks)

parse-encode_parts :
    (s : KeySchema) (attributes : Dict String KeyType)
    → Typed attributes (normalize s.hash_key)
    → Typed attributes (range_specs s.range_key)
    → 1 ≤ length (normalize s.hash_key)
    → parse_key_schema (encode s) attributes
      ≡ make_key_schema
          (canonical (normalize s.hash_key))
          (canonical_range (range_specs s.range_key))
unfolding parse_key_schema encode
parse-encode_parts s attributes hs rs full = rw (
  collect-hash (normalize s.hash_key) (map (encode_spec "RANGE") (range_specs s.range_key))
      attributes [] [] hs,
  collect-range (range_specs s.range_key) attributes (normalize s.hash_key) [] rs,
  collapse-canonical (normalize s.hash_key) full,
  collapse_range-canonical (range_specs s.range_key),
)

abbrev pub canonical_schema : OneOrMany → Option OneOrMany → KeySchema
canonical_schema hash_key range_key = record {
  hash_key = canonical (normalize hash_key);
  range_key = canonical_range (range_specs range_key);
}

pub made_schema :
    (hash_key : OneOrMany) (range_key : Option OneOrMany) (s : KeySchema)
    → make_key_schema hash_key range_key ≡ ok s
    → (1 ≤ length (normalize hash_key))
      × (record { hash_key = hash_key; range_key = range_key } ≡ s)
      × (make_key_schema (canonical (normalize hash_key)) (canonical_range (range_specs range_key))
          ≡ ok (canonical_schema hash_key range_key))
unfolding make_key_schema
made_schema hash_key range_key s made = (
  ground arith,
  ground arith,
  rw (normalize-canonical (normalize hash_key), range_specs-canonical (range_specs range_key))
      (ground arith),
)

-- A schema that `KeySchema(...)` accepts, encoded for CreateTable and parsed as DescribeTable gives
-- it back, with attributes that give every key its type: the same specs in the same roles, where
-- a tuple of one spec has become the spec, and an empty range key None.
pub parse-encode :
    (hash_key : OneOrMany) (range_key : Option OneOrMany) (s : KeySchema)
    (attributes : Dict String KeyType)
    → make_key_schema hash_key range_key ≡ ok s
    → Typed attributes (normalize hash_key)
    → Typed attributes (range_specs range_key)
    → parse_key_schema (encode s) attributes ≡ ok (canonical_schema hash_key range_key)
parse-encode hash_key range_key s attributes made hs rs =
    let (full, same, again) = made_schema hash_key range_key s made in
    subst (λ t. parse_key_schema (encode t) attributes ≡ ok (canonical_schema hash_key range_key))
      same
      (parse-encode_parts (record { hash_key = hash_key; range_key = range_key }) attributes hs rs
          full
        ∙ again)
