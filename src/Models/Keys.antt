-- ===== src/Models/Keys.antt =====
-- KeyType, KeySpec and KeySchema of models.py, and `TableDescription._parse_key_schema`.
pub mod RoundTrip
pub mod Attributes
use aiodynamo.Prelude.{
  ℕ, String, Bool, true, false, ◌&&◌, not, Option, none, some, List, [], ◌∷◌, ◌++◌, map, leb, ltb,
  length, non_empty, str_eq, string_Keyed, if◌then◌else◌,
}
use aiodynamo.Prelude.Dict.{Dict, lookup, insert}
use aiodynamo.Errors.{Result, ok, raised, value_error, key_error, index_error, ◌>>=◌, require}

pub data KeyType : Type 0 where
  string number binary : KeyType

unfoldable pub key_type_value : KeyType → String
key_type_value string = "S"
key_type_value number = "N"
key_type_value binary = "B"

pub record KeySpec : Type 0 where
  pub name : String
  pub key_type : KeyType

-- A KeySpec or a tuple of them.
pub data OneOrMany : Type 0 where
  one : KeySpec → OneOrMany
  many : List KeySpec → OneOrMany

pub record KeySchema : Type 0 where
  pub hash_key : OneOrMany
  pub range_key : Option OneOrMany

-- `KeySchema._normalize`
unfoldable pub normalize : OneOrMany → List KeySpec
normalize (one k) = k ∷ []
normalize (many ks) = ks

-- `if self.range_key`: neither None nor the empty tuple; with its specs.
unfoldable pub range_specs : Option OneOrMany → List KeySpec
unfolding normalize
range_specs none = []
range_specs (some key) = normalize key

-- `__post_init__` of `KeySchema(hash_key, range_key)`.
unfoldable pub make_key_schema : OneOrMany → Option OneOrMany → Result KeySchema
unfolding normalize range_specs
make_key_schema hash_key range_key =
    if not (leb 1 (length (normalize hash_key)) && leb (length (normalize hash_key)) 4)
    then raised value_error
    else if ltb 4 (length (range_specs range_key))
    then raised value_error
    else ok (record { hash_key = hash_key; range_key = range_key })

-- `KeySchema.__iter__`
unfoldable pub specs : KeySchema → List KeySpec
unfolding normalize range_specs
specs s = normalize s.hash_key ++ range_specs s.range_key

unfoldable pub add_attributes : List KeySpec → Dict String String → Dict String String
unfolding insert key_type_value
add_attributes [] d = d
add_attributes (k ∷ ks) d = add_attributes ks (insert k.name (key_type_value k.key_type) d)

-- `KeySchema.to_attributes`
unfoldable pub to_attributes : KeySchema → Dict String String
unfolding add_attributes specs
to_attributes s = add_attributes (specs s) []

-- {"AttributeName": name, "KeyType": role}
pub record EncodedKeySchema : Type 0 where
  pub attribute_name : String
  pub role : String

abbrev pub encode_spec : String → KeySpec → EncodedKeySchema
encode_spec role k = record { attribute_name = k.name; role = role }

-- `KeySchema.encode`
unfoldable pub encode : KeySchema → List EncodedKeySchema
unfolding normalize range_specs
encode s =
    map (encode_spec "HASH") (normalize s.hash_key)
    ++ map (encode_spec "RANGE") (range_specs s.range_key)

-- The loop of `_parse_key_schema`, over the entries that are left and the two lists.
unfoldable pub collect :
    List EncodedKeySchema
    → Dict String KeyType
    → List KeySpec
    → List KeySpec
    → Result (List KeySpec × List KeySpec)
collect [] attributes hash_keys range_keys = ok (hash_keys, range_keys)
collect (key ∷ keys) attributes hash_keys range_keys = do
  kind ← require key_error (lookup key.attribute_name attributes)
  let spec : KeySpec = record { name = key.attribute_name; key_type = kind }
  let is_hash : Bool = str_eq key.role "HASH"
  collect keys attributes (if is_hash then hash_keys ++ spec ∷ [] else hash_keys)
      (if is_hash then range_keys else range_keys ++ spec ∷ [])

-- `tuple(keys) if len(keys) > 1 else keys[0]`
unfoldable pub collapse : List KeySpec → Result OneOrMany
collapse [] = raised index_error
collapse (k ∷ []) = ok (one k)
collapse ks = ok (many ks)

unfoldable pub collapse_range : List KeySpec → Result (Option OneOrMany)
unfolding collapse
collapse_range [] = ok none
collapse_range ks = do key ← collapse ks; ok (some key)

unfoldable pub parse_key_schema : List EncodedKeySchema → Dict String KeyType → Result KeySchema
parse_key_schema keys attributes = do
  (hash_keys, range_keys) ← collect keys attributes [] []
  hash_key ← collapse hash_keys
  range_key ← collapse_range range_keys
  make_key_schema hash_key range_key
