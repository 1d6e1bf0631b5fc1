-- ===== src/Values.antt =====
-- utils.py: Python values, DynamoDB's tagged values, and the way between them.
pub mod Base64
pub mod RoundTrip
use aiodynamo.Prelude.{
  ℕ, zero, suc, ◌+◌, ◌≡◌, refl, String, Bool, true, false, ◌&&◌, Option, none, some, List, [], ◌∷◌,
  arith, nat_eq, if◌then◌else◌, non_empty, map,
}
use aiodynamo.Errors.{Exception, Result, ok, raised, type_error, key_error, ◌>>=◌, map_result}
use Base64.{b64encode, b64decode}

-- An int, a float or a Decimal, by what the library looks at: `str(x)`, `x < 0` and the text of
-- `x * -1`.
pub record Number : Type 0 where
  pub text : String
  pub is_negative : Bool
  pub negated_text : String

-- `x * -1` of a negative number.
unfoldable pub negate : Number → Number
negate x = record { text = x.negated_text; is_negative = false; negated_text = x.text }

-- The values that `low_level_serialize` tells apart. A set is listed in the order in which it is
-- iterated over, and a mapping in its order. `other_sequence` is a tuple, or any other Sequence that
-- is not a list; `other` is a value of any other class.
mutual
  pub data Value : Type 0 where
    null : Value
    bool : Bool → Value
    num : Number → Value
    str : String → Value
    bytes : List ℕ → Value
    set : Items → Value
    mapping : Fields → Value
    list : Items → Value
    other_sequence : Items → Value
    other : Value

  pub data Items : Type 0 where
    nil : Items
    cons : Value → Items → Items

  pub data Fields : Type 0 where
    end : Fields
    field : String → Value → Fields → Fields

-- A tagged value, `{tag: value}`: the ten tags of DynamoDB, a dict with any other tag first, and
-- the empty dict.
mutual
  pub data Tagged : Type 0 where
    null : Tagged
    bool : Bool → Tagged
    n : String → Tagged
    s : String → Tagged
    b : List ℕ → Tagged
    ns : List String → Tagged
    ss : List String → Tagged
    bs : List (List ℕ) → Tagged
    m : TaggedFields → Tagged
    l : TaggedItems → Tagged
    unknown_tag : String → Tagged
    empty : Tagged

  pub data TaggedItems : Type 0 where
    nil : TaggedItems
    cons : Tagged → TaggedItems → TaggedItems

  pub data TaggedFields : Type 0 where
    end : TaggedFields
    field : String → Tagged → TaggedFields → TaggedFields

-- `isinstance(item, NUMERIC_TYPES)`: a bool is an int.
unfoldable pub is_numeric : Value → Bool
is_numeric (num x) = true
is_numeric (bool x) = true
is_numeric _ = false

unfoldable pub is_str : Value → Bool
is_str (str x) = true
is_str _ = false

unfoldable pub is_bytes : Value → Bool
is_bytes (bytes x) = true
is_bytes _ = false

-- `str(item)` of a numeric item. (No other item gets here.)
unfoldable pub number_text : Value → String
number_text (num x) = x.text
number_text (bool true) = "True"
number_text (bool false) = "False"
number_text _ = ""

unfoldable pub count_items : (Value → Bool) → Items → ℕ
count_items p nil = 0
count_items p (cons v vs) = (if p v then 1 else 0) + count_items p vs

unfoldable pub total_items : Items → ℕ
total_items nil = 0
total_items (cons v vs) = 1 + total_items vs

unfoldable pub number_texts : Items → List String
unfolding number_text
number_texts nil = []
number_texts (cons v vs) = number_text v ∷ number_texts vs

str_text : Value → String
str_text (str x) = x
str_text _ = ""

unfoldable pub str_texts : Items → List String
unfolding str_text
str_texts nil = []
str_texts (cons v vs) = str_text v ∷ str_texts vs

bytes_text : Value → List ℕ
unfolding b64encode
bytes_text (bytes x) = b64encode x
bytes_text _ = []

unfoldable pub bytes_texts : Items → List (List ℕ)
unfolding bytes_text
bytes_texts nil = []
bytes_texts (cons v vs) = bytes_text v ∷ bytes_texts vs

-- The branch of `low_level_serialize` for a set: the counts of the `reduce`, and the three tests.
unfoldable pub serialize_set : Items → Result Tagged
serialize_set items =
    let total = total_items items in
    if nat_eq (count_items is_numeric items) total
    then ok (ns (number_texts items))
    else if nat_eq (count_items is_str items) total
    then ok (ss (str_texts items))
    else if nat_eq (count_items is_bytes items) total
    then ok (bs (bytes_texts items))
    else raised type_error

-- `low_level_serialize`, with `serialize` and `serialize_dict`: the pair (tag, value) and the dict
-- {tag: value} are one value here.
unfoldable mutual
  pub low_level_serialize : Value → Result Tagged
  low_level_serialize null = ok null
  low_level_serialize (bool x) = ok (bool x)
  low_level_serialize (num x) = ok (n x.text)
  low_level_serialize (str x) = ok (s x)
  low_level_serialize (bytes x) = ok (b (b64encode x))
  low_level_serialize (set items) = serialize_set items
  low_level_serialize (mapping fields) = serialize_dict fields >>= λ d. ok (m d)
  low_level_serialize (list items) = serialize_list items >>= λ xs. ok (l xs)
  low_level_serialize (other_sequence items) = serialize_list items >>= λ xs. ok (l xs)
  low_level_serialize other = raised type_error

  pub serialize_list : Items → Result TaggedItems
  serialize_list nil = ok nil
  serialize_list (cons v vs) =
      low_level_serialize v >>= λ x. serialize_list vs >>= λ xs. ok (cons x xs)

  pub serialize_dict : Fields → Result TaggedFields
  serialize_dict end = ok end
  serialize_dict (field k v fs) =
      low_level_serialize v >>= λ x. serialize_dict fs >>= λ xs. ok (field k x xs)

-- `except KeyError: raise TypeError(...)`
unfoldable pub key_error_as_type_error : Exception → Exception
key_error_as_type_error key_error = type_error
key_error_as_type_error e = e

abbrev pub guarded {ℓ} : {A : Type ℓ} → Result A → Result A
guarded (ok a) = ok a
guarded (raised e) = raised (key_error_as_type_error e)

unfoldable pub items_of : List Value → Items
items_of [] = nil
items_of (v ∷ vs) = cons v (items_of vs)

unfoldable pub decoded_bytes : List ℕ → Result Value
unfolding b64decode
decoded_bytes text = b64decode text >>= λ x. ok (bytes x)

-- `deserialize` and the functions of its table; `numeric_type` is the caller's. What is listed
-- twice in a set counts once.
module _ (numeric_type : String → Result Value) where
  unfoldable mutual
    pub deserialize : Tagged → Result Value
    deserialize empty = raised type_error
    deserialize (unknown_tag tag) = raised type_error
    deserialize null = ok null
    deserialize (bool x) = ok (bool x)
    deserialize (n x) = guarded (numeric_type x)
    deserialize (s x) = ok (str x)
    deserialize (b x) = guarded (decoded_bytes x)
    deserialize (ns xs) = guarded (map_result numeric_type xs) >>= λ vs. ok (set (items_of vs))
    deserialize (ss xs) = ok (set (items_of (map str xs)))
    deserialize (bs xs) = guarded (map_result decoded_bytes xs) >>= λ vs. ok (set (items_of vs))
    deserialize (l xs) = guarded (deserialize_list xs) >>= λ vs. ok (list vs)
    deserialize (m xs) = guarded (dy2py xs) >>= λ vs. ok (mapping vs)

    pub deserialize_list : TaggedItems → Result Items
    deserialize_list nil = ok nil
    deserialize_list (cons x xs) =
        deserialize x >>= λ v. deserialize_list xs >>= λ vs. ok (cons v vs)

    -- `dy2py`, and `deserialize_map`, which has the same body.
    pub dy2py : TaggedFields → Result Fields
    dy2py end = ok end
    dy2py (field k x xs) = deserialize x >>= λ v. dy2py xs >>= λ vs. ok (field k v vs)

-- `py2dy` of a dict: on None it returns None, which the callers that pass None write out.
unfoldable pub py2dy : Fields → Result TaggedFields
unfolding serialize_dict
py2dy = serialize_dict

-- Truthiness of a dict.
abbrev pub has_fields : TaggedFields → Bool
has_fields end = false
has_fields (field k v fs) = true
