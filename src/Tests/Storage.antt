-- ===== src/Tests/Storage.antt =====
-- Values, key schemas and credentials at concrete inputs.
use aiodynamo.Prelude.{
  ℕ, zero, suc, ◌≡◌, refl, false, Option, some, none, [], ◌∷◌, inl, inr, arith, String,
  string_Keyed, str_eq, if◌then◌else◌,
}
use aiodynamo.Prelude.Dict.{Dict, lookup}
use aiodynamo.Errors.{Result, ok, raised, value_error}
use aiodynamo.Values.{Number, Value, Items, Tagged, low_level_serialize, deserialize}
use aiodynamo.Values.RoundTrip.{deserialize-serialize}
use aiodynamo.Models.Keys.{
  KeyType, KeySpec, one, many, KeySchema, encode, parse_key_schema, normalize, make_key_schema,
  range_specs,
}
use aiodynamo.Models.Keys.RoundTrip.{Typed, canonical_schema, parse-encode}
use aiodynamo.Credentials.Chain.{Provider, Chain, Chosen, chain_get_key, chain_get_key-Chosen}
use aiodynamo.Http.{Outcome}
use aiodynamo.Credentials.Fetch.{
  Ends, fetch_with_retry_and_timeout, fetch_with_retry_and_timeout-Ends,
}

abbrev pub one_read : Number
one_read = record { text = "1"; is_negative = false; negated_text = "-1" }

-- A reader of numbers that knows one number.
abbrev pub read_number : String → Result Value
read_number text = if str_eq text "1" then ok (Value.num one_read) else raised value_error

-- [1, b"hi", {"x"}]
abbrev pub listed : Value
listed = Value.list (
    Items.cons (Value.num one_read) (
      Items.cons (Value.bytes (104 ∷ 105 ∷ []))
        (Items.cons (Value.set (Items.cons (Value.str "x") Items.nil)) Items.nil)))

deserialize-serialize_example :
    (x : Tagged) × (low_level_serialize listed ≡ ok x) × (deserialize read_number x ≡ ok listed)
deserialize-serialize_example =
    deserialize-serialize read_number listed (refl, (omega arith, (inr (inl tt), tt)))

abbrev pk : KeySpec
pk = record { name = "pk"; key_type = KeyType.string }

abbrev sk : KeySpec
sk = record { name = "sk"; key_type = KeyType.number }

abbrev schema : KeySchema
schema = record { hash_key = many (pk ∷ []); range_key = some (one sk) }

abbrev attributes : Dict String KeyType
attributes = ("pk", KeyType.string) ∷ ("sk", KeyType.number) ∷ []

schema_made : make_key_schema (many (pk ∷ [])) (some (one sk)) ≡ ok schema
unfolding make_key_schema
schema_made = refl

pk-Typed : Typed attributes (normalize (many (pk ∷ [])))
unfolding normalize lookup
pk-Typed = (refl, tt)

sk-Typed : Typed attributes (range_specs (some (one sk)))
unfolding range_specs lookup
sk-Typed = (refl, tt)

parse-encode_example :
    parse_key_schema (encode schema) attributes
    ≡ ok (canonical_schema (many (pk ∷ [])) (some (one sk)))
parse-encode_example =
    parse-encode (many (pk ∷ [])) (some (one sk)) schema attributes schema_made pk-Typed sk-Typed

-- Three providers by number: the first raises, the second has no key, the third has one.
abbrev key_of_number : ℕ → Result (Option String) × ℕ
key_of_number zero = (raised value_error, zero)
key_of_number (suc zero) = (ok none, 1)
key_of_number (suc (suc i)) = (ok (some "key"), suc (suc i))

abbrev providers : Provider String ℕ
providers = record {
  get_key = key_of_number;
  invalidate = λ i. (false, i);
  is_disabled = λ i. false;
}

abbrev chain : Chain ℕ
chain = record { candidates = 0 ∷ 1 ∷ 2 ∷ []; chosen = none }

chain_get_key-Chosen_example : Chosen providers chain.candidates (chain_get_key providers chain)
chain_get_key-Chosen_example = chain_get_key-Chosen providers chain refl

abbrev second_answers : ℕ → Outcome String
second_answers zero = Outcome.timeout
second_answers (suc i) = Outcome.responded 200 "key"

fetch_with_retry_and_timeout-Ends_example :
    Ends second_answers 3 0 (fetch_with_retry_and_timeout second_answers 3)
fetch_with_retry_and_timeout-Ends_example = fetch_with_retry_and_timeout-Ends second_answers 3
