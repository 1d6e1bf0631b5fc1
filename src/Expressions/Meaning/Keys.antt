-- ===== src/Expressions/Meaning/Keys.antt =====
-- What a key condition stands for, and `KeyCondition.encode` against it.
use aiodynamo.Prelude.{String, List, [], map}
use aiodynamo.Errors.{Result}
use aiodynamo.Values.{Value}
use aiodynamo.Expressions.Parameters.{Parameters}
use aiodynamo.Expressions.Keys.{
  HashKey, MultiHashKey, KeyCondition, hash_key, hash_and_range_key, multi_hash_key,
  multi_hash_and_range_key, encode_pair, encode_hash, encode_multi, encode_key,
}
use aiodynamo.Expressions.Meaning.{IsWellFormed, Grows-refl, Meaning}
use aiodynamo.Expressions.Meaning.Refines.{
  Outcome, Reads, Encodes, ◌⊞◌, says, value_meaning, Encodes-word, Encodes-append,
}
use aiodynamo.Expressions.Meaning.Paths.{path_meaning, meaning_join, Encodes-join, encode_rules}
use aiodynamo.Expressions.Meaning.Conditions.{condition_meaning, encode_condition-Encodes}

-- A name and the value that it is to equal.
unfoldable pub pair_meaning : String × Value → Result (List Meaning)
pair_meaning (name, value) =
    path_meaning (record { root = name; parts = [] }) ⊞ says " = " ⊞ value_meaning value

unfoldable pub key_meaning : KeyCondition → Result (List Meaning)
unfolding pair_meaning meaning_join condition_meaning
key_meaning (hash_key k) = pair_meaning (k.name, k.value)
key_meaning (hash_and_range_key k c) =
    pair_meaning (k.name, k.value) ⊞ says " AND " ⊞ condition_meaning c
key_meaning (multi_hash_key k) = meaning_join " AND " (map pair_meaning k.keys)
key_meaning (multi_hash_and_range_key k c) =
    meaning_join " AND " (map pair_meaning k.keys) ⊞ says " AND " ⊞ condition_meaning c

Encodes-pair : (p : Parameters) (x : String × Value) → Encodes p (encode_pair x) (pair_meaning x)
unfolding encode_pair pair_meaning
Encodes-pair p (name, value) = search encode_rules depth 9

Encodes-hash :
    (p : Parameters) (k : HashKey) → Encodes p (encode_hash k) (pair_meaning (k.name, k.value))
unfolding encode_hash
Encodes-hash p k = Encodes-pair p (k.name, k.value)

Encodes-multi :
    (p : Parameters) (k : MultiHashKey)
    → Encodes p (encode_multi k) (meaning_join " AND " (map pair_meaning k.keys))
unfolding encode_multi
Encodes-multi p k = Encodes-join p encode_pair pair_meaning (Encodes-pair p) " AND " k.keys

pub encode_key-Encodes :
    (p : Parameters) (k : KeyCondition) → Encodes p (encode_key k) (key_meaning k)
unfolding encode_key key_meaning
encode_key-Encodes p (hash_key k) = Encodes-hash p k
encode_key-Encodes p (multi_hash_key k) = Encodes-multi p k
encode_key-Encodes p (hash_and_range_key k c) =
    Encodes-append p (Encodes-hash p k)
      (Encodes-append p (Encodes-word p " AND ") (encode_condition-Encodes p c))
encode_key-Encodes p (multi_hash_and_range_key k c) =
    Encodes-append p (Encodes-multi p k)
      (Encodes-append p (Encodes-word p " AND ") (encode_condition-Encodes p c))

-- A key condition is encoded with well-formed Parameters: either a value does not serialize, or the
-- condition on the sort keys raises, and it raises that exception; or its text, read through the
-- new Parameters, equates each partition key name with its value and then states the condition on
-- the sort keys, joined by AND. The new Parameters are well-formed and keep every entry.
pub encode_key-Outcome :
    (p : Parameters) (k : KeyCondition)
    → IsWellFormed p
    → Outcome Reads p (encode_key k p) (key_meaning k)
encode_key-Outcome p k w = (encode_key-Encodes p k).at p (Grows-refl p) w
