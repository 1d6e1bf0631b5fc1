-- ===== src/Expressions/Keys.antt =====
-- The key conditions of expressions.py, for one and for several partition key attributes.
use aiodynamo.Prelude.{String, List, [], map}
use aiodynamo.Values.{Value}
use aiodynamo.Expressions.Parameters.{Text, Exec, word, ◌⊕◌, encode_value}
use aiodynamo.Expressions.Fields.{encode_path, join}
use aiodynamo.Expressions.Conditions.{Condition, ◌&◌, encode_condition}

pub record HashKey : Type 0 where
  pub name : String
  pub value : Value

pub record MultiHashKey : Type 0 where
  pub keys : List (String × Value)

-- The subclasses of KeyCondition.
pub data KeyCondition : Type 0 where
  hash_key : HashKey → KeyCondition
  hash_and_range_key : HashKey → Condition → KeyCondition
  multi_hash_key : MultiHashKey → KeyCondition
  multi_hash_and_range_key : MultiHashKey → Condition → KeyCondition

-- `__and__` of each.
unfoldable pub and_range : KeyCondition → Condition → KeyCondition
unfolding ◌&◌
and_range (hash_key k) other = hash_and_range_key k other
and_range (hash_and_range_key k condition) other = hash_and_range_key k (condition & other)
and_range (multi_hash_key k) other = multi_hash_and_range_key k other
and_range (multi_hash_and_range_key k condition) other =
    multi_hash_and_range_key k (condition & other)

unfoldable pub encode_pair : String × Value → Exec Text
encode_pair (name, value) =
    encode_path (record { root = name; parts = [] }) ⊕ word " = " ⊕ encode_value value

unfoldable pub encode_hash : HashKey → Exec Text
encode_hash k = encode_pair (k.name, k.value)

unfoldable pub encode_multi : MultiHashKey → Exec Text
encode_multi k = join " AND " (map encode_pair k.keys)

-- `encode` of each.
unfoldable pub encode_key : KeyCondition → Exec Text
encode_key (hash_key k) = encode_hash k
encode_key (hash_and_range_key k condition) =
    encode_hash k ⊕ word " AND " ⊕ encode_condition condition
encode_key (multi_hash_key k) = encode_multi k
encode_key (multi_hash_and_range_key k condition) =
    encode_multi k ⊕ word " AND " ⊕ encode_condition condition
