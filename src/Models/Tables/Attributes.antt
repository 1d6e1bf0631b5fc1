-- ===== src/Models/Tables/Attributes.antt =====
-- The attribute definitions, the throughput and the status of a table as `from_response` of models.py
-- parses them.
use aiodynamo.Prelude.{
  subst, Bool-cases, inl, inr, eq_iff, ℕ, ◌≡◌, refl, String, Option, none, some, List, [], ◌∷◌,
  arith, string_Keyed, ◌==◌, ◌⊎◌,
}
use aiodynamo.Prelude.Dict.{Dict, lookup, insert, lookup-insert}
use aiodynamo.Errors.{ok, ◌>>=◌}
use aiodynamo.Models.Keys.{KeyType, EncodedKeySchema, key_type_value, parse_key_schema}
use aiodynamo.Models.Keys.Attributes.{IsSound, Gives}
use aiodynamo.Models.Tables.{key_type, parse_attributes, parse_schema, parse_throughput}
use aiodynamo.Models.Indexes.{
  ThroughputType, provisioned, pay_per_request, EncodedThroughput, provisioned_throughput,
  billing_mode, encode_throughput,
}

key_type-value : (t : KeyType) → key_type (key_type_value t) ≡ ok t
unfolding key_type key_type_value
key_type-value KeyType.string = refl
key_type-value KeyType.number = refl
key_type-value KeyType.binary = refl

module _ (types : String → KeyType) where
  -- The dict gives the name its type.
  abbrev pub Types : Dict String KeyType → String → Type 0
  Types attributes n = lookup n attributes ≡ some (types n)

  insert-Types :
      (n m : String) (a : Dict String KeyType) → Types a m → Types (insert n (types n) a) m
  insert-Types n m a h = ground (arith, lookup-insert n m (types n) a, eq_iff n m)

  insert-Types_new : (n : String) (a : Dict String KeyType) → Types (insert n (types n) a) n
  insert-Types_new n a = ground (arith, lookup-insert n n (types n) a, eq_iff n n)

  pub parse_attributes-Types :
      (d : List (String × String)) (a : Dict String KeyType)
      → IsSound types d
      → (b : Dict String KeyType) × (parse_attributes d a ≡ ok b)
        × ((m : String) → Types a m → Types b m)
        × ((m : String) → Gives types d m → Types b m)
  unfolding parse_attributes lookup
  parse_attributes-Types [] a h = (a, refl, (λ m g. g), (λ m g. absurd cc))
  parse_attributes-Types ((n, v) ∷ d) a h =
      let (b, run, kept, given) = parse_attributes-Types d (insert n (types n) a) h.1 in
      (
        b,
        rw (h.0, key_type-value (types n)) run,
        (λ m g. kept m (insert-Types n m a g)),
        (λ m g. elim (Bool-cases (n == m)) [
          | inl here ↦
              let named : n ≡ m = ground (arith, eq_iff n m) in
              subst (λ (x : String). Types b x) named (kept n (insert-Types_new n a))
          | inr there ↦ given m (ground arith)
        ]),
      )

-- Attributes that give some name a type are not empty.
pub parse_schema-lookup :
    (n : String) (k : KeyType) (a : Dict String KeyType) (keys : List EncodedKeySchema)
    → lookup n a ≡ some k
    → parse_schema (some a) (some keys) ≡ (parse_key_schema keys a >>= λ schema. ok (some schema))
unfolding lookup
parse_schema-lookup n k [] keys h = absurd cc
parse_schema-lookup n k (p ∷ a) keys h = refl

-- What "DescribeTable" reports for a throughput that "CreateTable" was given: for a provisioned one its
-- units, and no other billing mode; for an on-demand one the billing mode.
abbrev pub Reports :
    EncodedThroughput → Option (Option String) → Option (Option ℕ × Option ℕ) → Type 0
Reports (provisioned_throughput r w) mode capacity =
    ((mode ≡ none) ⊎ (mode ≡ some (some "PROVISIONED"))) × (capacity ≡ some (some r, some w))
Reports (billing_mode text) mode capacity = mode ≡ some (some text)

pub parse-encode_throughput :
    (t : ThroughputType) (mode : Option (Option String)) (capacity : Option (Option ℕ × Option ℕ))
    → Reports (encode_throughput t) mode capacity
    → parse_throughput mode capacity ≡ ok (some t)
unfolding parse_throughput encode_throughput
parse-encode_throughput (provisioned t) mode capacity (inl same, reads) = rw (same, reads) refl
parse-encode_throughput (provisioned t) mode capacity (inr same, reads) = rw (same, reads) refl
parse-encode_throughput pay_per_request mode capacity same = rw same refl
