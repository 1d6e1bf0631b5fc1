-- ===== src/Expressions/Usage/Encoders.antt =====
-- The placeholders that each `encode` of expressions.py enters.
use aiodynamo.Prelude.{String, ◌⊎◌, inl, inr, List, [], ◌∷◌, map}
use aiodynamo.Errors.{value_error}
use aiodynamo.Values.{Value}
use aiodynamo.Expressions.Parameters.{Piece, Text, Exec, pure}
use aiodynamo.Expressions.Fields.{
  Part, key, index, KeyPath, F, encode_part, encode_parts, encode_path, join_rest, join, join_ready,
  Projection, field, field_list, encode_projection,
}
use aiodynamo.Expressions.Conditions.{
  Condition, SubConditions, Conditions, Operand, not_condition, and_condition, or_condition,
  does_not_exist, exists, attribute_type, begins_with, between, contains, is_in, comparison,
  size_condition, sub_conditions, nil, cons, encode_operand, encode_values, encode_in,
  encode_comparison, encode_condition, encode_sub, encode_rest,
}
use aiodynamo.Expressions.Keys.{
  KeyCondition, hash_key, hash_and_range_key, multi_hash_key, multi_hash_and_range_key, encode_pair,
  encode_hash, encode_multi, encode_key,
}
use aiodynamo.Expressions.Usage.{
  Stands, Nowhere, Used, Used-pure, Used-raise, Used-if, Used-weaken, Used-bind,
}
use aiodynamo.Expressions.Usage.Texts.{
  UsedText, Used-nil, Used-word, Used-after, Used-both, Used-before, Used-name, Used-value,
}

pub either {ℓ κ μ} : {A : Type ℓ} {B : Type κ} {C : Type μ} → A ⊎ B → (A → C) → (B → C) → C
either (inl a) f g = f a
either (inr b) f g = g b

Used-part : (x : Part) → UsedText Nowhere (encode_part x)
unfolding encode_part
Used-part (index i) = Used-word _
Used-part (key k) = Used-after (Used-word ".") (Used-name k)

Used-parts : (xs : List Part) → UsedText Nowhere (encode_parts xs)
unfolding encode_parts
Used-parts [] = Used-nil
Used-parts (x ∷ xs) = Used-after (Used-part x) (Used-parts xs)

pub Used-path : (path : KeyPath) → UsedText Nowhere (encode_path path)
unfolding encode_path
Used-path path = Used-after (Used-name path.root) (Used-parts path.parts)

pub ruleset usage_rules = (Used-word, Used-after, Used-name, Used-value, Used-path)

module _ {A : Type 0} (f : A → Exec Text) (each : (x : A) → UsedText Nowhere (f x)) where
  Used-rest : (separator : String) (xs : List A) → UsedText Nowhere (join_rest separator (map f xs))
  unfolding join_rest
  Used-rest separator [] = Used-nil
  Used-rest separator (x ∷ xs) =
      Used-after (Used-word separator) (Used-after (each x) (Used-rest separator xs))

  pub Used-join : (separator : String) (xs : List A) → UsedText Nowhere (join separator (map f xs))
  unfolding join
  Used-join separator [] = Used-nil
  Used-join separator (x ∷ xs) = Used-after (each x) (Used-rest separator xs)

pub Used-projection : (x : Projection) → UsedText Nowhere (encode_projection x)
unfolding encode_projection
Used-projection (field f) = Used-path f.path
Used-projection (field_list fs) = Used-join _ (λ f. Used-path f.path) "," fs

Used-operand : (x : Operand) → UsedText Nowhere (encode_operand x)
unfolding encode_operand
Used-operand (Operand.field f) = Used-path f.path
Used-operand (Operand.value v) = Used-value v

Used-comparison :
    (a : String) (f : F) (b c : String) (x : Operand)
    → UsedText Nowhere (encode_comparison a f b c x)
unfolding encode_comparison
Used-comparison a f b c x = Used-bind (Used-operand x) λ t.
    Used-weaken (λ y h. h)
      (Used-after (Used-word a) (
        Used-after (Used-path f.path) (
          Used-after (Used-word b) (
            Used-after (Used-word c) (
              Used-after (Used-word " ")
                (Used-pure t (λ y h. either h (λ n. elim n [ ]) (λ s. s))))))))

-- Some of the texts holds it.
abbrev pub StandsIn : List Text → Piece → Type 0
StandsIn [] x = ⊥
StandsIn (t ∷ ts) x = Stands t x ⊎ StandsIn ts x

Used-values : (vs : List Value) → Used StandsIn Nowhere (encode_values vs)
unfolding encode_values
Used-values [] = Used-pure [] (λ x h. elim h [ ])
Used-values (v ∷ vs) = Used-bind (Used-value v) λ t.
    Used-bind (Used-values vs)
      λ ts. Used-pure (t ∷ ts) (λ x h. either h (λ n. either n (λ o. elim o [ ]) inl) inr)

Used-ready_rest :
    (separator : String) (ts : List Text)
    → UsedText (StandsIn ts) (join_rest separator (map pure ts))
unfolding join_rest
Used-ready_rest separator [] = Used-nil
Used-ready_rest separator (t ∷ ts) =
    Used-after (Used-word separator)
      (Used-both (Used-pure t (λ x h. h)) (Used-ready_rest separator ts))

Used-ready :
    (separator : String) (ts : List Text) → UsedText (StandsIn ts) (join_ready separator ts)
unfolding join_ready join
Used-ready separator [] = Used-nil
Used-ready separator (t ∷ ts) = Used-both (Used-pure t (λ x h. h)) (Used-ready_rest separator ts)

Used-in : (f : F) (vs : List Value) → UsedText Nowhere (encode_in f vs)
unfolding encode_in
Used-in f vs = Used-bind (Used-values vs) λ ts. Used-if _ (Used-raise value_error) (
    Used-if _ (Used-raise value_error) (
      Used-weaken (λ x h. either h (λ n. elim n [ ]) (λ s. s))
        (Used-after (Used-path f.path)
          (Used-after (Used-word " IN (") (Used-before (Used-ready "," ts) (Used-word ")"))))))

mutual
  unfolding encode_condition

  Used-condition_of : (c : Condition) → UsedText Nowhere (encode_condition c)
  Used-condition_of (not_condition c) =
      Used-after (Used-word "(NOT ") (Used-after (Used-condition_of c) (Used-word ")"))
  Used-condition_of (and_condition cs) =
      Used-after (Used-word "(") (Used-after (Used-sub " AND " cs) (Used-word ")"))
  Used-condition_of (or_condition cs) =
      Used-after (Used-word "(") (Used-after (Used-sub " OR " cs) (Used-word ")"))
  Used-condition_of (is_in f xs) = Used-in f xs
  Used-condition_of (comparison f operator other) = Used-comparison "" f " " operator other
  Used-condition_of (size_condition f operator other) =
      Used-comparison "size(" f ") " operator other
  Used-condition_of (does_not_exist f) = search usage_rules depth 12
  Used-condition_of (exists f) = search usage_rules depth 12
  Used-condition_of (attribute_type f kind) = search usage_rules depth 12
  Used-condition_of (begins_with f x) = search usage_rules depth 12
  Used-condition_of (between f x y) = search usage_rules depth 12
  Used-condition_of (contains f x) = search usage_rules depth 12

  Used-sub : (separator : String) (cs : SubConditions) → UsedText Nowhere (encode_sub separator cs)
  Used-sub separator (sub_conditions c d cs) =
      Used-after (Used-condition_of c) (
        Used-after (Used-word separator)
          (Used-after (Used-condition_of d) (Used-many separator cs)))

  Used-many : (separator : String) (cs : Conditions) → UsedText Nowhere (encode_rest separator cs)
  Used-many separator nil = Used-nil
  Used-many separator (cons c cs) =
      Used-after (Used-word separator) (Used-after (Used-condition_of c) (Used-many separator cs))

pub Used-condition : (c : Condition) → UsedText Nowhere (encode_condition c)
Used-condition c = Used-condition_of c

Used-pair : (x : String × Value) → UsedText Nowhere (encode_pair x)
unfolding encode_pair
Used-pair (name, value) = search usage_rules depth 9

pub Used-key : (k : KeyCondition) → UsedText Nowhere (encode_key k)
unfolding encode_key encode_hash encode_multi
Used-key (hash_key k) = Used-pair (k.name, k.value)
Used-key (multi_hash_key k) = Used-join encode_pair Used-pair " AND " k.keys
Used-key (hash_and_range_key k c) =
    Used-after (Used-pair (k.name, k.value)) (Used-after (Used-word " AND ") (Used-condition c))
Used-key (multi_hash_and_range_key k c) =
    Used-after (Used-join encode_pair Used-pair " AND " k.keys)
      (Used-after (Used-word " AND ") (Used-condition c))
