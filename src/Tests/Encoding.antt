-- ===== src/Tests/Encoding.antt =====
-- The expressions at concrete inputs.
use aiodynamo.Prelude.{Bool, true, false, ◌&&◌, ◌||◌, ◌≡◌, String, [], ◌∷◌, string_Keyed}
use aiodynamo.Values.{Value, Tagged, Number}
use aiodynamo.Expressions.Parameters.{cache_key, cache_key_Keyed, new_parameters}
use aiodynamo.Expressions.Parameters.Placeholders.{Slots, empty}
use aiodynamo.Expressions.Parameters.Placeholders.Invariant.{Stands, encode-Stands}
use aiodynamo.Expressions.Parameters.Placeholders
use aiodynamo.Expressions.Fields.{F, Projection, encode_projection}
use aiodynamo.Expressions.Conditions.{Condition, Operand, encode_condition, ◌&◌, ◌or◌}
use aiodynamo.Expressions.Updates.{UpdateExpression, SetAction, encode_update}
use aiodynamo.Expressions.Keys.{HashKey, KeyCondition, encode_key}
use aiodynamo.Expressions.Meaning.{new_parameters-IsWellFormed, cache_key_injective}
use aiodynamo.Expressions.Meaning.Refines.{Outcome, Reads}
use aiodynamo.Expressions.Meaning.Paths.{projection_meaning, encode_projection-Outcome}
use aiodynamo.Expressions.Meaning.Conditions.{condition_meaning, encode_condition-Outcome}
use aiodynamo.Expressions.Meaning.Updates.{update_meaning, ReadsOption, encode_update-Outcome}
use aiodynamo.Expressions.Meaning.Keys.{key_meaning, encode_key-Outcome}
use aiodynamo.Prelude.{not}
use aiodynamo.Expressions.Conditions.{invert}
use aiodynamo.Expressions.Algebra.{eval, eval_lem, operators_assoc}

abbrev pub field_named : String → F
field_named name = record { path = record { root = name; parts = [] } }

abbrev pub one : Number
one = record { text = "1"; is_negative = false; negated_text = "-1" }

abbrev pub minus_two : Number
minus_two = record { text = "-2"; is_negative = true; negated_text = "2" }

-- F("a") == 1, F("a").between(1, -2), F("b").does_not_exist()
abbrev is_one : Condition
is_one = Condition.comparison (field_named "a") "=" (Operand.value (Value.num one))

abbrev pub in_range : Condition
in_range = Condition.between (field_named "a") (Value.num one) (Value.num minus_two)

abbrev pub absent : Condition
absent = Condition.does_not_exist (field_named "b")

abbrev both : Condition
both = Condition.not_condition (in_range & absent)

abbrev pub updates : UpdateExpression
updates = record {
  set_updates = (field_named "a", SetAction.modify minus_two) ∷ [];
  remove = field_named "b" ∷ [];
  add = [];
  delete = (field_named "c", Value.num one) ∷ [];
}

abbrev pub partition : HashKey
partition = record { name = "pk"; value = Value.str "x" }

abbrev pub paths : Projection
paths = Projection.field_list (field_named "a" ∷ field_named "b" ∷ [])

encode_condition-Outcome_example :
    Outcome Reads new_parameters (encode_condition both new_parameters) (condition_meaning both)
encode_condition-Outcome_example =
    encode_condition-Outcome new_parameters both new_parameters-IsWellFormed

encode_update-Outcome_example :
    Outcome ReadsOption new_parameters
      (encode_update updates new_parameters)
      (update_meaning updates)
encode_update-Outcome_example =
    encode_update-Outcome new_parameters updates new_parameters-IsWellFormed

encode_key-Outcome_example :
    Outcome Reads new_parameters
      (encode_key (KeyCondition.hash_and_range_key partition in_range) new_parameters)
      (key_meaning (KeyCondition.hash_and_range_key partition in_range))
encode_key-Outcome_example =
    encode_key-Outcome new_parameters (KeyCondition.hash_and_range_key partition in_range)
      new_parameters-IsWellFormed

encode_projection-Outcome_example :
    Outcome Reads new_parameters (encode_projection paths new_parameters) (projection_meaning paths)
encode_projection-Outcome_example =
    encode_projection-Outcome new_parameters paths new_parameters-IsWellFormed

encode-Stands_example :
    Stands ":v" cache_key cache_key_injective
      (Tagged.n "1")
      empty
      (Placeholders.encode ":v" (Tagged.n "1") (cache_key (Tagged.n "1")) empty)
encode-Stands_example =
    encode-Stands ":v" cache_key cache_key_injective (Tagged.n "1") empty
      new_parameters-IsWellFormed.values

-- An item of which only the plain conditions on "a" hold.
abbrev holds : Condition → Bool
holds (Condition.comparison f operator other) = true
holds (Condition.between f low high) = true
holds _ = false

eval_lem_example :
    (eval holds (is_one & absent) ≡ (eval holds is_one && eval holds absent))
    × (eval holds (is_one or absent) ≡ (eval holds is_one || eval holds absent))
    × (eval holds (invert is_one) ≡ not (eval holds is_one))
eval_lem_example = eval_lem holds is_one absent

operators_assoc_example :
    (((is_one & in_range) & absent) ≡ (is_one & (in_range & absent)))
    × (((is_one or in_range) or absent) ≡ (is_one or (in_range or absent)))
operators_assoc_example = operators_assoc is_one in_range absent
