-- ===== src/Tests/Debug.antt =====
-- Debug texts at concrete inputs.
use aiodynamo.Prelude.{◌≡◌, refl, String, false, some, List, arith}
use aiodynamo.Prelude.Replace.{replace}
use aiodynamo.Errors.{Result, ok}
use aiodynamo.Values.{Value, negate, Fields, low_level_serialize, dy2py, deserialize}
use aiodynamo.Expressions.Parameters.{
  Parameters, Text, new_parameters, pure, ◌>>=◌, ◌⊕◌, encode_value, encode_name, word,
}
use aiodynamo.Expressions.Fields.{encode_path, join}
use aiodynamo.Expressions.Conditions.{encode_condition}
use aiodynamo.Expressions.Updates.{
  encode_update, section, join_bits, encode_set, encode_action, encode_modify, encode_remove,
  encode_change,
}
use aiodynamo.Expressions.Meaning.Refines.{value_meaning, ◌⊞◌, says}
use aiodynamo.Expressions.Meaning.Paths.{path_meaning, parts_meaning, meaning_join}
use aiodynamo.Expressions.Meaning.Conditions.{condition_meaning}
use aiodynamo.Expressions.Meaning.Updates.{
  update_meaning, section_meaning, set_meaning, action_meaning, change_meaning,
}
use aiodynamo.Expressions.Meaning.{Meaning}
use aiodynamo.Expressions.Debug.{tagged_fields, reprs, debug_condition, debug_update}
use aiodynamo.Expressions.Debug.Spelling.{spelled_all, IsLegible}
use aiodynamo.Expressions.Debug.Output.{debug_texts-spelled}
use aiodynamo.Tests.Encoding.{in_range, updates}

abbrev repr : Value → String
repr (Value.num n) = n.text
repr (Value.str x) = x
repr _ = "?"

-- A reader of numbers that takes any text.
abbrev read_any : String → Result Value
read_any text = ok (Value.num (record { text = text; is_negative = false; negated_text = "?" }))

condition_built :
    (t : Text) × (p : Parameters) × (encode_condition in_range new_parameters ≡ ok (t, p))
unfolding encode_condition pure ◌>>=◌ ◌⊕◌ encode_value encode_path word encode_name
condition_built = (_, _, refl)

condition_says : (ms : List Meaning) × (condition_meaning in_range ≡ ok ms)
unfolding condition_meaning path_meaning value_meaning says ◌⊞◌ low_level_serialize
condition_says = (_, refl)

update_built :
    (t : Text) × (p : Parameters) × (encode_update updates new_parameters ≡ ok (some t, p))
unfolding encode_update section join_bits encode_set encode_action encode_modify encode_remove
    encode_change join pure ◌>>=◌ ◌⊕◌ encode_value encode_path word encode_name
update_built = (_, _, refl)

update_says : (ms : List Meaning) × (update_meaning updates ≡ ok (some ms))
unfolding update_meaning section_meaning set_meaning action_meaning change_meaning meaning_join
    path_meaning value_meaning says ◌⊞◌ low_level_serialize
update_says = (_, refl)

condition_read :
    (vs : Fields) × (dy2py read_any (tagged_fields condition_built.1.values.entries) ≡ ok vs)
unfolding dy2py deserialize tagged_fields condition_built
condition_read = (_, refl)

update_read : (vs : Fields) × (dy2py read_any (tagged_fields update_built.1.values.entries) ≡ ok vs)
unfolding dy2py deserialize tagged_fields update_built negate
update_read = (_, refl)

in_range-IsLegible : IsLegible repr read_any condition_built.1 condition_read.0 condition_says.0
unfolding condition_built condition_read condition_says reprs parts_meaning
in_range-IsLegible = record {
  few_names = omega arith;
  few_values = omega arith;
  names = ground arith;
  values = ground arith;
  words = ground arith;
}

updates-IsLegible : IsLegible repr read_any update_built.1 update_read.0 update_says.0
unfolding update_built update_read update_says reprs parts_meaning negate
updates-IsLegible = record {
  few_names = omega arith;
  few_values = omega arith;
  names = ground arith;
  values = ground arith;
  words = ground arith;
}

debug_texts-spelled_example :
    (debug_condition repr read_any in_range ≡ ok (spelled_all repr read_any condition_says.0))
    × (debug_update repr read_any updates ≡ ok (some (spelled_all repr read_any update_says.0)))
debug_texts-spelled_example =
    debug_texts-spelled repr read_any in_range condition_built.0 condition_built.1 condition_says.0
      condition_read.0 updates update_built.0 update_built.1 update_says.0 update_read.0
      condition_built.2 condition_says.1 condition_read.1 in_range-IsLegible update_built.2
      update_says.1 update_read.1 updates-IsLegible

-- With eleven values, that of `:v1` is put into `:v10`.
eleventh_value : replace ":v1" "7" "a IN (:v1,:v10)" ≡ "a IN (7,70)"
unfolding replace
eleventh_value = refl
