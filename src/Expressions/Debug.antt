-- ===== src/Expressions/Debug.antt =====
-- `deparametetrize` of utils.py, and the `debug` methods of Condition and UpdateExpression of
-- expressions.py. `repr` of a value and the caller's `numeric_type` are given.
pub mod Filling
pub mod Spelling
pub mod Fitting
pub mod Output
use aiodynamo.Prelude.{String, Option, none, some, List, [], ◌∷◌, str_eq, if◌then◌else◌}
use aiodynamo.Prelude.Dict.{Dict}
use aiodynamo.Prelude.Replace.{replace}
use aiodynamo.Errors.{Result, ok, ◌>>=◌}
use aiodynamo.Values.{Value, Fields, Tagged, TaggedFields, end, field, dy2py}
use aiodynamo.Expressions.Parameters.{Parameters, Text, new_parameters, show}
use aiodynamo.Expressions.Conditions.{Condition, encode_condition}
use aiodynamo.Expressions.Updates.{UpdateExpression, encode_update}

-- `params.values`, as `dy2py` takes it.
unfoldable pub tagged_fields : Dict String Tagged → TaggedFields
tagged_fields [] = TaggedFields.end
tagged_fields ((k, v) ∷ d) = TaggedFields.field k v (tagged_fields d)

-- `for key, new in …: expression = expression.replace(key, new)`
unfoldable pub replace_all : Dict String String → String → String
replace_all [] expression = expression
replace_all ((key, new) ∷ d) expression = replace_all d (replace key new expression)

module _ (repr : Value → String) (numeric_type : String → Result Value) where
  unfoldable pub reprs : Fields → Dict String String
  reprs end = []
  reprs (field k v fs) = (k, repr v) ∷ reprs fs

  unfoldable pub deparametetrize : String → Parameters → Result String
  unfolding tagged_fields replace_all reprs
  deparametetrize expression params = do
    values ← dy2py numeric_type (tagged_fields params.values.entries)
    ok (replace_all params.names.entries (replace_all (reprs values) expression))

  -- `Condition.debug`
  unfoldable pub debug_condition : Condition → Result String
  unfolding deparametetrize
  debug_condition c = do
    (expression, params) ← encode_condition c new_parameters
    deparametetrize (show expression) params

  abbrev pub debug_text : Option Text → Parameters → Result (Option String)
  unfolding deparametetrize show
  debug_text none params = ok none
  debug_text (some t) params =
      if str_eq (show t) ""
      then ok (some (show t))
      else (deparametetrize (show t) params >>= λ s. ok (some s))

  -- `UpdateExpression.debug`
  unfoldable pub debug_update : UpdateExpression → Result (Option String)
  debug_update e = do
    (expression, params) ← encode_update e new_parameters
    debug_text expression params
