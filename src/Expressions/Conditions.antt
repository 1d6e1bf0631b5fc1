-- ===== src/Expressions/Conditions.antt =====
-- The condition expressions of expressions.py, the methods of F, RangeKey and Size that make them,
-- and their encoding.
use aiodynamo.Prelude.{String, Bool, true, false, List, [], ◌∷◌, ltb, str_eq, if◌then◌else◌, length}
use aiodynamo.Errors.{Result, ok, raised, value_error}
use aiodynamo.Values.{Value}
use aiodynamo.Expressions.Parameters.{Text, Exec, pure, ◌>>=◌, raise, word, ◌⊕◌, encode_value}
use aiodynamo.Expressions.Fields.{F, encode_path, join_ready}

-- The right side of a comparison: a field or any other value.
pub data Operand : Type 0 where
  field : F → Operand
  value : Value → Operand

-- A member of the enum AttributeType of types.py.
pub data AttributeType : Type 0 where
  string string_set number number_set binary binary_set boolean null list map : AttributeType

unfoldable pub attribute_type_value : AttributeType → String
attribute_type_value string = "S"
attribute_type_value string_set = "SS"
attribute_type_value number = "N"
attribute_type_value number_set = "NS"
attribute_type_value binary = "B"
attribute_type_value binary_set = "BS"
attribute_type_value boolean = "BOOL"
attribute_type_value null = "NULL"
attribute_type_value list = "L"
attribute_type_value map = "M"

-- One constructor for each subclass of Condition; SubConditions and its tuple `rest`.
mutual
  pub data Condition : Type 0 where
    not_condition : Condition → Condition
    and_condition : SubConditions → Condition
    or_condition : SubConditions → Condition
    does_not_exist : F → Condition
    exists : F → Condition
    attribute_type : F → AttributeType → Condition
    begins_with : F → String → Condition
    between : F → Value → Value → Condition
    contains : F → Value → Condition
    is_in : F → List Value → Condition
    comparison : F → String → Operand → Condition
    size_condition : F → String → Operand → Condition

  pub data SubConditions : Type 0 where
    sub_conditions : Condition → Condition → Conditions → SubConditions

  pub data Conditions : Type 0 where
    nil : Conditions
    cons : Condition → Conditions → Conditions

unfoldable pub append_conditions : Conditions → Conditions → Conditions
append_conditions nil other = other
append_conditions (cons c cs) other = cons c (append_conditions cs other)

-- `SubConditions.__iter__`
unfoldable pub iterate : SubConditions → Conditions
iterate (sub_conditions first second rest) = cons first (cons second rest)

-- The methods of SubConditions.
unfoldable pub create : Condition → Condition → SubConditions
create first second = sub_conditions first second nil

unfoldable pub prepending : SubConditions → Condition → SubConditions
prepending (sub_conditions first second rest) new = sub_conditions new first (cons second rest)

unfoldable pub appending : SubConditions → Condition → SubConditions
unfolding append_conditions
appending (sub_conditions first second rest) new =
    sub_conditions first second (append_conditions rest (cons new nil))

unfoldable pub extending : SubConditions → SubConditions → SubConditions
unfolding append_conditions iterate
extending (sub_conditions first second rest) values =
    sub_conditions first second (append_conditions rest (iterate values))

-- `Condition.__and__`
infixr 36 ◌&◌
unfoldable pub ◌&◌ : Condition → Condition → Condition
unfolding create prepending appending extending
and_condition children & and_condition other = and_condition (extending children other)
and_condition children & other = and_condition (appending children other)
other & and_condition children = and_condition (prepending children other)
this & other = and_condition (create this other)

-- `Condition.__or__`
infixr 31 ◌or◌
unfoldable pub ◌or◌ : Condition → Condition → Condition
unfolding create prepending appending extending
or_condition children or or_condition other = or_condition (extending children other)
or_condition children or other = or_condition (appending children other)
other or or_condition children = or_condition (prepending children other)
this or other = or_condition (create this other)

-- `Condition.__invert__`
unfoldable pub invert : Condition → Condition
invert this = not_condition this

-- `F.begins_with` and `RangeKey.begins_with`
unfoldable pub make_begins_with : F → String → Result Condition
make_begins_with f substr =
    if str_eq substr "" then raised value_error else ok (begins_with f substr)

is_empty_text : Value → Bool
is_empty_text (Value.str x) = str_eq x ""
is_empty_text (Value.bytes []) = true
is_empty_text _ = false

-- `F.contains`
unfoldable pub make_contains : F → Value → Result Condition
unfolding is_empty_text
make_contains f v = if is_empty_text v then raised value_error else ok (contains f v)

-- The field of a RangeKey, for its methods: F(self.name).
unfoldable pub range_field : String → F
range_field name = record { path = record { root = name; parts = [] } }

-- The comparison methods of F and Size, by their operator. Those of a RangeKey compare its field.
pub data Operator : Type 0 where
  gt gte lt lte equals not_equals : Operator

unfoldable pub operator_text : Operator → String
operator_text gt = ">"
operator_text gte = ">="
operator_text lt = "<"
operator_text lte = "<="
operator_text equals = "="
operator_text not_equals = "<>"

unfoldable pub compare_field : Operator → F → Operand → Condition
compare_field operator f other = comparison f (operator_text operator) other

unfoldable pub compare_size : Operator → F → Operand → Condition
compare_size operator f other = size_condition f (operator_text operator) other

unfoldable pub encode_operand : Operand → Exec Text
encode_operand (field f) = encode_path f.path
encode_operand (value v) = encode_value v

-- The values of `In`, one call after the other. (`encode_value` never returns None.)
unfoldable pub encode_values : List Value → Exec (List Text)
encode_values [] = pure []
encode_values (v ∷ vs) = do t ← encode_value v; ts ← encode_values vs; pure (t ∷ ts)

unfoldable pub encode_in : F → List Value → Exec Text
encode_in f values = do
  encoded ← encode_values values
  if ltb (length encoded) 1
      then raise value_error
      else if ltb 100 (length encoded)
      then raise value_error
      else encode_path f.path ⊕ word " IN (" ⊕ join_ready "," encoded ⊕ word ")"

-- The other side is encoded before the field.
unfoldable pub encode_comparison : String → F → String → String → Operand → Exec Text
encode_comparison open_field f close_field operator other = do
  right ← encode_operand other
  word open_field ⊕ encode_path f.path ⊕ word close_field ⊕ word operator ⊕ word " " ⊕ pure right

-- `encode` of every class of Condition.
unfoldable mutual
  pub encode_condition : Condition → Exec Text
  encode_condition (not_condition base) = word "(NOT " ⊕ encode_condition base ⊕ word ")"
  encode_condition (and_condition children) = word "(" ⊕ encode_sub " AND " children ⊕ word ")"
  encode_condition (or_condition children) = word "(" ⊕ encode_sub " OR " children ⊕ word ")"
  encode_condition (does_not_exist f) = word "attribute_not_exists(" ⊕ encode_path f.path ⊕ word ")"
  encode_condition (exists f) = word "attribute_exists(" ⊕ encode_path f.path ⊕ word ")"
  encode_condition (attribute_type f kind) =
      word "attribute_type("
      ⊕ encode_path f.path
      ⊕ word ", "
      ⊕ encode_value (Value.str (attribute_type_value kind))
      ⊕ word ")"
  encode_condition (begins_with f substr) =
      word "begins_with("
      ⊕ encode_path f.path
      ⊕ word ", "
      ⊕ encode_value (Value.str substr)
      ⊕ word ")"
  encode_condition (between f low high) =
      encode_path f.path ⊕ word " BETWEEN " ⊕ encode_value low ⊕ word " AND " ⊕ encode_value high
  encode_condition (contains f v) =
      word "contains(" ⊕ encode_path f.path ⊕ word ", " ⊕ encode_value v ⊕ word ")"
  encode_condition (is_in f values) = encode_in f values
  encode_condition (comparison f operator other) = encode_comparison "" f " " operator other
  encode_condition (size_condition f operator other) =
      encode_comparison "size(" f ") " operator other

  pub encode_sub : String → SubConditions → Exec Text
  encode_sub separator (sub_conditions first second rest) =
      encode_condition first ⊕ word separator ⊕ encode_condition second ⊕ encode_rest separator rest

  pub encode_rest : String → Conditions → Exec Text
  encode_rest separator nil = pure []
  encode_rest separator (cons c cs) = word separator ⊕ encode_condition c ⊕ encode_rest separator cs
