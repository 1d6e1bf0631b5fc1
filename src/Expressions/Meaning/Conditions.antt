-- ===== src/Expressions/Meaning/Conditions.antt =====
-- What a condition stands for, and `Condition.encode` against it.
use aiodynamo.Prelude.{String, ◌≡◌, refl, List, [], ◌∷◌, map, length, ltb, if◌then◌else◌, arith}
use aiodynamo.Errors.{Result, ok, raised, value_error, map_result, ◌>>=◌}
use aiodynamo.Values.{Value}
use aiodynamo.Expressions.Parameters.{word, ◌⊕◌, Parameters, Text, pure, encode_value}
use aiodynamo.Expressions.Fields.{encode_path, F, join_rest, join, join_ready}
use aiodynamo.Expressions.Conditions.{
  Condition, SubConditions, Conditions, Operand, field, value, not_condition, and_condition,
  or_condition, does_not_exist, exists, attribute_type, begins_with, between, contains, is_in,
  comparison, size_condition, sub_conditions, nil, cons, attribute_type_value, encode_operand,
  encode_values, encode_in, encode_comparison, encode_condition, encode_sub, encode_rest,
}
use aiodynamo.Expressions.Meaning.{IsWellFormed, Grows-refl, Meaning, resolve-Grows}
use aiodynamo.Expressions.Meaning.Refines.{
  Outcome, Reads, ReadsAll, ReadsAll-Grows, Refines, later, Refines-raise, Refines-pure, Refines-if,
  Refines-bind, Encodes, ◌⊞◌, says, value_meaning, Encodes-nil, Encodes-word, Encodes-append,
  Encodes-pure, Encodes-value,
}
use aiodynamo.Expressions.Meaning.Paths.{
  path_meaning, meaning_rest, meaning_join, Encodes-path, encode_rules,
}

abbrev pub operand_meaning : Operand → Result (List Meaning)
operand_meaning (field f) = path_meaning f.path
operand_meaning (value v) = value_meaning v

-- A list of between one and a hundred values in parentheses.
unfoldable pub in_meaning : F → List Value → Result (List Meaning)
in_meaning f values = do
  xs ← map_result value_meaning values
  if ltb (length values) 1
      then raised value_error
      else if ltb 100 (length values)
      then raised value_error
      else path_meaning f.path ⊞ says " IN (" ⊞ meaning_join "," (map ok xs) ⊞ says ")"

-- If the other side cannot be serialized, that is what is raised.
unfoldable pub comparison_meaning : String → F → String → String → Operand → Result (List Meaning)
comparison_meaning open_field f close_field operator other = do
  right ← operand_meaning other
  says open_field ⊞ path_meaning f.path ⊞ says close_field ⊞ says operator ⊞ says " " ⊞ ok right

-- The condition as DynamoDB writes it, with names and values in place of placeholders.
unfoldable mutual
  pub condition_meaning : Condition → Result (List Meaning)
  condition_meaning (not_condition c) = says "(NOT " ⊞ condition_meaning c ⊞ says ")"
  condition_meaning (and_condition cs) = says "(" ⊞ sub_meaning " AND " cs ⊞ says ")"
  condition_meaning (or_condition cs) = says "(" ⊞ sub_meaning " OR " cs ⊞ says ")"
  condition_meaning (does_not_exist f) =
      says "attribute_not_exists(" ⊞ path_meaning f.path ⊞ says ")"
  condition_meaning (exists f) = says "attribute_exists(" ⊞ path_meaning f.path ⊞ says ")"
  condition_meaning (attribute_type f kind) =
      says "attribute_type("
      ⊞ path_meaning f.path
      ⊞ says ", "
      ⊞ value_meaning (Value.str (attribute_type_value kind))
      ⊞ says ")"
  condition_meaning (begins_with f x) =
      says "begins_with(" ⊞ path_meaning f.path ⊞ says ", " ⊞ value_meaning (Value.str x) ⊞ says ")"
  condition_meaning (between f x y) =
      path_meaning f.path ⊞ says " BETWEEN " ⊞ value_meaning x ⊞ says " AND " ⊞ value_meaning y
  condition_meaning (contains f x) =
      says "contains(" ⊞ path_meaning f.path ⊞ says ", " ⊞ value_meaning x ⊞ says ")"
  condition_meaning (is_in f xs) = in_meaning f xs
  condition_meaning (comparison f operator other) = comparison_meaning "" f " " operator other
  condition_meaning (size_condition f operator other) =
      comparison_meaning "size(" f ") " operator other

  pub sub_meaning : String → SubConditions → Result (List Meaning)
  sub_meaning separator (sub_conditions c d cs) =
      condition_meaning c ⊞ says separator ⊞ condition_meaning d ⊞ rest_meaning separator cs

  pub rest_meaning : String → Conditions → Result (List Meaning)
  rest_meaning separator nil = ok []
  rest_meaning separator (cons c cs) =
      says separator ⊞ condition_meaning c ⊞ rest_meaning separator cs

Encodes-operand : (p : Parameters) (x : Operand) → Encodes p (encode_operand x) (operand_meaning x)
unfolding encode_operand
Encodes-operand p (field f) = Encodes-path p f.path
Encodes-operand p (value v) = Encodes-value p v

Encodes-sides :
    (p : Parameters) (a : String) (f : F) (b c : String) (t : Text) (ms : List Meaning)
    → Encodes p (pure t) (ok ms)
    → Encodes p
        (word a ⊕ encode_path f.path ⊕ word b ⊕ word c ⊕ word " " ⊕ pure t)
        (says a ⊞ path_meaning f.path ⊞ says b ⊞ says c ⊞ says " " ⊞ ok ms)
Encodes-sides p a f b c t ms right = search encode_rules depth 12

Encodes-comparison :
    (p : Parameters) (a : String) (f : F) (b c : String) (x : Operand)
    → Encodes p (encode_comparison a f b c x) (comparison_meaning a f b c x)
unfolding encode_comparison comparison_meaning
Encodes-comparison p a f b c x =
    Refines-bind p (encode_operand x) (operand_meaning x) _ _ (Encodes-operand p x)
      λ q t ms g h. Encodes-sides q a f b c t ms (Encodes-pure q t ms h)

-- as many texts as values
abbrev ReadsValues : List Value → Parameters → List Text → List (List Meaning) → Type 0
ReadsValues vs p ts mss = ReadsAll p ts mss × (length ts ≡ length vs)

Refines-values :
    (p : Parameters) (vs : List Value)
    → Refines (ReadsValues vs) p (encode_values vs) (map_result value_meaning vs)
unfolding encode_values map_result
Refines-values p [] = Refines-pure p [] [] (λ q g. (tt, refl))
Refines-values p (v ∷ vs) =
    Refines-bind p (encode_value v) (value_meaning v) _ _ (Encodes-value p v) λ q t ms g h.
      Refines-bind q (encode_values vs) (map_result value_meaning vs) _ _
        (later g (Refines-values p vs))
        λ r ts mss k hs. Refines-pure r (t ∷ ts) (ms ∷ mss) λ u l. (
          (resolve-Grows l t ms (resolve-Grows k t ms h), ReadsAll-Grows l ts mss hs.0),
          omega (arith, hs.1),
        )

Encodes-ready_rest :
    (p : Parameters) (separator : String) (ts : List Text) (mss : List (List Meaning))
    → ReadsAll p ts mss
    → Encodes p (join_rest separator (map pure ts)) (meaning_rest separator (map ok mss))
unfolding join_rest meaning_rest
Encodes-ready_rest p separator [] [] h = Encodes-nil p
Encodes-ready_rest p separator (t ∷ ts) (ms ∷ mss) h =
    Encodes-append p (Encodes-word p separator)
      (Encodes-append p (Encodes-pure p t ms h.0) (Encodes-ready_rest p separator ts mss h.1))
Encodes-ready_rest p separator [] (ms ∷ mss) h = elim h [ ]
Encodes-ready_rest p separator (t ∷ ts) [] h = elim h [ ]

Encodes-ready :
    (p : Parameters) (separator : String) (ts : List Text) (mss : List (List Meaning))
    → ReadsAll p ts mss
    → Encodes p (join_ready separator ts) (meaning_join separator (map ok mss))
unfolding join_ready join meaning_join
Encodes-ready p separator [] [] h = Encodes-nil p
Encodes-ready p separator (t ∷ ts) (ms ∷ mss) h =
    Encodes-append p (Encodes-pure p t ms h.0) (Encodes-ready_rest p separator ts mss h.1)
Encodes-ready p separator [] (ms ∷ mss) h = elim h [ ]
Encodes-ready p separator (t ∷ ts) [] h = elim h [ ]

Encodes-listed :
    (p : Parameters) (f : F) (ts : List Text) (mss : List (List Meaning))
    → Encodes p (join_ready "," ts) (meaning_join "," (map ok mss))
    → Encodes p
        (encode_path f.path ⊕ word " IN (" ⊕ join_ready "," ts ⊕ word ")")
        (path_meaning f.path ⊞ says " IN (" ⊞ meaning_join "," (map ok mss) ⊞ says ")")
Encodes-listed p f ts mss h = search encode_rules depth 9

Encodes-in :
    (p : Parameters) (f : F) (vs : List Value) → Encodes p (encode_in f vs) (in_meaning f vs)
unfolding encode_in in_meaning
Encodes-in p f vs =
    Refines-bind p (encode_values vs) (map_result value_meaning vs) _ _ (Refines-values p vs)
      λ q ts mss g h. rw h.1 (
        Refines-if _ q (Refines-raise q value_error) (
          Refines-if _ q (Refines-raise q value_error)
            (Encodes-listed q f ts mss (Encodes-ready q "," ts mss h.0))))

mutual
  unfolding encode_condition condition_meaning

  Encodes-condition :
      (p : Parameters) (c : Condition) → Encodes p (encode_condition c) (condition_meaning c)
  Encodes-condition p (not_condition c) =
      Encodes-append p (Encodes-word p "(NOT ")
        (Encodes-append p (Encodes-condition p c) (Encodes-word p ")"))
  Encodes-condition p (and_condition cs) =
      Encodes-append p (Encodes-word p "(")
        (Encodes-append p (Encodes-sub p " AND " cs) (Encodes-word p ")"))
  Encodes-condition p (or_condition cs) =
      Encodes-append p (Encodes-word p "(")
        (Encodes-append p (Encodes-sub p " OR " cs) (Encodes-word p ")"))
  Encodes-condition p (is_in f xs) = Encodes-in p f xs
  Encodes-condition p (comparison f operator other) = Encodes-comparison p "" f " " operator other
  Encodes-condition p (size_condition f operator other) =
      Encodes-comparison p "size(" f ") " operator other
  Encodes-condition p (does_not_exist f) = search encode_rules depth 12
  Encodes-condition p (exists f) = search encode_rules depth 12
  Encodes-condition p (attribute_type f kind) = search encode_rules depth 12
  Encodes-condition p (begins_with f x) = search encode_rules depth 12
  Encodes-condition p (between f x y) = search encode_rules depth 12
  Encodes-condition p (contains f x) = search encode_rules depth 12

  Encodes-sub :
      (p : Parameters) (separator : String) (cs : SubConditions)
      → Encodes p (encode_sub separator cs) (sub_meaning separator cs)
  Encodes-sub p separator (sub_conditions c d cs) = Encodes-append p (Encodes-condition p c) (
      Encodes-append p (Encodes-word p separator)
        (Encodes-append p (Encodes-condition p d) (Encodes-many p separator cs)))

  Encodes-many :
      (p : Parameters) (separator : String) (cs : Conditions)
      → Encodes p (encode_rest separator cs) (rest_meaning separator cs)
  Encodes-many p separator nil = Encodes-nil p
  Encodes-many p separator (cons c cs) =
      Encodes-append p (Encodes-word p separator)
        (Encodes-append p (Encodes-condition p c) (Encodes-many p separator cs))

pub encode_condition-Encodes :
    (p : Parameters) (c : Condition) → Encodes p (encode_condition c) (condition_meaning c)
encode_condition-Encodes p c = Encodes-condition p c

-- A condition is encoded with well-formed Parameters: either it raises the exception of its meaning
-- (a value that does not serialize, or an IN of no value or of more than 100), or its text, read
-- through the new Parameters, is the condition as DynamoDB writes it with the names and values
-- themselves, and the new Parameters are well-formed and keep every entry of the old ones.
pub encode_condition-Outcome :
    (p : Parameters) (c : Condition)
    → IsWellFormed p
    → Outcome Reads p (encode_condition c p) (condition_meaning c)
encode_condition-Outcome p c w = (encode_condition-Encodes p c).at p (Grows-refl p) w
