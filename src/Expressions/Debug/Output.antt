-- ===== src/Expressions/Debug/Output.antt =====
-- The texts that the `debug` methods of expressions.py return.
use aiodynamo.Prelude.{
  ◌≡◌, refl, sym, ap, ◌∙◌, subst, String, some, List, [], ◌∷◌, map, arith, string_Keyed, Bool-cases,
  inl, inr, str_eq, eq_iff,
}
use aiodynamo.Prelude.Dict.{Dict}
use aiodynamo.Prelude.Replace.{replace-nil}
use aiodynamo.Errors.{Result, ok}
use aiodynamo.Values.{Value, Fields, dy2py}
use aiodynamo.Expressions.Parameters.{Parameters, Text, show, new_parameters}
use aiodynamo.Expressions.Conditions.{Condition, encode_condition}
use aiodynamo.Expressions.Meaning.{Meaning, resolve, IsWellFormed, new_parameters-IsWellFormed}
use aiodynamo.Expressions.Meaning.Refines.{Outcome, done, Reads}
use aiodynamo.Expressions.Meaning.Conditions.{condition_meaning, encode_condition-Outcome}
use aiodynamo.Expressions.Meaning.Updates.{update_meaning, ReadsOption, encode_update-Outcome}
use aiodynamo.Expressions.Updates.{UpdateExpression, encode_update}
use aiodynamo.Expressions.Debug.{
  debug_text, debug_update, tagged_fields, replace_all, reprs, deparametetrize, debug_condition,
}
use aiodynamo.Expressions.Debug.Filling.{replace_all-filled}
use aiodynamo.Expressions.Debug.Spelling.{
  IsValueKey, value_keys, name_keys, value_bit, name_bit, shown-value_bit, filled-value_bit,
  spelled_all, reprs-keys, IsLegible,
}
use aiodynamo.Expressions.Debug.Fitting.{IsFit-values, IsFit-names, text_fits}

Outcome-ok :
    {A B : Type 0} (R : Parameters → A → B → Type 0) {p q : Parameters} {a : A} {b : B}
    → Outcome R p (ok (a, q)) (ok b)
    → IsWellFormed q × R q a b
Outcome-ok R (done w g h) = (w, h)

subst2 :
    {A B : Type 0} (P : A → B → Type 0) {a a' : A} {b b' : B} → a ≡ a' → b ≡ b' → P a b → P a' b'
subst2 P {a} {a'} {b} {b'} e f h = subst (P a') f (subst (λ x. P x b) e h)

module _ (repr : Value → String) (numeric_type : String → Result Value) where
  replace_all-nil : (d : Dict String String) → replace_all d "" ≡ ""
  unfolding replace_all
  replace_all-nil [] = refl
  replace_all-nil ((k, v) ∷ d) = ap (replace_all d) (replace-nil k v) ∙ replace_all-nil d

  deparametetrize-spelled :
      (t : Text) (p : Parameters) (ms : List Meaning) (vs : Fields)
      → IsWellFormed p
      → resolve p t ≡ some ms
      → dy2py numeric_type (tagged_fields p.values.entries) ≡ ok vs
      → IsLegible repr numeric_type p vs ms
      → deparametetrize repr numeric_type (show t) p ≡ ok (spelled_all repr numeric_type ms)
  unfolding deparametetrize
  deparametetrize-spelled t p ms vs w h read legible =
      let names = name_keys p.names.index_gen p.names.entries legible.few_names w.names.numbered in
      let values =
        value_keys p.values.index_gen p.values.entries legible.few_values w.values.numbered in
      let d = reprs repr numeric_type vs in
      let value_entries = reprs-keys repr numeric_type IsValueKey p.values.entries vs read values in
      let (v, n, f) =
        text_fits repr numeric_type p vs read names values legible.values t ms h legible.words in
      let first =
        ap (replace_all d) (sym (shown-value_bit t))
        ∙ replace_all-filled b':' 2 d (map value_bit t)
            (IsFit-values d value_entries legible.values) v
        ∙ filled-value_bit d t in
      rw read (
        ap (λ (s : String). ok (replace_all p.names.entries s)) first
        ∙ ap ok (
            replace_all-filled b'#' 2 p.names.entries (map (name_bit d) t)
              (IsFit-names p.names.entries names legible.names) n
            ∙ f))

  deparametetrize-nil :
      (p : Parameters) (vs : Fields)
      → dy2py numeric_type (tagged_fields p.values.entries) ≡ ok vs
      → deparametetrize repr numeric_type "" p ≡ ok ""
  unfolding deparametetrize
  deparametetrize-nil p vs read = rw read (
      ap (λ (s : String). ok (replace_all p.names.entries s))
        (replace_all-nil (reprs repr numeric_type vs))
      ∙ ap ok (replace_all-nil p.names.entries))

  debug_condition-spelled :
      (c : Condition) (t : Text) (p : Parameters) (ms : List Meaning) (vs : Fields)
      → encode_condition c new_parameters ≡ ok (t, p)
      → condition_meaning c ≡ ok ms
      → dy2py numeric_type (tagged_fields p.values.entries) ≡ ok vs
      → IsLegible repr numeric_type p vs ms
      → debug_condition repr numeric_type c ≡ ok (spelled_all repr numeric_type ms)
  unfolding debug_condition
  debug_condition-spelled c t p ms vs encoded means read legible =
      let (w, reads) = Outcome-ok Reads (
        subst2 (Outcome Reads new_parameters) encoded means
          (encode_condition-Outcome new_parameters c new_parameters-IsWellFormed)) in
      rw encoded (deparametetrize-spelled t p ms vs w reads read legible)

  debug_text-spelled :
      (t : Text) (p : Parameters) (s : String) (vs : Fields)
      → dy2py numeric_type (tagged_fields p.values.entries) ≡ ok vs
      → deparametetrize repr numeric_type (show t) p ≡ ok s
      → debug_text repr numeric_type (some t) p ≡ ok (some s)
  unfolding debug_text
  debug_text-spelled t p s vs read text = elim (Bool-cases (str_eq (show t) "")) [
    | inl empty ↦
        let same = (eq_iff (show t) "").0 empty in
        let blank =
          subst (λ (x : String). deparametetrize repr numeric_type x p ≡ ok s) same text in
        let gives = sym (deparametetrize-nil p vs read) ∙ blank in
        rw empty (ground (arith, same, gives))
    | inr more ↦ rw more (rw text refl)
  ]

  debug_update-spelled :
      (e : UpdateExpression) (t : Text) (p : Parameters) (ms : List Meaning) (vs : Fields)
      → encode_update e new_parameters ≡ ok (some t, p)
      → update_meaning e ≡ ok (some ms)
      → dy2py numeric_type (tagged_fields p.values.entries) ≡ ok vs
      → IsLegible repr numeric_type p vs ms
      → debug_update repr numeric_type e ≡ ok (some (spelled_all repr numeric_type ms))
  unfolding debug_update
  debug_update-spelled e t p ms vs encoded means read legible =
      let (w, reads) = Outcome-ok ReadsOption (
        subst2 (Outcome ReadsOption new_parameters) encoded means
          (encode_update-Outcome new_parameters e new_parameters-IsWellFormed)) in
      rw encoded (
        debug_text-spelled t p (spelled_all repr numeric_type ms) vs read
          (deparametetrize-spelled t p ms vs w reads read legible))

  -- The debug text of a condition that encodes to a text `t`, and of an update expression that
  -- encodes to a text `u`, is its meaning with the names and the reprs of the values in place of
  -- the placeholders. This is stated where the values can be read back, there are at most ten names
  -- and ten values, no name holds a `#`, and no word and no repr holds a `#` or a `:`.
  pub debug_texts-spelled :
      (c : Condition) (t : Text) (p : Parameters) (ms : List Meaning) (vs : Fields)
      (e : UpdateExpression) (u : Text) (q : Parameters) (ns : List Meaning) (ws : Fields)
      → encode_condition c new_parameters ≡ ok (t, p)
      → condition_meaning c ≡ ok ms
      → dy2py numeric_type (tagged_fields p.values.entries) ≡ ok vs
      → IsLegible repr numeric_type p vs ms
      → encode_update e new_parameters ≡ ok (some u, q)
      → update_meaning e ≡ ok (some ns)
      → dy2py numeric_type (tagged_fields q.values.entries) ≡ ok ws
      → IsLegible repr numeric_type q ws ns
      → (debug_condition repr numeric_type c ≡ ok (spelled_all repr numeric_type ms))
        × (debug_update repr numeric_type e ≡ ok (some (spelled_all repr numeric_type ns)))
  debug_texts-spelled c t p ms vs e u q ns ws h₁ h₂ h₃ h₄ k₁ k₂ k₃ k₄ = (
    debug_condition-spelled c t p ms vs h₁ h₂ h₃ h₄,
    debug_update-spelled e u q ns ws k₁ k₂ k₃ k₄,
  )
