-- ===== src/Expressions/Debug/Spelling.antt =====
-- What the `debug` methods of expressions.py give: the meaning of an expression, spelled out.
use aiodynamo.Prelude.{
  ℕ, zero, suc, ◌≤◌, ◌<◌, ◌≡◌, refl, sym, ap, subst, String, ◌+s◌, true, some, List, [], ◌∷◌, map,
  All, arith, string_Keyed, Bool-cases, inl, inr, str_eq,
}
use aiodynamo.Prelude.Dict.{Dict, lookup, AllKeys, AllKeys-map}
use aiodynamo.Prelude.Decimal.{str}
use aiodynamo.Prelude.Replace.{lacks, is_key}
use aiodynamo.Errors.{Result, ok, raised, >>=-eq-ok}
use aiodynamo.Values.{Value, Fields, Tagged, TaggedFields, end, field, deserialize, dy2py}
use aiodynamo.Expressions.Parameters.{Parameters, Text, Piece, lit, name_ref, value_ref, show}
use aiodynamo.Expressions.Parameters.Placeholders.{placeholder}
use aiodynamo.Expressions.Parameters.Placeholders.Invariant.{IsNumbered}
use aiodynamo.Expressions.Meaning.{Meaning, word, name, value}
use aiodynamo.Expressions.Debug.{tagged_fields, reprs}
use aiodynamo.Expressions.Debug.Filling.{Bit, fixed, hole, shown, or_self, filled}

-- The placeholders of the first ten names and values: two characters after the first.
short_placeholder :
    (i : ℕ)
    → i < 10
    → (is_key b':' 2 (placeholder ":v" i) ≡ true)
      × (is_key b'#' 2 (placeholder "#n" i) ≡ true)
      × (lacks b':' (placeholder "#n" i) ≡ true)
unfolding placeholder str
short_placeholder zero h = (refl, refl, refl)
short_placeholder (suc zero) h = (refl, refl, refl)
short_placeholder (suc (suc zero)) h = (refl, refl, refl)
short_placeholder (suc (suc (suc zero))) h = (refl, refl, refl)
short_placeholder (suc (suc (suc (suc zero)))) h = (refl, refl, refl)
short_placeholder (suc (suc (suc (suc (suc zero))))) h = (refl, refl, refl)
short_placeholder (suc (suc (suc (suc (suc (suc zero)))))) h = (refl, refl, refl)
short_placeholder (suc (suc (suc (suc (suc (suc (suc zero))))))) h = (refl, refl, refl)
short_placeholder (suc (suc (suc (suc (suc (suc (suc (suc zero)))))))) h = (refl, refl, refl)
short_placeholder (suc (suc (suc (suc (suc (suc (suc (suc (suc zero))))))))) h = (refl, refl, refl)
short_placeholder (suc (suc (suc (suc (suc (suc (suc (suc (suc (suc n)))))))))) h =
    absurd (omega arith)

abbrev pub IsValueKey : String → Type 0
IsValueKey k = is_key b':' 2 k ≡ true

abbrev pub IsNameKey : String → Type 0
IsNameKey k = (is_key b'#' 2 k ≡ true) × (lacks b':' k ≡ true)

pub value_keys :
    (n : ℕ) (d : Dict String Tagged) → n ≤ 10 → AllKeys (IsNumbered ":v" n) d → AllKeys IsValueKey d
value_keys n d h all =
    AllKeys-map (IsNumbered ":v" n) IsValueKey
      (λ k numbered.
        subst IsValueKey (sym numbered.2)
          (short_placeholder numbered.0 (omega (arith, numbered.1))).0)
      d all

pub name_keys :
    (n : ℕ) (d : Dict String String) → n ≤ 10 → AllKeys (IsNumbered "#n" n) d → AllKeys IsNameKey d
name_keys n d h all =
    AllKeys-map (IsNumbered "#n" n) IsNameKey
      (λ k numbered.
        let short = short_placeholder numbered.0 (omega (arith, numbered.1)) in
        subst IsNameKey (sym numbered.2) (short.1, short.2))
      d all

-- Neither `#` nor `:` in it.
abbrev pub IsBare : String → Type 0
IsBare s = (lacks b':' s ≡ true) × (lacks b'#' s ≡ true)

abbrev pub HasBareWord : Meaning → Type 0
HasBareWord (word w) = IsBare w
HasBareWord _ = Unit

-- A text with the placeholders of values, and then with those of names.
unfoldable pub value_bit : Piece → Bit
value_bit (lit x) = fixed x
value_bit (name_ref x) = fixed x
value_bit (value_ref x) = hole x

unfoldable pub name_bit : Dict String String → Piece → Bit
unfolding lookup
name_bit values (lit x) = fixed x
name_bit values (name_ref x) = hole x
name_bit values (value_ref x) = fixed (or_self x (lookup x values))

pub shown-value_bit : (t : Text) → shown (map value_bit t) ≡ show t
unfolding show value_bit
shown-value_bit [] = refl
shown-value_bit (lit x ∷ t) = ap (λ (s : String). x +s s) (shown-value_bit t)
shown-value_bit (name_ref x ∷ t) = ap (λ (s : String). x +s s) (shown-value_bit t)
shown-value_bit (value_ref x ∷ t) = ap (λ (s : String). x +s s) (shown-value_bit t)

pub filled-value_bit :
    (d : Dict String String) (t : Text) → filled d (map value_bit t) ≡ shown (map (name_bit d) t)
unfolding value_bit name_bit
filled-value_bit d [] = refl
filled-value_bit d (lit x ∷ t) = ap (λ (s : String). x +s s) (filled-value_bit d t)
filled-value_bit d (name_ref x ∷ t) = ap (λ (s : String). x +s s) (filled-value_bit d t)
filled-value_bit d (value_ref x ∷ t) =
    ap (λ (s : String). or_self x (lookup x d) +s s) (filled-value_bit d t)

module _ (repr : Value → String) (numeric_type : String → Result Value) where
  abbrev pub repr_of : Result Value → String
  repr_of (ok v) = repr v
  repr_of (raised e) = ""

  -- The words, the names and the reprs of the values, one after the other.
  unfoldable pub spelled : Meaning → String
  spelled (word w) = w
  spelled (name x) = x
  spelled (value tagged) = repr_of (deserialize numeric_type tagged)

  unfoldable pub spelled_all : List Meaning → String
  unfolding spelled
  spelled_all [] = ""
  spelled_all (m ∷ ms) = spelled m +s spelled_all ms

  dy2py-field :
      (k : String) (x : Tagged) (xs : TaggedFields) (vs : Fields)
      → dy2py numeric_type (field k x xs) ≡ ok vs
      → (v : Value) × (fs : Fields) × (deserialize numeric_type x ≡ ok v)
        × (dy2py numeric_type xs ≡ ok fs)
        × (vs ≡ field k v fs)
  unfolding dy2py
  dy2py-field k x xs vs h =
      let (v, first, rest) = >>=-eq-ok (deserialize numeric_type x) _ h in
      let (fs, others, same) = >>=-eq-ok (dy2py numeric_type xs) _ rest in
      (v, fs, first, others, ground arith)

  pub lookup-reprs :
      (d : Dict String Tagged) (vs : Fields) (k : String) (tagged : Tagged)
      → dy2py numeric_type (tagged_fields d) ≡ ok vs
      → lookup k d ≡ some tagged
      → lookup k (reprs repr numeric_type vs) ≡ some (repr_of (deserialize numeric_type tagged))
  unfolding lookup reprs tagged_fields
  lookup-reprs [] vs k tagged read found = cc
  lookup-reprs ((j, x) ∷ d) vs k tagged read found =
      let (v, fs, first, rest, same) = dy2py-field j x (tagged_fields d) vs read in
      rw same (elim (Bool-cases (str_eq j k)) [
        | inl here ↦
            let same_value : x ≡ tagged = ground arith in rw (here, ← same_value, first) refl
        | inr later ↦ rw later (lookup-reprs d fs k tagged rest (ground arith))
      ])

  pub reprs-keys :
      (P : String → Type 0) (d : Dict String Tagged) (vs : Fields)
      → dy2py numeric_type (tagged_fields d) ≡ ok vs
      → AllKeys P d
      → AllKeys P (reprs repr numeric_type vs)
  unfolding reprs tagged_fields dy2py
  reprs-keys P [] vs read all =
      let same : end ≡ vs = cc in
      subst (λ (us : Fields). AllKeys P (reprs repr numeric_type us)) same tt
  reprs-keys P ((j, x) ∷ d) vs read all =
      let (v, fs, first, rest, same) = dy2py-field j x (tagged_fields d) vs read in
      subst (λ (us : Fields). AllKeys P (reprs repr numeric_type us)) (sym same)
        (all.0, reprs-keys P d fs rest all.1)

  -- What keeps the replacements apart: at most ten names and ten values, and no `#` or `:` in the
  -- words, in the reprs of the values and, for `#`, in the names.
  pub record IsLegible (p : Parameters) (vs : Fields) (ms : List Meaning) : Type 0 where
    pub few_names : p.names.index_gen ≤ 10
    pub few_values : p.values.index_gen ≤ 10
    pub names : All (λ (x : String × String). lacks b'#' x.1 ≡ true) p.names.entries
    pub values : All IsBare (map (λ (x : String × String). x.1) (reprs repr numeric_type vs))
    pub words : All HasBareWord ms
