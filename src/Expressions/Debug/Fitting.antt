-- ===== src/Expressions/Debug/Fitting.antt =====
-- The pieces of a text in the two rounds of replacement of `deparametetrize` of utils.py.
use aiodynamo.Prelude.{
  ◌≡◌, refl, sym, ap, ◌∙◌, subst, String, ◌+s◌, true, some, List, [], ◌∷◌, map, All, arith,
  string_Keyed, Option-cases, Bool-cases, inl, inr, str_eq,
}
use aiodynamo.Prelude.Dict.{Dict, lookup, AllKeys, AllKeys-lookup}
use aiodynamo.Prelude.Replace.{lacks}
use aiodynamo.Errors.{Result, ok}
use aiodynamo.Values.{Value, Fields, dy2py}
use aiodynamo.Expressions.Parameters.{Parameters, Text, Piece, lit, name_ref, value_ref}
use aiodynamo.Expressions.Meaning.{
  Meaning, word, name, value, resolve, meaning_of, cons_meaning-eq-some,
}
use aiodynamo.Expressions.Debug.{tagged_fields, reprs}
use aiodynamo.Expressions.Debug.Filling.{Bit, filled, IsTidy, IsFit}
use aiodynamo.Expressions.Debug.Spelling.{
  IsValueKey, IsNameKey, IsBare, HasBareWord, value_bit, name_bit, spelled, spelled_all,
  lookup-reprs,
}

pub IsFit-values :
    (d : Dict String String)
    → AllKeys IsValueKey d
    → All IsBare (map (λ (x : String × String). x.1) d)
    → All (IsFit b':' 2) d
IsFit-values [] keys bare = tt
IsFit-values ((k, v) ∷ d) keys bare = ((keys.0, bare.0.0), IsFit-values d keys.1 bare.1)

pub IsFit-names :
    (d : Dict String String)
    → AllKeys IsNameKey d
    → All (λ (x : String × String). lacks b'#' x.1 ≡ true) d
    → All (IsFit b'#' 2) d
IsFit-names [] keys bare = tt
IsFit-names ((k, v) ∷ d) keys bare = ((keys.0.0, bare.0), IsFit-names d keys.1 bare.1)

lookup-IsBare :
    (d : Dict String String) (k v : String)
    → All IsBare (map (λ (x : String × String). x.1) d)
    → lookup k d ≡ some v
    → IsBare v
unfolding lookup
lookup-IsBare [] k v bare h = cc
lookup-IsBare ((j, u) ∷ d) k v bare h = elim (Bool-cases (str_eq j k)) [
  | inl here ↦ let same : u ≡ v = ground arith in subst IsBare same bare.0
  | inr later ↦ lookup-IsBare d k v bare.1 (ground arith)
]

module _ (repr : Value → String) (numeric_type : String → Result Value) (p : Parameters)
    (vs : Fields) where
  -- The pieces that stand for one meaning, in both rounds of replacement.
  record Fits (x : Piece) (y : Meaning) : Type 0 where
    value_tidy : IsTidy b':' 2 (value_bit x)
    name_tidy : IsTidy b'#' 2 (name_bit (reprs repr numeric_type vs) x)
    reads :
        (bits : List Bit)
        → filled p.names.entries (name_bit (reprs repr numeric_type vs) x ∷ bits)
          ≡ spelled repr numeric_type y +s filled p.names.entries bits

  module _ (read : dy2py numeric_type (tagged_fields p.values.entries) ≡ ok vs)
      (names : AllKeys IsNameKey p.names.entries) (values : AllKeys IsValueKey p.values.entries)
      (bare : All IsBare (map (λ (x : String × String). x.1) (reprs repr numeric_type vs))) where
    piece-Fits : (x : Piece) (y : Meaning) → meaning_of p x ≡ some y → HasBareWord y → Fits x y
    unfolding value_bit name_bit spelled
    piece-Fits (lit x) y h bare_word =
        let same : y ≡ word x = ground arith in
        let clear = subst HasBareWord same bare_word in
        subst (Fits (lit x)) (sym same)
          (record { value_tidy = clear.0; name_tidy = clear.1; reads = λ bits. refl })
    piece-Fits (name_ref x) y h bare_word = elim (Option-cases (lookup x p.names.entries)) [
      | inl e ↦ absurd (ground arith)
      | inr (v, e) ↦
          let same : y ≡ name v = ground arith in
          let key = AllKeys-lookup IsNameKey x v p.names.entries names e in
          subst (Fits (name_ref x)) (sym same)
            (record { value_tidy = key.1; name_tidy = key.0; reads = λ bits. rw e })
    ]
    piece-Fits (value_ref x) y h bare_word = elim (Option-cases (lookup x p.values.entries)) [
      | inl e ↦ absurd (ground arith)
      | inr (v, e) ↦
          let same : y ≡ value v = ground arith in
          let found = lookup-reprs repr numeric_type p.values.entries vs x v read e in
          let clear = lookup-IsBare (reprs repr numeric_type vs) x _ bare found in
          subst (Fits (value_ref x)) (sym same) (record {
            value_tidy = AllKeys-lookup IsValueKey x v p.values.entries values e;
            name_tidy = rw found clear.1;
            reads = λ bits. rw found;
          })
    ]

    pub text_fits :
        (t : Text) (ms : List Meaning)
        → resolve p t ≡ some ms
        → All HasBareWord ms
        → All (IsTidy b':' 2) (map value_bit t)
          × All (IsTidy b'#' 2) (map (name_bit (reprs repr numeric_type vs)) t)
          × (filled p.names.entries (map (name_bit (reprs repr numeric_type vs)) t)
              ≡ spelled_all repr numeric_type ms)
    unfolding resolve spelled_all
    text_fits [] ms h bare_words =
        let same : [] ≡ ms = ground arith in
        (tt, tt, subst (λ (ns : List Meaning). "" ≡ spelled_all repr numeric_type ns) same refl)
    text_fits (x ∷ t) ms h bare_words =
        let (y, ys, first, rest, same) = cons_meaning-eq-some (meaning_of p x) (resolve p t) ms h in
        let clear = subst (All HasBareWord) same bare_words in
        let fits = piece-Fits x y first clear.0 in
        let (v, n, f) = text_fits t ys rest clear.1 in
        (
          (fits.value_tidy, v),
          (fits.name_tidy, n),
          rw same (fits.reads _ ∙ ap (λ (s : String). spelled repr numeric_type y +s s) f),
        )
