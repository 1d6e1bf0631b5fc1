-- ===== src/Expressions/Meaning/Paths.antt =====
-- What paths, joined texts and projections stand for, and their `encode` against it.
use aiodynamo.Prelude.{String, ◌+s◌, List, [], ◌∷◌, ◌++◌, map}
use aiodynamo.Prelude.Decimal.{str_int}
use aiodynamo.Errors.{Result, ok}
use aiodynamo.Expressions.Parameters.{Parameters, Text, Exec}
use aiodynamo.Expressions.Fields.{
  Part, key, index, KeyPath, F, encode_part, encode_parts, encode_path, join_rest, join, Projection,
  field, field_list, encode_projection,
}
use aiodynamo.Expressions.Meaning.{IsWellFormed, Grows-refl, Meaning}
use aiodynamo.Expressions.Meaning.Refines.{
  Outcome, Reads, Encodes, ◌⊞◌, says, Encodes-nil, Encodes-word, Encodes-append, Encodes-pure,
  Encodes-name, Encodes-value,
}

-- A dotted path, with indices in brackets.
unfoldable pub part_meaning : Part → List Meaning
part_meaning (index i) = Meaning.word ("[" +s str_int i +s "]") ∷ []
part_meaning (key k) = Meaning.word "." ∷ Meaning.name k ∷ []

unfoldable pub parts_meaning : List Part → List Meaning
unfolding part_meaning
parts_meaning [] = []
parts_meaning (x ∷ xs) = part_meaning x ++ parts_meaning xs

unfoldable pub path_meaning : KeyPath → Result (List Meaning)
path_meaning path = ok (Meaning.name path.root ∷ parts_meaning path.parts)

Encodes-part : (p : Parameters) (x : Part) → Encodes p (encode_part x) (ok (part_meaning x))
unfolding encode_part part_meaning says ◌⊞◌
Encodes-part p (index i) = Encodes-word p _
Encodes-part p (key k) = Encodes-append p (Encodes-word p ".") (Encodes-name p k)

Encodes-parts :
    (p : Parameters) (xs : List Part) → Encodes p (encode_parts xs) (ok (parts_meaning xs))
unfolding encode_parts parts_meaning ◌⊞◌
Encodes-parts p [] = Encodes-nil p
Encodes-parts p (x ∷ xs) = Encodes-append p (Encodes-part p x) (Encodes-parts p xs)

pub Encodes-path :
    (p : Parameters) (path : KeyPath) → Encodes p (encode_path path) (path_meaning path)
unfolding encode_path path_meaning ◌⊞◌
Encodes-path p path = Encodes-append p (Encodes-name p path.root) (Encodes-parts p path.parts)

-- Meanings with a separator between them.
unfoldable pub meaning_rest : String → List (Result (List Meaning)) → Result (List Meaning)
meaning_rest separator [] = ok []
meaning_rest separator (s ∷ ss) = says separator ⊞ s ⊞ meaning_rest separator ss

unfoldable pub meaning_join : String → List (Result (List Meaning)) → Result (List Meaning)
unfolding meaning_rest
meaning_join separator [] = ok []
meaning_join separator (s ∷ ss) = s ⊞ meaning_rest separator ss

module _ {A : Type 0} (p : Parameters) (f : A → Exec Text) (g : A → Result (List Meaning))
    (each : (x : A) → Encodes p (f x) (g x)) where
  Encodes-rest :
      (separator : String) (xs : List A)
      → Encodes p (join_rest separator (map f xs)) (meaning_rest separator (map g xs))
  unfolding join_rest meaning_rest
  Encodes-rest separator [] = Encodes-nil p
  Encodes-rest separator (x ∷ xs) =
      Encodes-append p (Encodes-word p separator)
        (Encodes-append p (each x) (Encodes-rest separator xs))

  pub Encodes-join :
      (separator : String) (xs : List A)
      → Encodes p (join separator (map f xs)) (meaning_join separator (map g xs))
  unfolding join meaning_join
  Encodes-join separator [] = Encodes-nil p
  Encodes-join separator (x ∷ xs) = Encodes-append p (each x) (Encodes-rest separator xs)

unfoldable pub projection_meaning : Projection → Result (List Meaning)
unfolding meaning_join
projection_meaning (field f) = path_meaning f.path
projection_meaning (field_list fs) = meaning_join "," (map (λ (f : F). path_meaning f.path) fs)

pub encode_projection-Encodes :
    (p : Parameters) (x : Projection) → Encodes p (encode_projection x) (projection_meaning x)
unfolding encode_projection projection_meaning
encode_projection-Encodes p (field f) = Encodes-path p f.path
encode_projection-Encodes p (field_list fs) = Encodes-join p _ _ (λ f. Encodes-path p f.path) "," fs

-- A projection expression encoded with well-formed Parameters gives a text that, read through the
-- new Parameters, is the comma-separated list of its paths. The new Parameters are well-formed and
-- keep every entry of the old ones.
pub encode_projection-Outcome :
    (p : Parameters) (x : Projection)
    → IsWellFormed p
    → Outcome Reads p (encode_projection x p) (projection_meaning x)
encode_projection-Outcome p x w = (encode_projection-Encodes p x).at p (Grows-refl p) w

pub ruleset encode_rules = (Encodes-word, Encodes-append, Encodes-name, Encodes-value, Encodes-path)
