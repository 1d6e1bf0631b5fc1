-- ===== src/Expressions/Meaning.antt =====
-- What an expression stands for: its text with each placeholder read through the Parameters, and
-- the same written down with no placeholders at all.
pub mod Refines
pub mod Paths
pub mod Conditions
pub mod Updates
pub mod Keys
use aiodynamo.Prelude.{
  String, ◌≡◌, refl, ◌+s◌, Option, none, some, Option-cases, inl, inr, List, [], ◌∷◌, ◌++◌, arith,
  string_Keyed,
}
use aiodynamo.Prelude.Dict.{lookup}
use aiodynamo.Values.{Tagged}
use aiodynamo.Expressions.Parameters.{
  Parameters, CacheKey, cache_key_Keyed, cache_key, new_parameters, Piece, lit, name_ref, value_ref,
  Text,
}
use aiodynamo.Expressions.Parameters.Placeholders.Invariant.{
  IsConsistent, Extends, Extends-refl, Extends-trans, empty-IsConsistent,
}

pub data Meaning : Type 0 where
  word : String → Meaning
  name : String → Meaning
  value : Tagged → Meaning

abbrev pub cons_meaning : Option Meaning → Option (List Meaning) → Option (List Meaning)
cons_meaning (some x) (some xs) = some (x ∷ xs)
cons_meaning none xs = none
cons_meaning (some x) none = none

abbrev pub as_name : Option String → Option Meaning
as_name (some x) = some (name x)
as_name none = none

abbrev pub as_value : Option Tagged → Option Meaning
as_value (some x) = some (value x)
as_value none = none

abbrev pub meaning_of : Parameters → Piece → Option Meaning
meaning_of p (lit x) = some (word x)
meaning_of p (name_ref x) = as_name (lookup x p.names.entries)
meaning_of p (value_ref x) = as_value (lookup x p.values.entries)

-- A text read with the names and values of a request; `none` if a placeholder stands for nothing.
unfoldable pub resolve : Parameters → Text → Option (List Meaning)
resolve p [] = some []
resolve p (x ∷ t) = cons_meaning (meaning_of p x) (resolve p t)

pub record IsWellFormed (p : Parameters) : Type 0 where
  pub names : IsConsistent "#n" some p.names
  pub values : IsConsistent ":v" cache_key p.values

-- No entry of `p` is lost or changed in `q`.
pub record Grows (p q : Parameters) : Type 0 where
  pub names : Extends p.names q.names
  pub values : Extends p.values q.values

pub Grows-refl : (p : Parameters) → Grows p p
Grows-refl p = record { names = Extends-refl p.names; values = Extends-refl p.values }

pub Grows-trans : {p q r : Parameters} → Grows p q → Grows q r → Grows p r
Grows-trans a b = record {
  names = Extends-trans a.names b.names;
  values = Extends-trans a.values b.values;
}

key_of : CacheKey → Tagged
key_of CacheKey.null = Tagged.null
key_of (CacheKey.bool x) = Tagged.bool x
key_of (CacheKey.n x) = Tagged.n x
key_of (CacheKey.s x) = Tagged.s x
key_of (CacheKey.b x) = Tagged.b x

key_of-cache_key : (k : CacheKey) (v : Tagged) → cache_key v ≡ some k → key_of k ≡ v
unfolding key_of cache_key
key_of-cache_key k Tagged.null h = ground arith
key_of-cache_key k _ h = ground arith

pub cache_key_injective :
    (k : CacheKey) (v w : Tagged) → cache_key v ≡ some k → cache_key w ≡ some k → v ≡ w
cache_key_injective k v w hv hw = cc (key_of-cache_key k v hv, key_of-cache_key k w hw)

pub some_injective : (k v w : String) → some v ≡ some k → some w ≡ some k → v ≡ w
some_injective k v w hv hw = cc

pub new_parameters-IsWellFormed : IsWellFormed new_parameters
new_parameters-IsWellFormed = record {
  names = empty-IsConsistent "#n" some some_injective;
  values = empty-IsConsistent ":v" cache_key cache_key_injective;
}

pub cons_meaning-eq-some :
    (a : Option Meaning) (b : Option (List Meaning)) (ms : List Meaning)
    → cons_meaning a b ≡ some ms
    → (x : Meaning) × (xs : List Meaning) × (a ≡ some x) × (b ≡ some xs) × (ms ≡ x ∷ xs)
cons_meaning-eq-some (some x) (some xs) ms h = (x, xs, refl, refl, ground arith)
cons_meaning-eq-some (some x) none ms h = cc
cons_meaning-eq-some none b ms h = cc

meaning_of-Grows :
    {p q : Parameters}
    → Grows p q
    → (x : Piece) (y : Meaning) → meaning_of p x ≡ some y
    → meaning_of q x ≡ some y
meaning_of-Grows g (lit x) y h = h
meaning_of-Grows {p} {q} g (name_ref x) y h = elim (Option-cases (lookup x p.names.entries)) [
  | inl e ↦ ground arith
  | inr (v, e) ↦ ground (arith, g.names.keeps x v)
]
meaning_of-Grows {p} {q} g (value_ref x) y h = elim (Option-cases (lookup x p.values.entries)) [
  | inl e ↦ ground arith
  | inr (v, e) ↦ ground (arith, g.values.keeps x v)
]

-- What has been resolved stays resolved.
pub resolve-Grows :
    {p q : Parameters}
    → Grows p q
    → (t : Text) (ms : List Meaning) → resolve p t ≡ some ms
    → resolve q t ≡ some ms
unfolding resolve
resolve-Grows g [] ms h = h
resolve-Grows {p} {q} g (x ∷ t) ms h =
    let (y, ys, first, rest, e) = cons_meaning-eq-some (meaning_of p x) (resolve p t) ms h in
    rw (meaning_of-Grows g x y first, resolve-Grows g t ys rest, e)

pub resolve-append :
    (p : Parameters) (t u : Text) (ms ns : List Meaning)
    → resolve p t ≡ some ms
    → resolve p u ≡ some ns
    → resolve p (t ++ u) ≡ some (ms ++ ns)
unfolding resolve
resolve-append p [] u ms ns ht hu = ground arith
resolve-append p (x ∷ t) u ms ns ht hu =
    let (y, ys, first, rest, e) = cons_meaning-eq-some (meaning_of p x) (resolve p t) ms ht in
    rw (first, resolve-append p t u ys ns rest hu, e)
