-- ===== src/Expressions/Parameters.antt =====
-- The class Parameters of expressions.py: placeholders for names and values, and their cache.
pub mod Placeholders
use aiodynamo.Prelude.{
  ℕ, zero, suc, ◌+◌, ◌≡◌, ◌↔◌, refl, String, ◌+s◌, Bool, true, false, ◌&&◌, Option, none, some,
  List, [], ◌∷◌, ◌++◌, arith, nat_eq, nat_eq_iff, str_eq, eq_iff, Keyed, string_Keyed, ◌==◌,
  if◌then◌else◌, non_empty,
}
use aiodynamo.Prelude.Dict.{Dict}
use aiodynamo.Errors.{Exception, Result, ok, raised}
use aiodynamo.Values.{Value, Tagged, low_level_serialize}
use Placeholders
use Placeholders.{Slots, encode}

-- A key of `values_cache`: a pair (tag, value) that can be hashed.
pub data CacheKey : Type 0 where
  null : CacheKey
  bool : Bool → CacheKey
  n : String → CacheKey
  s : String → CacheKey
  b : List ℕ → CacheKey

-- `none` where hashing the pair raises TypeError: its value is a list or a dict.
unfoldable pub cache_key : Tagged → Option CacheKey
cache_key Tagged.null = some null
cache_key (Tagged.bool x) = some (bool x)
cache_key (Tagged.n x) = some (n x)
cache_key (Tagged.s x) = some (s x)
cache_key (Tagged.b x) = some (b x)
cache_key _ = none

abbrev list_eq : List ℕ → List ℕ → Bool
list_eq [] [] = true
list_eq (x ∷ xs) (y ∷ ys) = nat_eq x y && list_eq xs ys
list_eq _ _ = false

list_eq_iff : (xs ys : List ℕ) → (list_eq xs ys ≡ true) ↔ (xs ≡ ys)
list_eq_iff [] [] = (λ _. refl, λ _. refl)
list_eq_iff (x ∷ xs) (y ∷ ys) = ground (arith, list_eq_iff xs ys)
list_eq_iff [] (y ∷ ys) = ground arith
list_eq_iff (x ∷ xs) [] = ground arith

abbrev bool_eq : Bool → Bool → Bool
bool_eq true true = true
bool_eq false false = true
bool_eq _ _ = false

abbrev key_eq : CacheKey → CacheKey → Bool
key_eq null null = true
key_eq (bool x) (bool y) = bool_eq x y
key_eq (n x) (n y) = str_eq x y
key_eq (s x) (s y) = str_eq x y
key_eq (b x) (b y) = list_eq x y
key_eq _ _ = false

pub key_eq_iff : (j k : CacheKey) → (key_eq j k ≡ true) ↔ (j ≡ k)
key_eq_iff null null = (λ _. refl, λ _. refl)
key_eq_iff (bool x) (bool y) = ground arith
key_eq_iff (n x) (n y) = ground (arith, eq_iff x y)
key_eq_iff (s x) (s y) = ground (arith, eq_iff x y)
key_eq_iff (b x) (b y) = ground (arith, list_eq_iff x y)
key_eq_iff _ _ = ground arith

instance abbrev pub cache_key_Keyed : Keyed CacheKey
cache_key_Keyed = record { same = key_eq; same_iff = key_eq_iff }

-- `names`, `names_gen` and `names_cache` are the slots of the names, and so for the values.
pub record Parameters : Type 0 where
  pub names : Slots String String
  pub values : Slots CacheKey Tagged

-- `Parameters()`
abbrev pub new_parameters : Parameters
new_parameters = record { names = Placeholders.empty; values = Placeholders.empty }

-- The text of an expression, in the pieces that the f-strings put together: literal text, and
-- the placeholders of names and of values.
pub data Piece : Type 0 where
  lit : String → Piece
  name_ref : String → Piece
  value_ref : String → Piece

abbrev pub Text : Type 0
Text = List Piece

-- The Python string.
unfoldable pub show : Text → String
show [] = ""
show (lit x ∷ t) = x +s show t
show (name_ref x ∷ t) = x +s show t
show (value_ref x ∷ t) = x +s show t

-- A call that is handed `params`, which it changes, and may raise.
abbrev pub Exec {ℓ} : Type ℓ → Type ℓ
Exec A = Parameters → Result (A × Parameters)

unfoldable pub pure {ℓ} : {A : Type ℓ} → A → Exec A
pure a p = ok (a, p)

abbrev pub then_run {ℓ κ} :
    {A : Type ℓ} {B : Type κ} → Result (A × Parameters) → (A → Exec B) → Result (B × Parameters)
then_run (ok (a, p)) f = f a p
then_run (raised e) f = raised e

infixl 5 ◌>>=◌
unfoldable pub ◌>>=◌ {ℓ κ} : {A : Type ℓ} {B : Type κ} → Exec A → (A → Exec B) → Exec B
◌>>=◌ m f p = then_run (m p) f

unfoldable pub raise {ℓ} : {A : Type ℓ} → Exception → Exec A
raise e p = raised e

-- Literal text in an f-string, and two parts of an f-string one after the other.
unfoldable pub word : String → Exec Text
unfolding pure
word x = pure (lit x ∷ [])

infixr 20 ◌⊕◌
unfoldable pub ◌⊕◌ : Exec Text → Exec Text → Exec Text
unfolding ◌>>=◌ pure
m ⊕ k = do x ← m; y ← k; pure (x ++ y)

unfoldable pub encode_name : String → Exec Text
unfolding encode
encode_name name p =
    let (placeholder, slots) = encode "#n" name (some name) p.names in
    ok (name_ref placeholder ∷ [], record p { names = slots })

-- The part of `encode_value` after the call of `low_level_serialize`.
unfoldable pub encode_tagged : Tagged → Exec Text
unfolding encode cache_key
encode_tagged tagged p =
    let (placeholder, slots) = encode ":v" tagged (cache_key tagged) p.values in
    ok (value_ref placeholder ∷ [], record p { values = slots })

abbrev pub serialized : Result Tagged → Exec Text
serialized (ok tagged) = encode_tagged tagged
serialized (raised e) = raise e

unfoldable pub encode_value : Value → Exec Text
unfolding encode_tagged low_level_serialize raise
encode_value value = serialized (low_level_serialize value)

-- `to_request_payload`: "ExpressionAttributeNames" and "ExpressionAttributeValues", each left out
-- where it is empty.
pub record ParametersDict : Type 0 where
  pub expression_attribute_names : Option (Dict String String)
  pub expression_attribute_values : Option (Dict String Tagged)

unfoldable pub to_request_payload : Parameters → ParametersDict
to_request_payload p = record {
  expression_attribute_names = if non_empty p.names.entries then some p.names.entries else none;
  expression_attribute_values = if non_empty p.values.entries then some p.values.entries else none;
}
