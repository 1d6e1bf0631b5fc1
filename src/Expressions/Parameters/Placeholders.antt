-- ===== src/Expressions/Parameters/Placeholders.antt =====
-- `Parameters._encode` of expressions.py, on what it is given: the dict from placeholders to
-- things, the counter and the cache.
pub mod Invariant
pub mod Entries
use aiodynamo.Prelude.{ℕ, ◌+◌, ◌≡◌, String, ◌+s◌, Option, none, some, [], Keyed, string_Keyed}
use aiodynamo.Prelude.Decimal.{str, str-injective}
use aiodynamo.Prelude.Dict.{Dict, lookup, insert}
use text.Mathlib.TextLemmas.{append_cancel_left}

pub record Slots {ℓ κ} (K : Type ℓ) (V : Type κ) : Type (ℓ ⊔ κ) where
  pub entries : Dict String V
  pub index_gen : ℕ
  pub cache : Dict K String

abbrev pub empty {ℓ κ} : {K : Type ℓ} {V : Type κ} → Slots K V
empty = record { entries = []; index_gen = 0; cache = [] }

-- f"{prefix}{next(index_gen)}"
unfoldable pub placeholder : String → ℕ → String
unfolding str
placeholder prefix i = prefix +s str i

-- One prefix and two numbers never give one placeholder.
pub placeholder-injective :
    (prefix : String) (i j : ℕ) → placeholder prefix i ≡ placeholder prefix j → i ≡ j
placeholder-injective prefix i j h =
    str-injective i j (append_cancel_left prefix (str i) (str j) (unfold placeholder in h))

remember {ℓ} : {K : Type ℓ} ⦃e : Keyed K⦄ → Option K → String → Dict K String → Dict K String
unfolding insert
remember none encoded cache = cache
remember (some k) encoded cache = insert k encoded cache

module _ {ℓ κ} {K : Type ℓ} {V : Type κ} ⦃e : Keyed K⦄ where
  -- `cache[cache_key]`: `none` for KeyError and, where there is no key, for TypeError.
  find : Option K → Slots K V → Option String
  unfolding lookup
  find none s = none
  find (some k) s = lookup k s.cache

  add : String → V → Option K → Slots K V → String × Slots K V
  unfolding placeholder insert remember
  add prefix thing key s =
      let encoded = placeholder prefix s.index_gen in
      (
        encoded,
        record {
          entries = insert encoded thing s.entries;
          index_gen = s.index_gen + 1;
          cache = remember key encoded s.cache;
        },
      )

  abbrev or_add : Option String → Slots K V → String × Slots K V → String × Slots K V
  or_add (some encoded) s added = (encoded, s)
  or_add none s added = added

  unfoldable pub encode : String → V → Option K → Slots K V → String × Slots K V
  unfolding find add
  encode prefix thing key s = or_add (find key s) s (add prefix thing key s)
