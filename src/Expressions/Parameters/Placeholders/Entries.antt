-- ===== src/Expressions/Parameters/Placeholders/Entries.antt =====
-- Which entries a call of `Parameters._encode` of expressions.py adds.
use aiodynamo.Prelude.{
  ◌≡◌, String, ◌⊎◌, inl, inr, Bool, true, false, Option, none, some, Option-cases, Bool-cases,
  Keyed, string_Keyed, str_eq, eq_iff, arith,
}
use aiodynamo.Prelude.Dict.{lookup, lookup-insert}
use aiodynamo.Expressions.Parameters.Placeholders.{Slots, placeholder, find, add, encode}

abbrev pub is_some {ℓ} : {A : Type ℓ} → Option A → Bool
is_some none = false
is_some (some a) = true

module _ {ℓ κ} {K : Type ℓ} {V : Type κ} ⦃e : Keyed K⦄ (prefix : String) (thing : V)
    (key : Option K) (s : Slots K V) (k : String) where
  add_only :
      is_some (lookup k (add prefix thing key s).1.entries) ≡ true
      → (is_some (lookup k s.entries) ≡ true) ⊎ ((add prefix thing key s).0 ≡ k)
  unfolding add
  add_only h = elim (Bool-cases (str_eq (placeholder prefix s.index_gen) k)) [
    | inl same ↦ inr ((eq_iff (placeholder prefix s.index_gen) k).0 same)
    | inr apart ↦
        inl (ground (arith, lookup-insert (placeholder prefix s.index_gen) k thing s.entries))
  ]

  -- At most one, at the placeholder that it returns.
  pub encode_only :
      is_some (lookup k (encode prefix thing key s).1.entries) ≡ true
      → (is_some (lookup k s.entries) ≡ true) ⊎ ((encode prefix thing key s).0 ≡ k)
  unfolding encode
  encode_only h = elim (Option-cases (find key s)) [
    | inl miss ↦ rw miss (add_only (rw miss at h))
    | inr (p, hit) ↦ rw hit (inl (rw hit at h))
  ]
