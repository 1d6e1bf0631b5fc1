-- ===== src/Expressions/Debug/Filling.antt =====
-- `replace` for one placeholder after the other, in texts whose other parts hold none.
use Prim.Native.Char.{Char, code}
use Prim.Native.String.{String}
use aiodynamo.Prelude.{
  ℕ, ◌≡◌, refl, sym, ap, ◌∙◌, subst, ◌+s◌, true, false, Option, none, some, List, [], ◌∷◌, arith,
  All, string_Keyed, str_eq, eq_iff, Bool-cases, inl, inr, if◌then◌else◌, nat_eq_iff,
}
use aiodynamo.Prelude.Dict.{Dict, lookup}
use aiodynamo.Prelude.Replace.{
  replace, lacks, is_key, replace-lacks, replace_self, replace-other, replace-nil,
}
use aiodynamo.Expressions.Debug.{replace_all}

-- A text with placeholders in it.
pub data Bit : Type 0 where
  fixed : String → Bit
  hole : String → Bit

abbrev pub shown : List Bit → String
shown [] = ""
shown (fixed s ∷ bits) = s +s shown bits
shown (hole k ∷ bits) = k +s shown bits

abbrev pub or_self : String → Option String → String
or_self k none = k
or_self k (some s) = s

-- Each placeholder with an entry is filled with it.
abbrev pub filled : Dict String String → List Bit → String
filled d [] = ""
filled d (fixed s ∷ bits) = s +s filled d bits
filled d (hole k ∷ bits) = or_self k (lookup k d) +s filled d bits

fill : String → String → List Bit → List Bit
fill key new [] = []
fill key new (fixed s ∷ bits) = fixed s ∷ fill key new bits
fill key new (hole k ∷ bits) = (if str_eq key k then fixed new else hole k) ∷ fill key new bits

-- The fixed parts lack the first character of the placeholders, and these are all of one size.
module _ (n m : ℕ) where
  abbrev pub IsTidy : Bit → Type 0
  IsTidy (fixed s) = lacks n s ≡ true
  IsTidy (hole k) = is_key n m k ≡ true

  abbrev pub IsFit : String × String → Type 0
  IsFit (key, new) = (is_key n m key ≡ true) × (lacks n new ≡ true)

  first_code : (c : Char) (old : String) → is_key n m (String.◌∷◌ c old) ≡ true → n ≡ code c
  first_code c old h = (nat_eq_iff n (code c)).0 (ground arith)

  fixed_kept :
      (key new s u : String)
      → is_key n m key ≡ true
      → lacks n s ≡ true
      → replace key new (s +s u) ≡ s +s replace key new u
  fixed_kept String.[] new s u h bare = cc
  fixed_kept (String.◌∷◌ c old) new s u h bare =
      replace-lacks c old new s u (subst (λ (k : ℕ). lacks k s ≡ true) (first_code c old h) bare)

  hole_filled :
      (key new k u : String)
      → is_key n m key ≡ true
      → str_eq key k ≡ true
      → replace key new (k +s u) ≡ new +s replace key new u
  hole_filled String.[] new k u h same = cc
  hole_filled (String.◌∷◌ c old) new k u h same =
      ap (λ (j : String). replace (String.◌∷◌ c old) new (j +s u))
        (sym ((eq_iff (String.◌∷◌ c old) k).0 same))
      ∙ replace_self c old new u

  hole_kept :
      (key new k u : String)
      → is_key n m key ≡ true
      → is_key n m k ≡ true
      → str_eq key k ≡ false
      → replace key new (k +s u) ≡ k +s replace key new u
  hole_kept String.[] new k u h h' apart = cc
  hole_kept (String.◌∷◌ c old) new String.[] u h h' apart = cc
  hole_kept (String.◌∷◌ c old) new (String.◌∷◌ d k) u h h' apart =
      let e = first_code c old h in
      replace-other m c d old new k u (subst (λ (i : ℕ). is_key i m (String.◌∷◌ c old) ≡ true) e h)
        (subst (λ (i : ℕ). is_key i m (String.◌∷◌ d k) ≡ true) e h') apart

  replace-fill :
      (key new : String)
      → is_key n m key ≡ true
      → (bits : List Bit) → All IsTidy bits
      → replace key new (shown bits) ≡ shown (fill key new bits)
  unfolding fill
  replace-fill key new h [] tidy = replace-nil key new
  replace-fill key new h (fixed s ∷ bits) tidy =
      fixed_kept key new s (shown bits) h tidy.0
      ∙ ap (λ (u : String). s +s u) (replace-fill key new h bits tidy.1)
  replace-fill key new h (hole k ∷ bits) tidy = elim (Bool-cases (str_eq key k)) [
    | inl same ↦ rw same (
        hole_filled key new k (shown bits) h same
        ∙ ap (λ (u : String). new +s u) (replace-fill key new h bits tidy.1))
    | inr apart ↦ rw apart (
        hole_kept key new k (shown bits) h tidy.0 apart
        ∙ ap (λ (u : String). k +s u) (replace-fill key new h bits tidy.1))
  ]

  fill-IsTidy :
      (key new : String)
      → lacks n new ≡ true
      → (bits : List Bit) → All IsTidy bits
      → All IsTidy (fill key new bits)
  unfolding fill
  fill-IsTidy key new h [] tidy = tt
  fill-IsTidy key new h (fixed s ∷ bits) tidy = (tidy.0, fill-IsTidy key new h bits tidy.1)
  fill-IsTidy key new h (hole k ∷ bits) tidy = elim (Bool-cases (str_eq key k)) [
    | inl same ↦ rw same (h, fill-IsTidy key new h bits tidy.1)
    | inr apart ↦ rw apart (tidy.0, fill-IsTidy key new h bits tidy.1)
  ]

  filled-fill :
      (key new : String) (d : Dict String String) (bits : List Bit)
      → filled d (fill key new bits) ≡ filled ((key, new) ∷ d) bits
  unfolding fill lookup
  filled-fill key new d [] = refl
  filled-fill key new d (fixed s ∷ bits) = ap (λ (u : String). s +s u) (filled-fill key new d bits)
  filled-fill key new d (hole k ∷ bits) = elim (Bool-cases (str_eq key k)) [
    | inl same ↦ rw same (ap (λ (u : String). new +s u) (filled-fill key new d bits))
    | inr apart ↦
        rw apart (ap (λ (u : String). or_self k (lookup k d) +s u) (filled-fill key new d bits))
  ]

  filled-nil : (bits : List Bit) → filled [] bits ≡ shown bits
  unfolding lookup
  filled-nil [] = refl
  filled-nil (fixed s ∷ bits) = ap (λ (u : String). s +s u) (filled-nil bits)
  filled-nil (hole k ∷ bits) = ap (λ (u : String). k +s u) (filled-nil bits)

  -- Replacing one placeholder after the other fills each of them with its entry.
  pub replace_all-filled :
      (d : Dict String String) (bits : List Bit)
      → All IsFit d
      → All IsTidy bits
      → replace_all d (shown bits) ≡ filled d bits
  unfolding replace_all
  replace_all-filled [] bits fit tidy = sym (filled-nil bits)
  replace_all-filled ((key, new) ∷ d) bits fit tidy =
      ap (replace_all d) (replace-fill key new fit.0.0 bits tidy)
      ∙ replace_all-filled d (fill key new bits) fit.1 (fill-IsTidy key new fit.0.1 bits tidy)
      ∙ filled-fill key new d bits
