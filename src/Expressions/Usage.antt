-- ===== src/Expressions/Usage.antt =====
-- Which placeholders a call that is handed the Parameters enters in them, against those that its
-- result holds.
pub mod Texts
pub mod Encoders
pub mod Updates
use aiodynamo.Prelude.{
  String, ◌≡◌, refl, sym, ap, subst, ◌∙◌, ◌⊎◌, inl, inr, Bool, true, false, Option, none, some,
  List, [], ◌∷◌, ◌++◌, string_Keyed, str_eq, eq_iff, if◌then◌else◌, Bool-cases, arith,
}
use aiodynamo.Prelude.Dict.{lookup, lookup-insert}
use aiodynamo.Errors.{Result, ok, raised, Exception, Result-cases}
use aiodynamo.Values.{Tagged, Value, low_level_serialize}
use aiodynamo.Expressions.Parameters.{
  Parameters, CacheKey, cache_key, cache_key_Keyed, Piece, lit, name_ref, value_ref, Text, Exec,
  pure, raise, then_run, ◌>>=◌, word, ◌⊕◌, encode_name, encode_tagged, encode_value, serialized,
}
use aiodynamo.Expressions.Parameters.Placeholders.{Slots, encode}
use aiodynamo.Expressions.Parameters.Placeholders.Entries.{is_some, encode_only}

-- The Parameters have an entry at the placeholder.
abbrev pub Listed : Parameters → Piece → Type 0
Listed p (lit x) = ⊥
Listed p (name_ref x) = is_some (lookup x p.names.entries) ≡ true
Listed p (value_ref x) = is_some (lookup x p.values.entries) ≡ true

abbrev pub Stands : Text → Piece → Type 0
Stands [] x = ⊥
Stands (y ∷ t) x = (y ≡ x) ⊎ Stands t x

abbrev pub Nowhere : Piece → Type 0
Nowhere x = ⊥

-- The call enters no placeholder but those in its result, which holds those of `before` too.
pub record Used {A : Type 0} (S : A → Piece → Type 0) (before : Piece → Type 0) (m : Exec A)
    : Type 0 where
  pub used :
      (p q : Parameters) (a : A) → m p ≡ ok (a, q) → (x : Piece) → Listed q x → Listed p x ⊎ S a x
  pub kept : (p q : Parameters) (a : A) → m p ≡ ok (a, q) → (x : Piece) → before x → S a x

pub then_run-ok :
    {A B : Type 0} (r : Result (A × Parameters)) (f : A → Exec B) (b : B) (q : Parameters)
    → then_run r f ≡ ok (b, q)
    → (a : A) × (p : Parameters) × (r ≡ ok (a, p)) × (f a p ≡ ok (b, q))
then_run-ok (ok (a, p)) f b q h = (a, p, refl, h)
then_run-ok (raised e) f b q h = cc

module _ {A : Type 0} {S : A → Piece → Type 0} where
  pub Used-pure :
      {before : Piece → Type 0} (a : A) → ((x : Piece) → before x → S a x) → Used S before (pure a)
  unfolding pure
  Used-pure a holds = record {
    used = λ p q b h x listed.
        let same : p ≡ q = ground arith in
        inl (subst (λ (r : Parameters). Listed r x) (sym same) listed);
    kept = λ p q b h x earlier.
        let same : a ≡ b = ground arith in subst (λ (c : A). S c x) same (holds x earlier);
  }

  pub Used-raise : {before : Piece → Type 0} (e : Exception) → Used S before (raise {A = A} e)
  unfolding raise
  Used-raise e = record { used = λ p q b h x listed. cc; kept = λ p q b h x earlier. cc }

  pub Used-if :
      {before : Piece → Type 0} (b : Bool) {m k : Exec A}
      → Used S before m
      → Used S before k
      → Used S before (if b then m else k)
  Used-if true um uk = um
  Used-if false um uk = uk

  pub Used-weaken :
      {before earlier : Piece → Type 0} {m : Exec A}
      → ((x : Piece) → before x → earlier x)
      → Used S earlier m
      → Used S before m
  Used-weaken f u = record { used = u.used; kept = λ p q a h x b. u.kept p q a h x (f x b) }

  -- What was before beside the result.
  Used-frame :
      {before : Piece → Type 0} {m : Exec A}
      → Used S Nowhere m
      → Used (λ a x. before x ⊎ S a x) before m
  Used-frame u = record {
    used = λ p q a h x listed. elim (u.used p q a h x listed) [
      | inl old ↦ inl old
      | inr new ↦ inr (inr new)
    ];
    kept = λ p q a h x earlier. inl earlier;
  }

module _ {A B : Type 0} {S : A → Piece → Type 0} {T : B → Piece → Type 0} where
  -- Where the first call keeps what was before.
  pub Used-then :
      {before : Piece → Type 0} {m : Exec A} {k : A → Exec B}
      → Used S before m
      → ((a : A) → Used T (S a) (k a))
      → Used T before (m >>= k)
  unfolding ◌>>=◌
  Used-then {before} {m} {k} um uk = record {
    used = λ p r b h x listed.
        let (a, q, first, rest) = then_run-ok (m p) k b r h in
        elim ((uk a).used q r b rest x listed) [
          | inl old ↦ elim (um.used p q a first x old) [
            | inl older ↦ inl older
            | inr mine ↦ inr ((uk a).kept q r b rest x mine)
          ]
          | inr new ↦ inr new
        ];
    kept = λ p r b h x earlier.
        let (a, q, first, rest) = then_run-ok (m p) k b r h in
        (uk a).kept q r b rest x (um.kept p q a first x earlier);
  }

-- With what was before held apart from the first result.
pub Used-bind :
    {A B : Type 0} {S : A → Piece → Type 0} {T : B → Piece → Type 0} {before : Piece → Type 0}
    {m : Exec A} {k : A → Exec B}
    → Used S Nowhere m
    → ((a : A) → Used T (λ x. before x ⊎ S a x) (k a))
    → Used T before (m >>= k)
Used-bind {S = S} {before = before} um uk =
    Used-then {S = λ a x. before x ⊎ S a x} (Used-frame um) uk
