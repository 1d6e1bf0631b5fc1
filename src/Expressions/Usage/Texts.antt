-- ===== src/Expressions/Usage/Texts.antt =====
-- The placeholders of texts: of literal text, of names and values, and of two parts.
use aiodynamo.Prelude.{
  String, ◌≡◌, sym, ap, subst, ◌⊎◌, inl, inr, some, [], ◌∷◌, ◌++◌, string_Keyed, arith,
}
use aiodynamo.Errors.{Result, ok, raised}
use aiodynamo.Values.{Tagged, Value, low_level_serialize}
use aiodynamo.Expressions.Parameters.{
  Parameters, cache_key, cache_key_Keyed, Piece, lit, name_ref, value_ref, Text, Exec, pure, ◌>>=◌,
  word, ◌⊕◌, encode_name, encode_tagged, encode_value, serialized,
}
use aiodynamo.Expressions.Parameters.Placeholders.{encode}
use aiodynamo.Expressions.Parameters.Placeholders.Entries.{encode_only}
use aiodynamo.Expressions.Usage.{
  Listed, Stands, Nowhere, Used, then_run-ok, Used-pure, Used-raise, Used-weaken,
}

pub Stands-append : (t u : Text) (x : Piece) → Stands t x ⊎ Stands u x → Stands (t ++ u) x
Stands-append [] u x (inl h) = elim h [ ]
Stands-append [] u x (inr h) = h
Stands-append (y ∷ t) u x (inl (inl h)) = inl h
Stands-append (y ∷ t) u x (inl (inr h)) = inr (Stands-append t u x (inl h))
Stands-append (y ∷ t) u x (inr h) = inr (Stands-append t u x (inr h))

abbrev pub UsedText : (Piece → Type 0) → Exec Text → Type 0
UsedText = Used Stands

pub Used-nil : UsedText Nowhere (pure [])
Used-nil = Used-pure [] (λ x h. elim h [ ])

pub Used-word : (x : String) → UsedText Nowhere (word x)
unfolding word
Used-word x = Used-pure (lit x ∷ []) (λ y h. elim h [ ])

⊕-ok :
    (m k : Exec Text) (p r : Parameters) (b : Text)
    → (m ⊕ k) p ≡ ok (b, r)
    → (t : Text) × (u : Text) × (q : Parameters) × (m p ≡ ok (t, q))
      × (k q ≡ ok (u, r))
      × (t ++ u ≡ b)
unfolding ◌⊕◌ ◌>>=◌ pure
⊕-ok m k p r b h =
    let (t, q, first, rest) = then_run-ok (m p) (λ x. k >>= λ y. pure (x ++ y)) b r h in
    let (u, r', second, last) = then_run-ok (k q) (λ y. pure (t ++ y)) b r rest in
    (t, u, q, first, cc (second, last), ground arith)

-- Two parts, of which the one or the other holds what was before.
part_used :
    {first second : Piece → Type 0} {m k : Exec Text}
    → UsedText first m
    → UsedText second k
    → (p q : Parameters) (a : Text) → (m ⊕ k) p ≡ ok (a, q)
    → (x : Piece) → Listed q x
    → Listed p x ⊎ Stands a x
part_used {m = m} {k = k} um uk p r b h x listed =
    let (t, u, q, one, two, same) = ⊕-ok m k p r b h in
    subst (λ (c : Text). Listed p x ⊎ Stands c x) same
      (elim (uk.used q r u two x listed) [
        | inl old ↦ elim (um.used p q t one x old) [
          | inl older ↦ inl older
          | inr mine ↦ inr (Stands-append t u x (inl mine))
        ]
        | inr new ↦ inr (Stands-append t u x (inr new))
      ])

pub Used-both :
    {first second : Piece → Type 0} {m k : Exec Text}
    → UsedText first m
    → UsedText second k
    → UsedText (λ x. first x ⊎ second x) (m ⊕ k)
Used-both {m = m} {k = k} um uk = record {
  used = part_used um uk;
  kept = λ p r b h x earlier.
      let (t, u, q, one, two, same) = ⊕-ok m k p r b h in
      subst (λ (c : Text). Stands c x) same
        (Stands-append t u x (elim earlier [
          | inl e ↦ inl (um.kept p q t one x e)
          | inr e ↦ inr (uk.kept q r u two x e)
        ]));
}

-- What was before stands in the second part, or in the first.
pub Used-after :
    {before : Piece → Type 0} {m k : Exec Text}
    → UsedText Nowhere m
    → UsedText before k
    → UsedText before (m ⊕ k)
Used-after um uk = Used-weaken (λ x h. inr h) (Used-both um uk)

pub Used-before :
    {before : Piece → Type 0} {m k : Exec Text}
    → UsedText before m
    → UsedText Nowhere k
    → UsedText before (m ⊕ k)
Used-before um uk = Used-weaken (λ x h. inl h) (Used-both um uk)

name-Listed :
    (name : String) (p : Parameters) (x : Piece)
    → Listed (record p { names = (encode "#n" name (some name) p.names).1 }) x
    → Listed p x ⊎ Stands (name_ref (encode "#n" name (some name) p.names).0 ∷ []) x
name-Listed name p (lit y) h = elim h [ ]
name-Listed name p (value_ref y) h = inl h
name-Listed name p (name_ref y) h = elim (encode_only "#n" name (some name) p.names y h) [
  | inl old ↦ inl old
  | inr new ↦ inr (inl (ap name_ref new))
]

value-Listed :
    (v : Tagged) (p : Parameters) (x : Piece)
    → Listed (record p { values = (encode ":v" v (cache_key v) p.values).1 }) x
    → Listed p x ⊎ Stands (value_ref (encode ":v" v (cache_key v) p.values).0 ∷ []) x
value-Listed v p (lit y) h = elim h [ ]
value-Listed v p (name_ref y) h = inl h
value-Listed v p (value_ref y) h = elim (encode_only ":v" v (cache_key v) p.values y h) [
  | inl old ↦ inl old
  | inr new ↦ inr (inl (ap value_ref new))
]

moved :
    (p r q : Parameters) (b a : Text) (x : Piece)
    → (Listed r x → Listed p x ⊎ Stands b x)
    → ◌≡◌ {A = Result (Text × Parameters)} (ok (b, r)) (ok (a, q))
    → Listed q x
    → Listed p x ⊎ Stands a x
moved p r q b a x f h listed =
    let states : r ≡ q = ground arith in
    let texts : b ≡ a = ground arith in
    subst (λ (c : Text). Listed p x ⊎ Stands c x) texts
      (f (subst (λ (s : Parameters). Listed s x) (sym states) listed))

pub Used-name : (name : String) → UsedText Nowhere (encode_name name)
unfolding encode_name
Used-name name = record {
  used = λ p q a h x listed. moved p _ q _ a x (name-Listed name p x) h listed;
  kept = λ p q a h x earlier. elim earlier [ ];
}

Used-tagged : (v : Tagged) → UsedText Nowhere (encode_tagged v)
unfolding encode_tagged
Used-tagged v = record {
  used = λ p q a h x listed. moved p _ q _ a x (value-Listed v p x) h listed;
  kept = λ p q a h x earlier. elim earlier [ ];
}

pub Used-value : (v : Value) → UsedText Nowhere (encode_value v)
unfolding encode_value
Used-value v = go (low_level_serialize v)
  where
    go : (r : Result Tagged) → UsedText Nowhere (serialized r)
    go (ok tagged) = Used-tagged tagged
    go (raised e) = Used-raise e
