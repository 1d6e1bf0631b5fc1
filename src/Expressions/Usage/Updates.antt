-- ===== src/Expressions/Usage/Updates.antt =====
-- The placeholders that `UpdateExpression.encode` of expressions.py enters.
use aiodynamo.Prelude.{String, ◌⊎◌, inl, inr, Option, none, some, List, [], ◌∷◌, ◌++◌, map}
use aiodynamo.Values.{Value, Number}
use aiodynamo.Expressions.Parameters.{Piece, Text, Exec}
use aiodynamo.Expressions.Fields.{F}
use aiodynamo.Expressions.Updates.{
  SetAction, value, if_not_exists, modify, append, UpdateExpression, encode_modify, encode_action,
  encode_set, encode_change, encode_remove, section, spaced, join_bits, encode_update,
}
use aiodynamo.Expressions.Usage.{Stands, Nowhere, Used, Used-pure, Used-bind}
use aiodynamo.Expressions.Usage.Texts.{UsedText, Used-word, Used-after, Stands-append}
use aiodynamo.Expressions.Usage.Encoders.{either, StandsIn, usage_rules, Used-path, Used-join}

Used-modify : (n : Number) (f : F) → UsedText Nowhere (encode_modify n f)
unfolding encode_modify
Used-modify n f = search usage_rules depth 10

Used-action : (a : SetAction) (f : F) → UsedText Nowhere (encode_action a f)
unfolding encode_action
Used-action (modify n) f = Used-modify n f
Used-action (value v) f = search usage_rules depth 10
Used-action (if_not_exists v) f = search usage_rules depth 10
Used-action (append xs) f = search usage_rules depth 10

Used-set : (x : F × SetAction) → UsedText Nowhere (encode_set x)
unfolding encode_set
Used-set (f, a) = Used-after (Used-path f.path) (Used-after (Used-word " = ") (Used-action a f))

Used-change : (x : F × Value) → UsedText Nowhere (encode_change x)
unfolding encode_change
Used-change (f, v) = search usage_rules depth 8

Used-remove : (f : F) → UsedText Nowhere (encode_remove f)
unfolding encode_remove
Used-remove f = Used-path f.path

Used-section :
    {A : Type 0} (f : A → Exec Text)
    → ((x : A) → UsedText Nowhere (f x))
    → (keyword : String) (xs : List A) → Used StandsIn Nowhere (section keyword (map f xs))
unfolding section
Used-section f each keyword [] = Used-pure [] (λ x h. elim h [ ])
Used-section f each keyword (x ∷ xs) =
    Used-bind (Used-after (Used-word keyword) (Used-join f each ", " (x ∷ xs)))
      λ t. Used-pure (t ∷ []) (λ y h. either h (λ n. elim n [ ]) inl)

StandsIn-append :
    (ts us : List Text) (x : Piece) → StandsIn ts x ⊎ StandsIn us x → StandsIn (ts ++ us) x
StandsIn-append [] us x (inl h) = elim h [ ]
StandsIn-append [] us x (inr h) = h
StandsIn-append (t ∷ ts) us x (inl (inl h)) = inl h
StandsIn-append (t ∷ ts) us x (inl (inr h)) = inr (StandsIn-append ts us x (inl h))
StandsIn-append (t ∷ ts) us x (inr h) = inr (StandsIn-append ts us x (inr h))

-- In the text, if there is one.
abbrev pub StandsOption : Option Text → Piece → Type 0
StandsOption none x = ⊥
StandsOption (some t) x = Stands t x

spaced-Stands : (ts : List Text) (x : Piece) → StandsIn ts x → Stands (spaced ts) x
unfolding spaced
spaced-Stands [] x h = elim h [ ]
spaced-Stands (t ∷ ts) x (inl h) = inr (Stands-append t (spaced ts) x (inl h))
spaced-Stands (t ∷ ts) x (inr h) = inr (Stands-append t (spaced ts) x (inr (spaced-Stands ts x h)))

join_bits-Stands : (ts : List Text) (x : Piece) → StandsIn ts x → StandsOption (join_bits ts) x
unfolding join_bits
join_bits-Stands [] x h = elim h [ ]
join_bits-Stands (t ∷ ts) x (inl h) = Stands-append t (spaced ts) x (inl h)
join_bits-Stands (t ∷ ts) x (inr h) = Stands-append t (spaced ts) x (inr (spaced-Stands ts x h))

-- What stands in one of the four sections.
gathered :
    (a b c d : List Text) (x : Piece)
    → (((Nowhere x ⊎ StandsIn a x) ⊎ StandsIn b x) ⊎ StandsIn c x) ⊎ StandsIn d x
    → StandsIn (a ++ b ++ c ++ d) x
gathered a b c d x h =
    either h
      (λ h₁.
        either h₁
          (λ h₂.
            either h₂
              (λ h₃.
                either h₃ (λ n. elim n [ ])
                  (λ s.
                    StandsIn-append ((a ++ b) ++ c) d x
                      (inl (StandsIn-append (a ++ b) c x (inl (StandsIn-append a b x (inl s)))))))
              (λ s.
                StandsIn-append ((a ++ b) ++ c) d x
                  (inl (StandsIn-append (a ++ b) c x (inl (StandsIn-append a b x (inr s)))))))
          (λ s. StandsIn-append ((a ++ b) ++ c) d x (inl (StandsIn-append (a ++ b) c x (inr s)))))
      (λ s. StandsIn-append ((a ++ b) ++ c) d x (inr s))

pub Used-update : (e : UpdateExpression) → Used StandsOption Nowhere (encode_update e)
unfolding encode_update
Used-update e = Used-bind (Used-section encode_set Used-set "SET " e.set_updates) λ a.
    Used-bind (Used-section encode_remove Used-remove "REMOVE " e.remove) λ b.
      Used-bind (Used-section encode_change Used-change "ADD " e.add) λ c.
        Used-bind (Used-section encode_change Used-change "DELETE " e.delete)
          λ d. Used-pure _ (λ x h. join_bits-Stands (a ++ b ++ c ++ d) x (gathered a b c d x h))
