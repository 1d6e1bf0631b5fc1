-- ===== src/Expressions/Updates/Removal.antt =====
-- The fields that a combined update removes, of expressions.py.
use aiodynamo.Prelude.{◌≡◌, refl, ap, Bool, ◌||◌, List, [], ◌∷◌, ◌++◌, any, arith, ◌==◌}
use aiodynamo.Expressions.Fields.{F, field_Keyed, field_eq_iff}
use aiodynamo.Expressions.Updates.{UpdateExpression, add_field, union, ◌&◌}

-- Whether an update removes a field.
abbrev pub removes : F → List F → Bool
removes f fs = any (λ g. g == f) fs

any-append : (p : F → Bool) (fs gs : List F) → any p (fs ++ gs) ≡ (any p fs || any p gs)
any-append p [] gs = refl
any-append p (f ∷ fs) gs = ground (arith, any-append p fs gs)

removes-same : (f g : F) (fs : List F) → g ≡ f → removes g fs ≡ removes f fs
removes-same f g fs h = ap (λ x. removes x fs) h

removes-add_field :
    (f g : F) (fs : List F) → removes f (add_field g fs) ≡ (removes f fs || (g == f))
unfolding add_field
removes-add_field f g fs =
    ground (arith, any-append (λ x. x == f) fs (g ∷ []), removes-same f g fs, field_eq_iff g f)

removes-union : (f : F) (fs gs : List F) → removes f (union fs gs) ≡ (removes f fs || removes f gs)
unfolding union
removes-union f fs [] = ground arith
removes-union f fs (g ∷ gs) =
    ground (arith, removes-union f (add_field g fs) gs, removes-add_field f g fs)

-- A combined update removes exactly the fields that one of its two parts removes.
removes-& :
    (f : F) (a b : UpdateExpression)
    → removes f (a & b).remove ≡ (removes f a.remove || removes f b.remove)
unfolding ◌&◌
removes-& f a b = removes-union f a.remove b.remove
