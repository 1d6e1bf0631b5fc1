-- ===== src/Expressions/Algebra.antt =====
-- `&`, `|` and `~` of conditions, of expressions.py: what they build and what they mean.
use aiodynamo.Prelude.{not, ◌&&◌, ◌||◌, Bool, true, false, sym, ap, ◌∙◌, arith, ◌≡◌, refl}
use aiodynamo.Expressions.Conditions.{
  not_condition, Condition, SubConditions, Conditions, and_condition, or_condition, sub_conditions,
  nil, cons, append_conditions, iterate, create, prepending, appending, extending, ◌&◌, ◌or◌,
  invert,
}

-- The operands of a conjunction, and any other condition as the only one; so for `|`.
unfoldable pub conjuncts : Condition → Conditions
unfolding iterate
conjuncts (and_condition cs) = iterate cs
conjuncts c = cons c nil

unfoldable pub disjuncts : Condition → Conditions
unfolding iterate
disjuncts (or_condition cs) = iterate cs
disjuncts c = cons c nil

append_conditions_assoc :
    (x y z : Conditions)
    → append_conditions (append_conditions x y) z ≡ append_conditions x (append_conditions y z)
unfolding append_conditions
append_conditions_assoc nil y z = refl
append_conditions_assoc (cons c x) y z = ap (cons c) (append_conditions_assoc x y z)

iterate-injective : (s t : SubConditions) → iterate s ≡ iterate t → s ≡ t
unfolding iterate
iterate-injective (sub_conditions a b x) (sub_conditions c d y) h = ground arith

iterate-extending :
    (s t : SubConditions) → iterate (extending s t) ≡ append_conditions (iterate s) (iterate t)
unfolding iterate extending append_conditions
iterate-extending (sub_conditions a b x) t = refl

iterate-appending :
    (s : SubConditions) (c : Condition)
    → iterate (appending s c) ≡ append_conditions (iterate s) (cons c nil)
unfolding iterate appending append_conditions
iterate-appending (sub_conditions a b x) c = refl

iterate-prepending :
    (s : SubConditions) (c : Condition) → iterate (prepending s c) ≡ cons c (iterate s)
unfolding iterate prepending
iterate-prepending (sub_conditions a b x) c = refl

-- `a & b` is one conjunction, of the operands of `a` and then those of `b`: it is flattened.
pub conjuncts-& :
    (a b : Condition)
    → (s : SubConditions) × (a & b ≡ and_condition s)
      × (iterate s ≡ append_conditions (conjuncts a) (conjuncts b))
unfolding ◌&◌ conjuncts
conjuncts-& (and_condition x) (and_condition y) = (extending x y, refl, iterate-extending x y)
conjuncts-& (and_condition x) b = (appending x b, refl, iterate-appending x b)
conjuncts-& a (and_condition y) = (prepending y a, refl, iterate-prepending y a)
conjuncts-& a b = (create a b, refl, unfold iterate create append_conditions in refl)

pub disjuncts-or :
    (a b : Condition)
    → (s : SubConditions) × (a or b ≡ or_condition s)
      × (iterate s ≡ append_conditions (disjuncts a) (disjuncts b))
unfolding ◌or◌ disjuncts
disjuncts-or (or_condition x) (or_condition y) = (extending x y, refl, iterate-extending x y)
disjuncts-or (or_condition x) b = (appending x b, refl, iterate-appending x b)
disjuncts-or a (or_condition y) = (prepending y a, refl, iterate-prepending y a)
disjuncts-or a b = (create a b, refl, unfold iterate create append_conditions in refl)

conjuncts-and : (s : SubConditions) → conjuncts (and_condition s) ≡ iterate s
unfolding conjuncts
conjuncts-and s = refl

disjuncts-or_condition : (s : SubConditions) → disjuncts (or_condition s) ≡ iterate s
unfolding disjuncts
disjuncts-or_condition s = refl

-- `(a & b) & c` and `a & (b & c)` are one condition.
&_assoc : (a b c : Condition) → ((a & b) & c) ≡ (a & (b & c))
&_assoc a b c =
    let (s, ab, in_ab) = conjuncts-& a b in
    let (t, bc, in_bc) = conjuncts-& b c in
    let (u, left, in_left) = conjuncts-& (a & b) c in
    let (w, right, in_right) = conjuncts-& a (b & c) in
    let left_list : iterate u
        ≡ append_conditions (append_conditions (conjuncts a) (conjuncts b)) (conjuncts c) =
      in_left
      ∙ ap (λ x. append_conditions (conjuncts x) (conjuncts c)) ab
      ∙ ap (λ x. append_conditions x (conjuncts c)) (conjuncts-and s ∙ in_ab) in
    let right_list : iterate w
        ≡ append_conditions (conjuncts a) (append_conditions (conjuncts b) (conjuncts c)) =
      in_right
      ∙ ap (λ x. append_conditions (conjuncts a) (conjuncts x)) bc
      ∙ ap (append_conditions (conjuncts a)) (conjuncts-and t ∙ in_bc) in
    left
    ∙ ap and_condition (
        iterate-injective u w (
          left_list
          ∙ append_conditions_assoc (conjuncts a) (conjuncts b) (conjuncts c)
          ∙ sym right_list))
    ∙ sym right

-- `(a | b) | c` and `a | (b | c)` are one condition.
or_assoc : (a b c : Condition) → ((a or b) or c) ≡ (a or (b or c))
or_assoc a b c =
    let (s, ab, in_ab) = disjuncts-or a b in
    let (t, bc, in_bc) = disjuncts-or b c in
    let (u, left, in_left) = disjuncts-or (a or b) c in
    let (w, right, in_right) = disjuncts-or a (b or c) in
    let left_list : iterate u
        ≡ append_conditions (append_conditions (disjuncts a) (disjuncts b)) (disjuncts c) =
      in_left
      ∙ ap (λ x. append_conditions (disjuncts x) (disjuncts c)) ab
      ∙ ap (λ x. append_conditions x (disjuncts c)) (disjuncts-or_condition s ∙ in_ab) in
    let right_list : iterate w
        ≡ append_conditions (disjuncts a) (append_conditions (disjuncts b) (disjuncts c)) =
      in_right
      ∙ ap (λ x. append_conditions (disjuncts a) (disjuncts x)) bc
      ∙ ap (append_conditions (disjuncts a)) (disjuncts-or_condition t ∙ in_bc) in
    left
    ∙ ap or_condition (
        iterate-injective u w (
          left_list
          ∙ append_conditions_assoc (disjuncts a) (disjuncts b) (disjuncts c)
          ∙ sym right_list))
    ∙ sym right

-- How a chain of `&`, or of `|`, is bracketed makes no difference to the condition that it builds.
pub operators_assoc :
    (a b c : Condition) → (((a & b) & c) ≡ (a & (b & c))) × (((a or b) or c) ≡ (a or (b or c)))
operators_assoc a b c = (&_assoc a b c, or_assoc a b c)

-- The truth of a condition, where `v` says which of the plain conditions hold of an item.
module _ (v : Condition → Bool) where
  unfoldable mutual
    pub eval : Condition → Bool
    eval (not_condition c) = not (eval c)
    eval (and_condition cs) = eval_all cs
    eval (or_condition cs) = eval_any cs
    eval c = v c

    pub eval_all : SubConditions → Bool
    eval_all (sub_conditions c d cs) = eval c && (eval d && all_of cs)

    pub eval_any : SubConditions → Bool
    eval_any (sub_conditions c d cs) = eval c || (eval d || any_of cs)

    pub all_of : Conditions → Bool
    all_of nil = true
    all_of (cons c cs) = eval c && all_of cs

    pub any_of : Conditions → Bool
    any_of nil = false
    any_of (cons c cs) = eval c || any_of cs

  all_of-append : (x y : Conditions) → all_of (append_conditions x y) ≡ (all_of x && all_of y)
  unfolding eval append_conditions
  all_of-append nil y = refl
  all_of-append (cons c x) y = ground (arith, all_of-append x y)

  any_of-append : (x y : Conditions) → any_of (append_conditions x y) ≡ (any_of x || any_of y)
  unfolding eval append_conditions
  any_of-append nil y = refl
  any_of-append (cons c x) y = ground (arith, any_of-append x y)

  eval_all-iterate : (s : SubConditions) → eval (and_condition s) ≡ all_of (iterate s)
  unfolding eval iterate
  eval_all-iterate (sub_conditions c d cs) = refl

  eval_any-iterate : (s : SubConditions) → eval (or_condition s) ≡ any_of (iterate s)
  unfolding eval iterate
  eval_any-iterate (sub_conditions c d cs) = refl

  all_of-one : (c : Condition) → all_of (cons c nil) ≡ eval c
  unfolding eval
  all_of-one c = ground arith

  any_of-one : (c : Condition) → any_of (cons c nil) ≡ eval c
  unfolding eval
  any_of-one c = ground arith

  all_of-conjuncts : (c : Condition) → all_of (conjuncts c) ≡ eval c
  unfolding conjuncts
  all_of-conjuncts (and_condition s) = sym (eval_all-iterate s)
  all_of-conjuncts c = all_of-one c

  any_of-disjuncts : (c : Condition) → any_of (disjuncts c) ≡ eval c
  unfolding disjuncts
  any_of-disjuncts (or_condition s) = sym (eval_any-iterate s)
  any_of-disjuncts c = any_of-one c

  -- Whichever plain conditions hold, `a & b` holds exactly where both `a` and `b` do.
  eval-& : (a b : Condition) → eval (a & b) ≡ (eval a && eval b)
  eval-& a b =
      let (s, built, operands) = conjuncts-& a b in
      simp (built, eval_all-iterate, operands, all_of-append, all_of-conjuncts)

  -- Whichever plain conditions hold, `a | b` holds exactly where one of `a` and `b` does.
  eval-or : (a b : Condition) → eval (a or b) ≡ (eval a || eval b)
  eval-or a b =
      let (s, built, operands) = disjuncts-or a b in
      simp (built, eval_any-iterate, operands, any_of-append, any_of-disjuncts)

  -- `~a` holds exactly where `a` does not.
  eval-invert : (a : Condition) → eval (invert a) ≡ not (eval a)
  unfolding eval invert
  eval-invert a = refl

  -- Whichever plain conditions hold of an item: `a & b` holds of it exactly where both `a` and `b` do,
  -- `a | b` exactly where one of them does, and `~a` exactly where `a` does not.
  pub eval_lem :
      (a b : Condition)
      → (eval (a & b) ≡ (eval a && eval b))
        × (eval (a or b) ≡ (eval a || eval b))
        × (eval (invert a) ≡ not (eval a))
  eval_lem a b = (eval-& a b, eval-or a b, eval-invert a)
