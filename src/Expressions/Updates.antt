-- ===== src/Expressions/Updates.antt =====
-- The update expressions of expressions.py: SetAction, UpdateExpression, and the methods of F that
-- make them.
pub mod Removal
use aiodynamo.Prelude.{
  String, Option, none, some, List, [], ◌∷◌, ◌++◌, map, any, non_empty, ◌==◌, if◌then◌else◌,
}
use aiodynamo.Errors.{Result, ok, raised, cannot_add_to_nested_field}
use aiodynamo.Values.{Value, Number, Items, negate}
use aiodynamo.Expressions.Parameters.{Text, lit, Exec, pure, ◌>>=◌, word, ◌⊕◌, encode_value}
use aiodynamo.Expressions.Fields.{F, field_Keyed, encode_path, join}

-- The subclasses of SetAction. The values of an Append are a list.
pub data SetAction : Type 0 where
  value : Value → SetAction
  if_not_exists : Value → SetAction
  modify : Number → SetAction
  append : Items → SetAction

-- `remove` is a set: its fields are listed once each, in the order of iteration.
pub record UpdateExpression : Type 0 where
  pub set_updates : List (F × SetAction)
  pub remove : List F
  pub add : List (F × Value)
  pub delete : List (F × Value)

abbrev pub no_updates : UpdateExpression
no_updates = record { set_updates = []; remove = []; add = []; delete = [] }

-- The methods of F.
unfoldable pub set : F → Value → UpdateExpression
set f v = record no_updates { set_updates = (f, value v) ∷ [] }

unfoldable pub set_if_not_exists : F → Value → UpdateExpression
set_if_not_exists f v = record no_updates { set_updates = (f, if_not_exists v) ∷ [] }

unfoldable pub change : F → Number → UpdateExpression
change f diff = record no_updates { set_updates = (f, modify diff) ∷ [] }

unfoldable pub append_items : F → Items → UpdateExpression
append_items f items = record no_updates { set_updates = (f, append items) ∷ [] }

unfoldable pub remove_field : F → UpdateExpression
remove_field f = record no_updates { remove = f ∷ [] }

unfoldable pub add_value : F → Value → Result UpdateExpression
add_value f v =
    if non_empty f.path.parts
    then raised cannot_add_to_nested_field
    else ok (record no_updates { add = (f, v) ∷ [] })

unfoldable pub delete_value : F → Value → UpdateExpression
delete_value f v = record no_updates { delete = (f, v) ∷ [] }

-- `self.remove.union(other.remove)`
add_field : F → List F → List F
add_field f fs = if any (λ g. g == f) fs then fs else fs ++ f ∷ []

unfoldable pub union : List F → List F → List F
unfolding add_field
union fs [] = fs
union fs (g ∷ gs) = union (add_field g fs) gs

-- `UpdateExpression.__and__`
infixr 36 ◌&◌
unfoldable pub ◌&◌ : UpdateExpression → UpdateExpression → UpdateExpression
unfolding union
this & other = record {
  set_updates = this.set_updates ++ other.set_updates;
  remove = union this.remove other.remove;
  add = this.add ++ other.add;
  delete = this.delete ++ other.delete;
}

-- `Modify.encode`
unfoldable pub encode_modify : Number → F → Exec Text
encode_modify diff f =
    let operator = if diff.is_negative then "-" else "+" in
    let amount = if diff.is_negative then negate diff else diff in
    encode_path f.path ⊕ word " " ⊕ word operator ⊕ word " " ⊕ encode_value (Value.num amount)

-- `encode` of the subclasses of SetAction.
unfoldable pub encode_action : SetAction → F → Exec Text
encode_action (value v) f = encode_value v
encode_action (if_not_exists v) f =
    word "if_not_exists(" ⊕ encode_path f.path ⊕ word ", " ⊕ encode_value v ⊕ word ")"
encode_action (modify diff) f = encode_modify diff f
encode_action (append items) f =
    word "list_append("
    ⊕ encode_path f.path
    ⊕ word ", "
    ⊕ encode_value (Value.list items)
    ⊕ word ")"

unfoldable pub encode_set : F × SetAction → Exec Text
encode_set (f, action) = encode_path f.path ⊕ word " = " ⊕ encode_action action f

unfoldable pub encode_change : F × Value → Exec Text
encode_change (f, v) = encode_path f.path ⊕ word " " ⊕ encode_value v

unfoldable pub encode_remove : F → Exec Text
encode_remove f = encode_path f.path

-- One `if self.…:` block: its text, or no bit where there is nothing to write.
unfoldable pub section : String → List (Exec Text) → Exec (List Text)
section keyword [] = pure []
section keyword ms = do t ← word keyword ⊕ join ", " ms; pure (t ∷ [])

unfoldable pub spaced : List Text → Text
spaced [] = []
spaced (t ∷ ts) = lit " " ∷ (t ++ spaced ts)

-- " ".join(bits), or None
unfoldable pub join_bits : List Text → Option Text
unfolding spaced
join_bits [] = none
join_bits (t ∷ ts) = some (t ++ spaced ts)

-- `UpdateExpression.encode`
unfoldable pub encode_update : UpdateExpression → Exec (Option Text)
encode_update e = do
  set_bits ← section "SET " (map encode_set e.set_updates)
  remove_bits ← section "REMOVE " (map encode_remove e.remove)
  add_bits ← section "ADD " (map encode_change e.add)
  delete_bits ← section "DELETE " (map encode_change e.delete)
  pure (join_bits (set_bits ++ remove_bits ++ add_bits ++ delete_bits))
