-- ===== src/Expressions/Fields.antt =====
-- KeyPath, F and the projection expressions of expressions.py.
use aiodynamo.Prelude.{
  ◌≡◌, ◌↔◌, refl, String, ◌+s◌, Bool, true, false, ◌&&◌, List, [], ◌∷◌, ◌++◌, map, arith, nat_eq,
  str_eq, eq_iff, Keyed,
}
use aiodynamo.Prelude.Int.{ℤ, pos, negsuc}
use aiodynamo.Prelude.Decimal.{str_int}
use aiodynamo.Expressions.Parameters.{Text, Exec, pure, word, ◌⊕◌, encode_name}

-- An element of `KeyPath.parts`: a str or an int.
pub data Part : Type 0 where
  key : String → Part
  index : ℤ → Part

pub record KeyPath : Type 0 where
  pub root : String
  pub parts : List Part

-- F is a field by its path.
pub record F : Type 0 where
  pub path : KeyPath

abbrev pub int_eq : ℤ → ℤ → Bool
int_eq (pos x) (pos y) = nat_eq x y
int_eq (negsuc x) (negsuc y) = nat_eq x y
int_eq _ _ = false

abbrev pub part_eq : Part → Part → Bool
part_eq (key x) (key y) = str_eq x y
part_eq (index x) (index y) = int_eq x y
part_eq _ _ = false

abbrev pub parts_eq : List Part → List Part → Bool
parts_eq [] [] = true
parts_eq (x ∷ xs) (y ∷ ys) = part_eq x y && parts_eq xs ys
parts_eq _ _ = false

-- `F.__eq__`
abbrev pub field_eq : F → F → Bool
field_eq x y = str_eq x.path.root y.path.root && parts_eq x.path.parts y.path.parts

pub int_eq_iff : (x y : ℤ) → (int_eq x y ≡ true) ↔ (x ≡ y)
int_eq_iff (pos x) (pos y) = ground arith
int_eq_iff (negsuc x) (negsuc y) = ground arith
int_eq_iff _ _ = ground arith

pub part_eq_iff : (x y : Part) → (part_eq x y ≡ true) ↔ (x ≡ y)
part_eq_iff (key x) (key y) = ground (arith, eq_iff x y)
part_eq_iff (index x) (index y) = ground (arith, int_eq_iff x y)
part_eq_iff _ _ = ground arith

pub parts_eq_iff : (xs ys : List Part) → (parts_eq xs ys ≡ true) ↔ (xs ≡ ys)
parts_eq_iff [] [] = (λ _. refl, λ _. refl)
parts_eq_iff (x ∷ xs) (y ∷ ys) = ground (arith, part_eq_iff x y, parts_eq_iff xs ys)
parts_eq_iff _ _ = ground arith

pub field_eq_iff : (x y : F) → (field_eq x y ≡ true) ↔ (x ≡ y)
field_eq_iff x y =
    ground (arith, eq_iff x.path.root y.path.root, parts_eq_iff x.path.parts y.path.parts)

instance abbrev pub field_Keyed : Keyed F
field_Keyed = record { same = field_eq; same_iff = field_eq_iff }

unfoldable pub encode_part : Part → Exec Text
unfolding word ◌⊕◌ encode_name str_int
encode_part (index part) = word ("[" +s str_int part +s "]")
encode_part (key part) = word "." ⊕ encode_name part

unfoldable pub encode_parts : List Part → Exec Text
unfolding encode_part pure ◌⊕◌
encode_parts [] = pure []
encode_parts (part ∷ parts) = encode_part part ⊕ encode_parts parts

-- `Parameters.encode_path`
unfoldable pub encode_path : KeyPath → Exec Text
unfolding encode_name encode_parts ◌⊕◌
encode_path path = encode_name path.root ⊕ encode_parts path.parts

-- The texts of the calls, in order, with `separator.join`.
unfoldable pub join_rest : String → List (Exec Text) → Exec Text
unfolding pure word ◌⊕◌
join_rest separator [] = pure []
join_rest separator (m ∷ ms) = word separator ⊕ m ⊕ join_rest separator ms

unfoldable pub join : String → List (Exec Text) → Exec Text
unfolding pure ◌⊕◌ join_rest
join separator [] = pure []
join separator (m ∷ ms) = m ⊕ join_rest separator ms

-- `separator.join` over texts that are already there.
unfoldable pub join_ready : String → List Text → Exec Text
join_ready separator ts = join separator (map pure ts)

-- ProjectionExpression: an F or a FieldList.
pub data Projection : Type 0 where
  field : F → Projection
  field_list : List F → Projection

-- `__and__` of both classes.
unfoldable pub and_field : Projection → F → Projection
and_field (field f) other = field_list (f ∷ other ∷ [])
and_field (field_list fs) other = field_list (fs ++ other ∷ [])

-- `encode` of both classes.
unfoldable pub encode_projection : Projection → Exec Text
encode_projection (field f) = encode_path f.path
encode_projection (field_list fs) = join "," (map (λ (f : F). encode_path f.path) fs)
