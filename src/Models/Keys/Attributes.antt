-- ===== src/Models/Keys/Attributes.antt =====
-- The attribute definitions that `KeySchema.to_attributes` of models.py makes.
use aiodynamo.Prelude.{
  ◌≡◌, ap, ◌∙◌, sym, String, some, subst, inl, inr, eq_iff, List, [], ◌∷◌, All, arith, Bool-cases,
  string_Keyed, ◌==◌,
}
use aiodynamo.Prelude.Dict.{Dict, lookup, insert, update, lookup-insert}
use aiodynamo.Models.Keys.{
  KeyType, KeySpec, KeySchema, key_type_value, specs, add_attributes, to_attributes,
}

module _ (types : String → KeyType) where
  -- Each of the specs has the type that `types` gives its name.
  abbrev pub Agrees : List KeySpec → Type 0
  Agrees = All (λ (k : KeySpec). types k.name ≡ k.key_type)

  abbrev pub IsSound : Dict String String → Type 0
  IsSound = All (λ (p : String × String). p.1 ≡ key_type_value (types p.0))

  abbrev pub Gives : Dict String String → String → Type 0
  Gives d n = lookup n d ≡ some (key_type_value (types n))

  insert-IsSound :
      (n v : String) (d : Dict String String)
      → v ≡ key_type_value (types n)
      → IsSound d
      → IsSound (insert n v d)
  unfolding insert
  insert-IsSound n v [] same h = (same, tt)
  insert-IsSound n v ((j, w) ∷ d) same h = elim (Bool-cases (j == n)) [
    | inl here ↦
        let named : j ≡ n = ground (arith, eq_iff j n) in
        rw here (same ∙ ap (λ (i : String). key_type_value (types i)) (sym named), h.1)
    | inr there ↦ rw there (h.0, insert-IsSound n v d same h.1)
  ]

  insert-Gives :
      (n v m : String) (d : Dict String String)
      → v ≡ key_type_value (types n)
      → Gives d m
      → Gives (insert n v d) m
  insert-Gives n v m d same h = ground (arith, lookup-insert n m v d, eq_iff n m)

  insert-Gives_new :
      (n v : String) (d : Dict String String)
      → v ≡ key_type_value (types n)
      → Gives (insert n v d) n
  insert-Gives_new n v d same = ground (arith, lookup-insert n n v d, eq_iff n n)

  -- From `d` to `e`: sound still, and what `d` gives is kept.
  abbrev pub Keeps : Dict String String → Dict String String → Type 0
  Keeps d e = IsSound e × ((m : String) → Gives d m → Gives e m)

  add_attributes-Keeps :
      (ks : List KeySpec) (d : Dict String String)
      → Agrees ks
      → IsSound d
      → Keeps d (add_attributes ks d) × All (λ (k : KeySpec). Gives (add_attributes ks d) k.name) ks
  unfolding add_attributes
  add_attributes-Keeps [] d h sound = ((sound, λ m g. g), tt)
  add_attributes-Keeps (k ∷ ks) d h sound =
      let v = key_type_value k.key_type in
      let same : v ≡ key_type_value (types k.name) = ap key_type_value (sym (h.0)) in
      let ((after, kept), given) =
        add_attributes-Keeps ks (insert k.name v d) h.1 (insert-IsSound k.name v d same sound) in
      (
        (after, λ m g. kept m (insert-Gives k.name v m d same g)),
        (kept k.name (insert-Gives_new k.name v d same), given),
      )

  pub update-Keeps :
      (d other : Dict String String)
      → IsSound d
      → IsSound other
      → Keeps d (update d other) × ((m : String) → Gives other m → Gives (update d other) m)
  unfolding update lookup
  update-Keeps d [] sound h = ((sound, λ m g. g), λ m g. absurd cc)
  update-Keeps d ((n, v) ∷ other) sound h =
      let ((after, kept), given) =
        update-Keeps (insert n v d) other (insert-IsSound n v d h.0 sound) h.1 in
      (
        (after, λ m g. kept m (insert-Gives n v m d h.0 g)),
        λ m g. elim (Bool-cases (n == m)) [
          | inl here ↦
              let named : n ≡ m = ground (arith, eq_iff n m) in
              subst (λ (x : String). Gives (update (insert n v d) other) x) named
                (kept n (insert-Gives_new n v d h.0))
          | inr there ↦ given m ground arith
        ],
      )

  pub to_attributes-Gives :
      (s : KeySchema)
      → Agrees (specs s)
      → IsSound (to_attributes s) × All (λ (k : KeySpec). Gives (to_attributes s) k.name) (specs s)
  unfolding to_attributes
  to_attributes-Gives s h =
      let ((sound, kept), given) = add_attributes-Keeps (specs s) [] h tt in (sound, given)
