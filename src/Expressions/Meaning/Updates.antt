-- ===== src/Expressions/Meaning/Updates.antt =====
-- What an update expression stands for, and `UpdateExpression.encode` against it.
use aiodynamo.Prelude.{
  String, ◌≡◌, refl, Option, none, some, List, [], ◌∷◌, ◌++◌, map, if◌then◌else◌,
}
use aiodynamo.Errors.{Result, ok, ◌>>=◌}
use aiodynamo.Values.{Value, Number, negate}
use aiodynamo.Expressions.Parameters.{Parameters, Exec, Text, word, ◌⊕◌}
use aiodynamo.Expressions.Fields.{F, join}
use aiodynamo.Expressions.Updates.{
  SetAction, value, if_not_exists, modify, append, UpdateExpression, encode_modify, encode_action,
  encode_set, encode_change, encode_remove, section, spaced, join_bits, encode_update,
}
use aiodynamo.Expressions.Meaning.{
  IsWellFormed, Grows-refl, Meaning, resolve, Grows-trans, resolve-Grows, resolve-append,
}
use aiodynamo.Expressions.Meaning.Refines.{
  Outcome, Refines, Refines-pure, Refines-bind, Reads, ReadsAll, ReadsAll-Grows, Encodes, ◌⊞◌, says,
  value_meaning, Encodes-word, Encodes-append,
}
use aiodynamo.Expressions.Meaning.Paths.{
  path_meaning, meaning_join, Encodes-path, Encodes-join, encode_rules,
}

-- `- n` for a negative change by -n, and `+ n` for any other.
unfoldable pub modify_meaning : Number → F → Result (List Meaning)
modify_meaning diff f =
    let sign = if diff.is_negative then "-" else "+" in
    let amount = if diff.is_negative then negate diff else diff in
    path_meaning f.path ⊞ says " " ⊞ says sign ⊞ says " " ⊞ value_meaning (Value.num amount)

unfoldable pub action_meaning : SetAction → F → Result (List Meaning)
unfolding modify_meaning
action_meaning (value v) f = value_meaning v
action_meaning (if_not_exists v) f =
    says "if_not_exists(" ⊞ path_meaning f.path ⊞ says ", " ⊞ value_meaning v ⊞ says ")"
action_meaning (modify diff) f = modify_meaning diff f
action_meaning (append xs) f =
    says "list_append(" ⊞ path_meaning f.path ⊞ says ", " ⊞ value_meaning (Value.list xs) ⊞ says ")"

unfoldable pub set_meaning : F × SetAction → Result (List Meaning)
set_meaning (f, action) = path_meaning f.path ⊞ says " = " ⊞ action_meaning action f

unfoldable pub change_meaning : F × Value → Result (List Meaning)
change_meaning (f, v) = path_meaning f.path ⊞ says " " ⊞ value_meaning v

-- A section with its keyword, left out where nothing is listed.
unfoldable pub section_meaning :
    String → List (Result (List Meaning)) → Result (List (List Meaning))
section_meaning keyword [] = ok []
section_meaning keyword (s ∷ ss) = do ms ← says keyword ⊞ meaning_join ", " (s ∷ ss); ok (ms ∷ [])

abbrev pub spaced_meaning : List (List Meaning) → List Meaning
spaced_meaning [] = []
spaced_meaning (ms ∷ mss) = Meaning.word " " ∷ (ms ++ spaced_meaning mss)

-- The sections with spaces between them; none where there is no section.
abbrev pub sections_meaning : List (List Meaning) → Option (List Meaning)
sections_meaning [] = none
sections_meaning (ms ∷ mss) = some (ms ++ spaced_meaning mss)

unfoldable pub update_meaning : UpdateExpression → Result (Option (List Meaning))
update_meaning e = do
  sets ← section_meaning "SET " (map set_meaning e.set_updates)
  removes ← section_meaning "REMOVE " (map (λ (f : F). path_meaning f.path) e.remove)
  adds ← section_meaning "ADD " (map change_meaning e.add)
  deletes ← section_meaning "DELETE " (map change_meaning e.delete)
  ok (sections_meaning (sets ++ removes ++ adds ++ deletes))

Encodes-modify :
    (p : Parameters) (n : Number) (f : F) → Encodes p (encode_modify n f) (modify_meaning n f)
unfolding encode_modify modify_meaning
Encodes-modify p n f = search encode_rules depth 10

Encodes-action :
    (p : Parameters) (a : SetAction) (f : F) → Encodes p (encode_action a f) (action_meaning a f)
unfolding encode_action action_meaning
Encodes-action p (modify n) f = Encodes-modify p n f
Encodes-action p _ f = search encode_rules depth 10

Encodes-set : (p : Parameters) (x : F × SetAction) → Encodes p (encode_set x) (set_meaning x)
unfolding encode_set set_meaning
Encodes-set p (f, a) = search (encode_rules, Encodes-action) depth 8

Encodes-change : (p : Parameters) (x : F × Value) → Encodes p (encode_change x) (change_meaning x)
unfolding encode_change change_meaning
Encodes-change p (f, v) = search encode_rules depth 8

Encodes-remove : (p : Parameters) (f : F) → Encodes p (encode_remove f) (path_meaning f.path)
unfolding encode_remove
Encodes-remove p f = Encodes-path p f.path

module _ {A : Type 0} (p : Parameters) (f : A → Exec Text) (g : A → Result (List Meaning))
    (each : (x : A) → Encodes p (f x) (g x)) where
  Refines-section :
      (keyword : String) (xs : List A)
      → Refines ReadsAll p (section keyword (map f xs)) (section_meaning keyword (map g xs))
  unfolding section section_meaning
  Refines-section keyword [] = Refines-pure p [] [] (λ q h. tt)
  Refines-section keyword (x ∷ xs) =
      Refines-bind p (word keyword ⊕ join ", " (map f (x ∷ xs)))
        (says keyword ⊞ meaning_join ", " (map g (x ∷ xs))) _ _
        (Encodes-append p (Encodes-word p keyword) (Encodes-join p f g each ", " (x ∷ xs)))
        λ q t ms h r. Refines-pure q (t ∷ []) (ms ∷ []) λ u k. (resolve-Grows k t ms r, tt)

ReadsAll-append :
    (p : Parameters) (ts us : List Text) (mss nss : List (List Meaning))
    → ReadsAll p ts mss
    → ReadsAll p us nss
    → ReadsAll p (ts ++ us) (mss ++ nss)
ReadsAll-append p [] us [] nss h k = k
ReadsAll-append p (t ∷ ts) us (ms ∷ mss) nss h k = (h.0, ReadsAll-append p ts us mss nss h.1 k)
ReadsAll-append p [] us (ms ∷ mss) nss h k = elim h [ ]
ReadsAll-append p (t ∷ ts) us [] nss h k = elim h [ ]

resolve-spaced :
    (p : Parameters) (ts : List Text) (mss : List (List Meaning))
    → ReadsAll p ts mss
    → resolve p (spaced ts) ≡ some (spaced_meaning mss)
unfolding resolve spaced
resolve-spaced p [] [] h = refl
resolve-spaced p (t ∷ ts) (ms ∷ mss) h =
    rw (resolve-append p t (spaced ts) ms (spaced_meaning mss) h.0 (resolve-spaced p ts mss h.1))
resolve-spaced p [] (ms ∷ mss) h = elim h [ ]
resolve-spaced p (t ∷ ts) [] h = elim h [ ]

-- None for none, and a text that resolves for a meaning.
abbrev pub ReadsOption : Parameters → Option Text → Option (List Meaning) → Type 0
ReadsOption p none none = Unit
ReadsOption p (some t) (some ms) = Reads p t ms
ReadsOption p _ _ = ⊥

ReadsOption-bits :
    (p : Parameters) (ts : List Text) (mss : List (List Meaning))
    → ReadsAll p ts mss
    → ReadsOption p (join_bits ts) (sections_meaning mss)
unfolding join_bits
ReadsOption-bits p [] [] h = tt
ReadsOption-bits p (t ∷ ts) (ms ∷ mss) h =
    resolve-append p t (spaced ts) ms (spaced_meaning mss) h.0 (resolve-spaced p ts mss h.1)
ReadsOption-bits p [] (ms ∷ mss) h = elim h [ ]
ReadsOption-bits p (t ∷ ts) [] h = elim h [ ]

pub encode_update-Refines :
    (p : Parameters) (e : UpdateExpression)
    → Refines ReadsOption p (encode_update e) (update_meaning e)
unfolding encode_update update_meaning
encode_update-Refines p e =
    Refines-bind p _ _ _ _
      (Refines-section p encode_set set_meaning (Encodes-set p) "SET " e.set_updates)
      λ q₁ a x g₁ ra. Refines-bind q₁ _ _ _ _ (removes q₁) λ q₂ b y g₂ rb.
        Refines-bind q₂ _ _ _ _ (changes q₂ "ADD " e.add) λ q₃ c z g₃ rc.
          Refines-bind q₃ _ _ _ _ (changes q₃ "DELETE " e.delete) λ q₄ d w g₄ rd.
            Refines-pure q₄ _ _ λ u g₅.
              let h₄ = Grows-trans g₄ g₅ in
              let h₃ = Grows-trans g₃ h₄ in
              let h₂ = Grows-trans g₂ h₃ in
              ReadsOption-bits u _ _ (
                ReadsAll-append u _ d _ w
                  (ReadsAll-append u _ c _ z
                    (ReadsAll-append u a b x y (ReadsAll-Grows h₂ a x ra)
                      (ReadsAll-Grows h₃ b y rb))
                    (ReadsAll-Grows h₄ c z rc))
                  (ReadsAll-Grows g₅ d w rd))
  where
    removes :
        (q : Parameters)
        → Refines ReadsAll q
            (section "REMOVE " (map encode_remove e.remove))
            (section_meaning "REMOVE " (map (λ (f : F). path_meaning f.path) e.remove))
    removes q = Refines-section q encode_remove _ (Encodes-remove q) "REMOVE " e.remove

    changes :
        (q : Parameters) (keyword : String) (xs : List (F × Value))
        → Refines ReadsAll q
            (section keyword (map encode_change xs))
            (section_meaning keyword (map change_meaning xs))
    changes q keyword xs =
        Refines-section q encode_change change_meaning (Encodes-change q) keyword xs

-- An update expression is encoded with well-formed Parameters: either a value does not serialize
-- and it raises that exception; or the result is None where no update is listed, and else a text
-- that, read through the new Parameters, is the sections SET, REMOVE, ADD and DELETE with the paths
-- and values themselves. The new Parameters are well-formed and keep every entry of the old ones.
pub encode_update-Outcome :
    (p : Parameters) (e : UpdateExpression)
    → IsWellFormed p
    → Outcome ReadsOption p (encode_update e p) (update_meaning e)
encode_update-Outcome p e w = (encode_update-Refines p e).at p (Grows-refl p) w
