-- ===== src/Client/Payloads/Meaning/Usage.antt =====
-- The placeholders that the payloads of client.py use, against the names and values that they send.
use aiodynamo.Prelude.{
  String, ◌≡◌, refl, ◌∙◌, subst, ◌⊎◌, inl, inr, false, Option, none, some, string_Keyed, ◌==◌,
  Bool-cases, eq_iff, str_eq,
}
use aiodynamo.Prelude.Dict.{lookup, insert, lookup-insert}
use aiodynamo.Errors.{Result, ok, raised}
use aiodynamo.Values.{Fields, py2dy, end, field}
use aiodynamo.Expressions.Parameters.{
  Parameters, Piece, Text, Exec, pure, then_run, ◌>>=◌, new_parameters,
}
use aiodynamo.Expressions.Usage.{Listed, Stands, Nowhere, Used, Used-pure, Used-bind, Used-weaken}
use aiodynamo.Expressions.Usage.Texts.{UsedText}
use aiodynamo.Expressions.Usage.Encoders.{either}
use aiodynamo.Client.Payloads.{
  Json, expression, item, text, Payload, lift, put_expression, put_start_key, put_index,
}
use aiodynamo.Client.Payloads.Query.{encode_option}
use aiodynamo.Client.Payloads.Meaning.{Slot, slot_key, insert-other, IsPlain, plain_slot}

-- One of the expressions of the payload holds the placeholder.
abbrev pub Mentions : Payload → Piece → Type 0
Mentions payload x =
    (j : Slot) × (t : Text) × (lookup (slot_key j) payload ≡ some (expression t)) × Stands t x

abbrev pub UsedPayload : (Piece → Type 0) → Exec Payload → Type 0
UsedPayload = Used Mentions

module _ {A : Type 0} {S : A → Piece → Type 0} where
  Used-same :
      {before : Piece → Type 0} {m k : Exec A}
      → ((p : Parameters) → m p ≡ k p)
      → Used S before m
      → Used S before k
  Used-same same u = record {
    used = λ p q a h. u.used p q a (same p ∙ h);
    kept = λ p q a h. u.kept p q a (same p ∙ h);
  }

  pub Used-lift : (r : Result A) → Used S Nowhere (lift r)
  unfolding lift
  Used-lift (ok a) = unfold pure in Used-pure a (λ x h. elim h [ ])
  Used-lift (raised e) = record { used = λ p q a h x l. cc; kept = λ p q a h x l. cc }

in_turn :
    {A B C : Type 0} (r : Result (A × Parameters)) (g : A → B) (k : B → Exec C)
    → then_run r (λ a. k (g a)) ≡ then_run (then_run r (λ a. pure (g a))) k
unfolding pure
in_turn (ok (a, p)) g k = refl
in_turn (raised e) g k = refl

abbrev pub SameSlots : Payload → Payload → Type 0
SameSlots payload payload' = (i : Slot) → lookup (slot_key i) payload' ≡ lookup (slot_key i) payload

abbrev pub SameBut : Slot → Payload → Payload → Type 0
SameBut j payload payload' =
    (i : Slot)
    → (slot_key j == slot_key i) ≡ false
    → lookup (slot_key i) payload' ≡ lookup (slot_key i) payload

insert-Mentions :
    (j : Slot) (t : Text) (payload : Payload)
    → lookup (slot_key j) payload ≡ none
    → (x : Piece) → Mentions payload x ⊎ Stands t x
    → Mentions (insert (slot_key j) (expression t) payload) x
insert-Mentions j t payload free x (inr h) = (
  j,
  t,
  lookup-insert (slot_key j) (slot_key j) (expression t) payload
      ∙ (rw ((eq_iff (slot_key j) (slot_key j)).1 refl)),
  h,
)
insert-Mentions j t payload free x (inl (i, u, at, h)) =
    elim (Bool-cases (slot_key j == slot_key i)) [
      | inl same ↦
          let key = (eq_iff (slot_key j) (slot_key i)).0 same in
          let gone = subst (λ (k : String). lookup k payload ≡ none) key free in cc
      | inr apart ↦
          (i, u, insert-other (slot_key j) (slot_key i) (expression t) payload apart ∙ at, h)
    ]

-- `put_expression` at a key that is free, and what is done with the payload then.
pub Used-put :
    {A : Type 0} {f : A → Exec Text} (each : (a : A) → UsedText Nowhere (f a)) (j : Slot)
    (o : Option A) (payload : Payload) (k : Payload → Exec Payload)
    → lookup (slot_key j) payload ≡ none
    → ((payload' : Payload)
        → SameBut j payload payload'
        → UsedPayload (Mentions payload') (k payload'))
    → UsedPayload (Mentions payload) (put_expression (slot_key j) (encode_option f o) payload >>= k)
unfolding put_expression ◌>>=◌ pure
Used-put each j none payload k free next = next payload (λ i apart. refl)
Used-put {f = f} each j (some a) payload k free next =
    Used-same (λ p. in_turn (f a p) (λ t. insert (slot_key j) (expression t) payload) k)
      (Used-bind (each a) λ t. Used-weaken (insert-Mentions j t payload free) (
        next (insert (slot_key j) (expression t) payload)
          (λ i apart. insert-other (slot_key j) (slot_key i) (expression t) payload apart)))

-- The same with nothing done then.
pub Used-put_last :
    {A : Type 0} {f : A → Exec Text} (each : (a : A) → UsedText Nowhere (f a)) (j : Slot)
    (o : Option A) (payload : Payload)
    → lookup (slot_key j) payload ≡ none
    → UsedPayload (Mentions payload) (put_expression (slot_key j) (encode_option f o) payload)
unfolding put_expression
Used-put_last each j none payload free = Used-pure payload (λ x h. h)
Used-put_last each j (some a) payload free =
    Used-bind (each a)
      λ t. Used-pure (insert (slot_key j) (expression t) payload) (insert-Mentions j t payload free)

pub insert-SameSlots :
    (s : String) (v : Json) (payload : Payload) → IsPlain s → SameSlots payload (insert s v payload)
insert-SameSlots s v payload plain i = insert-other s (slot_key i) v payload (plain_slot s plain i)

pub put_index-SameSlots :
    (o : Option String) (payload : Payload) → SameSlots payload (put_index o payload)
unfolding put_index
put_index-SameSlots none payload i = refl
put_index-SameSlots (some index) payload i = elim (Bool-cases (str_eq index "")) [
  | inl empty ↦ rw empty refl
  | inr named ↦ rw named (
      insert-SameSlots "IndexName" (text index) payload (refl, refl, refl, refl, refl, refl, refl)
        i)
]

pub SameSlots-Mentions :
    (payload payload' : Payload)
    → SameSlots payload payload'
    → (x : Piece) → Mentions payload x
    → Mentions payload' x
SameSlots-Mentions payload payload' same x (i, t, at, h) = (i, t, same i ∙ at, h)

pub Used-start :
    (o : Option Fields) (payload : Payload) (k : Payload → Exec Payload)
    → ((payload' : Payload)
        → SameSlots payload payload'
        → UsedPayload (Mentions payload') (k payload'))
    → UsedPayload (Mentions payload) (put_start_key o payload >>= k)
unfolding put_start_key ◌>>=◌ pure
Used-start none payload k next = next payload (λ i. refl)
Used-start (some end) payload k next = next payload (λ i. refl)
Used-start (some (field key v fs)) payload k next =
    Used-same
      (λ p.
        in_turn (lift (py2dy (field key v fs)) p)
          (λ start. insert "ExclusiveStartKey" (item start) payload) k)
      (Used-bind (Used-lift {S = λ a x. ⊥} (py2dy (field key v fs))) λ start.
        let payload' = insert "ExclusiveStartKey" (item start) payload in
        let same =
          insert-SameSlots "ExclusiveStartKey" (item start) payload
            (refl, refl, refl, refl, refl, refl, refl) in
        Used-weaken
          (λ x h. SameSlots-Mentions payload payload' same x (either h (λ m. m) (λ n. elim n [ ])))
          (next payload' same))

pub Listed-nowhere : (x : Piece) → ¬ Listed new_parameters x
unfolding lookup
Listed-nowhere (Piece.lit s) h = h
Listed-nowhere (Piece.name_ref s) h = cc
Listed-nowhere (Piece.value_ref s) h = cc

-- A payload that is built from nothing mentions all that it has entered.
pub used_all :
    {m : Exec Payload} {q : Parameters} {payload : Payload}
    → UsedPayload Nowhere m
    → m new_parameters ≡ ok (payload, q)
    → (x : Piece) → Listed q x
    → Mentions payload x
used_all {q = q} {payload = payload} u h x listed =
    either (u.used new_parameters q payload h x listed) (λ n. absurd (Listed-nowhere x n)) (λ m. m)
