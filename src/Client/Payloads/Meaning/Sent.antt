-- ===== src/Client/Payloads/Meaning/Sent.antt =====
-- A payload with its parameters added, and a rule for each way in which an entry is put into it.
use aiodynamo.Prelude.{
  String, ◌≡◌, refl, Option, none, some, List, inl, inr, string_Keyed, Bool-cases, str_eq,
}
use aiodynamo.Errors.{Exception, Result, ok, raised, ◌>>=◌ as ◌>>>◌}
use aiodynamo.Values.{Fields, py2dy, end, field}
use aiodynamo.Expressions.Parameters.{then_run, Parameters, Text, Exec, pure, ◌>>=◌, new_parameters}
use aiodynamo.Expressions.Meaning.{Meaning, resolve-Grows, new_parameters-IsWellFormed, Grows-refl}
use aiodynamo.Expressions.Meaning.Refines.{
  Outcome, done, failed, Refines, Encodes, Refines-bind, Refines-pure,
}
use aiodynamo.Client.Payloads.{
  text, item, Payload, lift, put_expression, put_start_key, put_index, put_parameters,
  with_parameters, closed,
}
use aiodynamo.Client.Payloads.Query.{encode_option}
use aiodynamo.Expressions.Parameters.{Piece}
use aiodynamo.Expressions.Usage.{Listed, Nowhere}
use aiodynamo.Client.Payloads.Meaning.Usage.{Mentions, UsedPayload, used_all, SameSlots-Mentions}
use aiodynamo.Client.Payloads.Meaning.{
  Slot, slot_key, Expected, with_slot, sent_parameters, read, Holds, Holds-Grows, Holds-slot,
  Holds-plain,
}
use aiodynamo.Client.Payloads.Meaning.Closed.{closed-Listed, closed-lookup, read-Holds}

-- Each name and value that the payload sends is mentioned in one of its expressions.
abbrev pub NoneUnused : Payload → Type 0
NoneUnused payload = (x : Piece) → Listed (sent_parameters payload) x → Mentions payload x

-- A payload that says what is expected and sends no name or value that it does not use, or the
-- exception that is expected in its place.
pub data Sent : Result Payload → Result Expected → Type 0 where
  sent :
      {payload : Payload} {e : Expected}
      → ((k : Slot) → read payload k ≡ e k)
      → NoneUnused payload
      → Sent (ok payload) (ok e)
  not_sent : {x : Exception} → Sent (raised x) (raised x)

closed-NoneUnused :
    {p : Parameters} {payload : Payload} {e : Expected}
    → Holds p payload e
    → ((x : Piece) → Listed p x → Mentions payload x)
    → NoneUnused (put_parameters p payload)
closed-NoneUnused {p} {payload} h all x listed =
    SameSlots-Mentions payload (put_parameters p payload) (closed-lookup p payload) x
      (all x (closed-Listed h x listed))

closed-Sent :
    {p : Parameters} {r : Result (Payload × Parameters)} {s : Result Expected}
    → Outcome Holds p r s
    → ((payload : Payload) (q : Parameters)
        → r ≡ ok (payload, q)
        → (x : Piece) → Listed q x
        → Mentions payload x)
    → Sent (closed r) s
closed-Sent (done {a} {q} w g h) all = sent (read-Holds h) (closed-NoneUnused h (all a q refl))
closed-Sent failed all = not_sent

pub with_parameters-Sent :
    {m : Exec Payload} {s : Result Expected}
    → Refines Holds new_parameters m s
    → UsedPayload Nowhere m
    → Sent (with_parameters m) s
unfolding with_parameters
with_parameters-Sent r u =
    closed-Sent (r.at new_parameters (Grows-refl new_parameters) new_parameters-IsWellFormed)
      (λ payload q. used_all u)

finished :
    {p : Parameters} {r : Result (Payload × Parameters)} {s : Result Expected}
    (f : Payload → Payload)
    → ((q : Parameters) (payload : Payload) (e : Expected)
        → Holds q payload e
        → Holds q (f payload) e)
    → Outcome Holds p r s
    → Outcome Holds p (then_run r (λ payload. pure (f payload))) s
unfolding pure
finished f keeps (done {a} {q} {b} w g h) = done w g (keeps q a b h)
finished f keeps failed = failed

-- Entries that are put in at the end and are no expressions.
pub Refines-finish :
    {p : Parameters} {m : Exec Payload} {s : Result Expected} (f : Payload → Payload)
    → Refines Holds p m s
    → ((q : Parameters) (payload : Payload) (e : Expected)
        → Holds q payload e
        → Holds q (f payload) e)
    → Refines Holds p (m >>= λ payload. pure (f payload)) s
unfolding ◌>>=◌
Refines-finish f r keeps = record { at = λ q g w. finished f keeps (r.at q g w) }

-- What an expression that may be left out adds to what is expected.
unfoldable pub put_meaning :
    {A : Type 0} → Slot → (A → Result (List Meaning)) → Option A → Expected → Result Expected
put_meaning j g none e = ok e
put_meaning j g (some a) e = g a >>> λ ms. ok (with_slot j ms e)

pub Refines-slot :
    {A : Type 0} {f : A → Exec Text} {g : A → Result (List Meaning)}
    (each : (q : Parameters) (a : A) → Encodes q (f a) (g a)) (p : Parameters) {payload : Payload}
    {e : Expected} (j : Slot) (o : Option A)
    → Holds p payload e
    → Refines Holds p
        (put_expression (slot_key j) (encode_option f o) payload)
        (put_meaning j g o e)
unfolding put_expression put_meaning
Refines-slot each p {payload} {e} j none h = Refines-pure p payload e (λ q g. Holds-Grows g h)
Refines-slot {A} {f} {g} each p j (some a) h =
    Refines-bind p (f a) (g a) _ _ (each p a) λ q t ms grown reads. Refines-pure q _ _ λ r more.
      Holds-slot j t ms (Holds-Grows more (Holds-Grows grown h)) (resolve-Grows more t ms reads)

-- A start key adds no expression, and raises where it does not serialize.
unfoldable pub start_meaning : Option Fields → Expected → Result Expected
start_meaning none e = ok e
start_meaning (some end) e = ok e
start_meaning (some (field k v fs)) e = py2dy (field k v fs) >>> λ x. ok e

pub Refines-lift :
    {A B : Type 0} {R : Parameters → A → B → Type 0} {C : Type 0} (p : Parameters) (r : Result C)
    (f : C → Exec A) (g : C → Result B)
    → ((c : C) → Refines R p (f c) (g c))
    → Refines R p (lift r >>= f) (r >>> g)
unfolding lift ◌>>=◌
Refines-lift p (ok c) f g each = record { at = λ q h w. (each c).at q h w }
Refines-lift p (raised x) f g each = record { at = λ q h w. failed }

pub Refines-start :
    (p : Parameters) {payload : Payload} {e : Expected} (o : Option Fields)
    → Holds p payload e
    → Refines Holds p (put_start_key o payload) (start_meaning o e)
unfolding put_start_key start_meaning
Refines-start p none h = Refines-pure p _ _ (λ q g. Holds-Grows g h)
Refines-start p (some end) h = Refines-pure p _ _ (λ q g. Holds-Grows g h)
Refines-start p (some (field k v fs)) h = Refines-lift p (py2dy (field k v fs)) _ _ λ x.
    Refines-pure p _ _ λ q g.
      Holds-plain "ExclusiveStartKey" (item x) (refl, refl, refl, refl, refl, refl, refl)
        (Holds-Grows g h)

pub put_index-Holds :
    {p : Parameters} {payload : Payload} {e : Expected} (o : Option String)
    → Holds p payload e
    → Holds p (put_index o payload) e
unfolding put_index
put_index-Holds none h = h
put_index-Holds {p} {payload} {e} (some index) h = elim (Bool-cases (str_eq index "")) [
  | inl empty ↦ rw empty h
  | inr named ↦
      rw named (Holds-plain "IndexName" (text index) (refl, refl, refl, refl, refl, refl, refl) h)
]
