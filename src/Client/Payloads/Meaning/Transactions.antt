-- ===== src/Client/Payloads/Meaning/Transactions.antt =====
-- What the operations of a transaction, of operations.py, and the whole of it, of client.py, say.
use aiodynamo.Prelude.{
  String, ◌≡◌, refl, false, Option, List, [], ◌∷◌, length, nat_eq, ltb, if◌then◌else◌, Bool-cases,
  inl, inr, arith,
}
use aiodynamo.Prelude.Dict.{lookup}
use aiodynamo.Errors.{
  Exception, Result, ok, raised, transaction_empty, too_many_transactions, map_result,
  ◌>>=◌ as ◌>>>◌,
}
use aiodynamo.Values.{Fields}
use aiodynamo.Expressions.Parameters.{new_parameters}
use aiodynamo.Expressions.Fields.{Projection}
use aiodynamo.Expressions.Conditions.{Condition}
use aiodynamo.Expressions.Meaning.Paths.{projection_meaning, encode_projection-Encodes}
use aiodynamo.Expressions.Meaning.Conditions.{condition_meaning, encode_condition-Encodes}
use aiodynamo.Client.Payloads.{Payload}
use aiodynamo.Client.Payloads.Items.{
  get_payload, condition_payload, Operation, get, put, update, delete, condition_check,
  operation_payload, transact_payload,
}
use aiodynamo.Client.Payloads.Meaning.{Expected, nothing, projection, condition, every_slot}
use aiodynamo.Client.Payloads.Meaning.Placeholders.{projected-Used, conditional-Used}
use aiodynamo.Client.Payloads.Meaning.Sent.{
  Sent, not_sent, put_meaning, with_parameters-Sent, Refines-slot,
}
use aiodynamo.Client.Payloads.Meaning.Items.{
  item_meaning, item-Sent, no_expressions-Holds, IsExtra, update_item_meaning, update_body-Sent,
}

-- The name of an operation and what its expressions are to say.
unfoldable pub operation_meaning : Operation → Result (String × Expected)
operation_meaning (get table key projected) =
    item_meaning key (put_meaning projection projection_meaning projected nothing) >>> λ e.
    ok ("Get", e)
operation_meaning (put table fs c) =
    item_meaning fs (put_meaning condition condition_meaning c nothing) >>> λ e. ok ("Put", e)
operation_meaning (update table key u c) = update_item_meaning key u c >>> λ e. ok ("Update", e)
operation_meaning (delete table key c) =
    item_meaning key (put_meaning condition condition_meaning c nothing) >>> λ e. ok ("Delete", e)
operation_meaning (condition_check table key c) =
    item_meaning key (put_meaning condition condition_meaning c nothing) >>> λ e.
    ok ("ConditionCheck", e)

-- Between one and a hundred operations, one after the other.
unfoldable pub transaction_meaning : List Operation → Result (List (String × Expected))
transaction_meaning [] = raised transaction_empty
transaction_meaning (operation ∷ operations) =
    if ltb 100 (length (operation ∷ operations))
    then raised too_many_transactions
    else map_result operation_meaning (operation ∷ operations)

get-Sent :
    (table : String) (key : Fields) (projected : Option Projection)
    → Sent
        (get_payload table [] key projected)
        (item_meaning key (put_meaning projection projection_meaning projected nothing))
unfolding get_payload lookup
get-Sent table key projected = item-Sent key _ _ λ x.
    with_parameters-Sent
      (Refines-slot encode_projection-Encodes new_parameters projection projected
        (no_expressions-Holds new_parameters _ (every_slot _ refl refl refl refl refl) refl refl))
      (projected-Used projected _ refl)

put-Sent :
    (table : String) (fs : Fields) (c : Option Condition)
    → Sent
        (condition_payload table [] "Item" fs c)
        (item_meaning fs (put_meaning condition condition_meaning c nothing))
unfolding condition_payload lookup
put-Sent table fs c = item-Sent fs _ _ λ x.
    with_parameters-Sent
      (Refines-slot encode_condition-Encodes new_parameters condition c
        (no_expressions-Holds new_parameters _ (every_slot _ refl refl refl refl refl) refl refl))
      (conditional-Used c _ refl)

key-Sent :
    (table : String) (key : Fields) (c : Option Condition)
    → Sent
        (condition_payload table [] "Key" key c)
        (item_meaning key (put_meaning condition condition_meaning c nothing))
unfolding condition_payload lookup
key-Sent table key c = item-Sent key _ _ λ x.
    with_parameters-Sent
      (Refines-slot encode_condition-Encodes new_parameters condition c
        (no_expressions-Holds new_parameters _ (every_slot _ refl refl refl refl refl) refl refl))
      (conditional-Used c _ refl)

-- One operation: its name, and a payload that says what is expected.
abbrev pub SaysEntry : String × Payload → String × Expected → Type 0
SaysEntry (name, payload) (name', e) = (name ≡ name') × Sent (ok payload) (ok e)

abbrev pub SaysEntries : List (String × Payload) → List (String × Expected) → Type 0
SaysEntries [] [] = Unit
SaysEntries (x ∷ xs) (y ∷ ys) = SaysEntry x y × SaysEntries xs ys
SaysEntries _ _ = ⊥

-- Both raise one exception, or the results are so related.
pub data Agrees {A B : Type 0} (R : A → B → Type 0) : Result A → Result B → Type 0 where
  agreed : {a : A} {b : B} → R a b → Agrees R (ok a) (ok b)
  both_raise : {e : Exception} → Agrees R (raised e) (raised e)

named-Agrees :
    (name : String) (r : Result Payload) (s : Result Expected)
    → Sent r s
    → Agrees SaysEntry (r >>> λ payload. ok (name, payload)) (s >>> λ e. ok (name, e))
named-Agrees name (ok payload) (ok e) h = agreed (refl, h)
named-Agrees name (raised x) (raised x') not_sent = both_raise
named-Agrees name (ok payload) (raised x) h = elim h [ ]
named-Agrees name (raised x) (ok e) h = elim h [ ]

empty-IsExtra : IsExtra []
unfolding lookup
empty-IsExtra = (λ k. refl, refl, refl)

operation_payload-Agrees :
    (operation : Operation)
    → Agrees SaysEntry (operation_payload operation) (operation_meaning operation)
unfolding operation_payload operation_meaning
operation_payload-Agrees (get table key projected) =
    named-Agrees "Get" _ _ (get-Sent table key projected)
operation_payload-Agrees (put table fs c) = named-Agrees "Put" _ _ (put-Sent table fs c)
operation_payload-Agrees (update table key u c) =
    named-Agrees "Update" _ _ (update_body-Sent table [] key u c empty-IsExtra)
operation_payload-Agrees (delete table key c) = named-Agrees "Delete" _ _ (key-Sent table key c)
operation_payload-Agrees (condition_check table key c) =
    named-Agrees "ConditionCheck" _ _ (key-Sent table key c)

not_empty_length : (x : Operation) (xs : List Operation) → nat_eq (length (x ∷ xs)) 0 ≡ false
not_empty_length x xs = ground arith

both-Agrees :
    (r : Result (String × Payload)) (s : Result (String × Expected))
    (rs : Result (List (String × Payload))) (ss : Result (List (String × Expected)))
    → Agrees SaysEntry r s
    → Agrees SaysEntries rs ss
    → Agrees SaysEntries (r >>> λ y. rs >>> λ ys. ok (y ∷ ys)) (s >>> λ z. ss >>> λ zs. ok (z ∷ zs))
both-Agrees (ok y) (ok z) (ok ys) (ok zs) (agreed h) (agreed hs) = agreed (h, hs)
both-Agrees (ok y) (ok z) (raised e) (raised e') (agreed h) both_raise = both_raise
both-Agrees (raised e) (raised e') rs ss both_raise hs = both_raise
both-Agrees (ok y) (raised e) rs ss h hs = elim h [ ]
both-Agrees (raised e) (ok z) rs ss h hs = elim h [ ]
both-Agrees (ok y) (ok z) (ok ys) (raised e) h hs = elim hs [ ]
both-Agrees (ok y) (ok z) (raised e) (ok zs) h hs = elim hs [ ]

operations-Agrees :
    (operations : List Operation)
    → Agrees SaysEntries
        (map_result operation_payload operations)
        (map_result operation_meaning operations)
unfolding map_result
operations-Agrees [] = agreed tt
operations-Agrees (x ∷ xs) =
    both-Agrees (operation_payload x) (operation_meaning x) (map_result operation_payload xs)
      (map_result operation_meaning xs) (operation_payload-Agrees x) (operations-Agrees xs)

-- A transaction raises TransactionEmpty where it has no operation, TooManyTransactions where it has
-- more than 100, and else what the first of its operations raises that cannot be built. Otherwise it
-- sends one entry for each operation, in order, under the name of its kind. The expressions in each,
-- read with the names and values in the same entry, are those of the operation, the entry holds no
-- other expression, and each of its names and values stands in one of them.
pub transact_payload-Agrees :
    (operations : List Operation)
    → Agrees SaysEntries (transact_payload operations) (transaction_meaning operations)
unfolding transact_payload transaction_meaning
transact_payload-Agrees [] = both_raise
transact_payload-Agrees (x ∷ xs) =
    rw (not_empty_length x xs) (elim (Bool-cases (ltb 100 (length (x ∷ xs)))) [
      | inl many ↦ rw many both_raise
      | inr few ↦ rw few (operations-Agrees (x ∷ xs))
    ])
