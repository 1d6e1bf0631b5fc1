-- ===== src/Client/Payloads/Batches.antt =====
-- The sizes of transactions, and the writes of a batch that come back unprocessed, in client.py.
use aiodynamo.Prelude.{
  ◌≤◌, ◌≡◌, refl, String, List, [], ◌∷◌, ◌++◌, map, length, All, arith, inl, inr,
}
use aiodynamo.Errors.{Result, ok, map_result, Result-cases}
use aiodynamo.Values.{Value, Fields, TaggedFields, py2dy, dy2py}
use aiodynamo.Values.RoundTrip.{AreStorableFields, dy2py-serialize_dict}
use aiodynamo.Client.Payloads.{Payload}
use aiodynamo.Client.Payloads.Items.{
  Operation, operation_payload, transact_payload, WriteRequest, delete_request, put_request,
  batch_write_payload, unprocessed,
}

length-map_result {ℓ κ} :
    {A : Type ℓ} {B : Type κ} (f : A → Result B) (xs : List A) (ys : List B)
    → map_result f xs ≡ ok ys
    → length ys ≡ length xs
unfolding map_result
length-map_result f [] ys h = ground arith
length-map_result f (x ∷ xs) ys h = elim (Result-cases (f x)) [
  | inl (y, first) ↦ elim (Result-cases (map_result f xs)) [
    | inl (zs, rest) ↦ ground (arith, length-map_result f xs zs rest)
    | inr (e, rest) ↦ absurd (ground arith)
  ]
  | inr (e, first) ↦ absurd (ground arith)
]

-- A transaction that is sent has between 1 and 100 operations and sends one entry for each.
length-transact_payload :
    (operations : List Operation) (entries : List (String × Payload))
    → transact_payload operations ≡ ok entries
    → (1 ≤ length operations) × (length operations ≤ 100) × (length entries ≡ length operations)
unfolding transact_payload
length-transact_payload operations entries h =
    ground (arith, length-map_result operation_payload operations entries)

module _ (numeric_type : String → Result Value) where
  -- Items that come back as they were.
  abbrev pub AllStorable : List Fields → Type 0
  AllStorable = All (AreStorableFields numeric_type)

  puts_back :
      (xs : List Fields)
      → AllStorable xs
      → (ys : List TaggedFields) × (map_result py2dy xs ≡ ok ys)
        × (unprocessed (dy2py numeric_type) (map put_request ys) ≡ ok ([], xs))
  unfolding map_result py2dy unprocessed
  puts_back [] h = ([], refl, refl)
  puts_back (x ∷ xs) h =
      let (y, there, back) = dy2py-serialize_dict numeric_type x h.0 in
      let (ys, there', back') = puts_back xs h.1 in (y ∷ ys, rw (there, there'), rw (back, back'))

  deletes_back :
      (keys xs : List Fields) (puts : List WriteRequest)
      → AllStorable keys
      → unprocessed (dy2py numeric_type) puts ≡ ok ([], xs)
      → (ys : List TaggedFields) × (map_result py2dy keys ≡ ok ys)
        × (unprocessed (dy2py numeric_type) (map delete_request ys ++ puts) ≡ ok (keys, xs))
  unfolding map_result py2dy unprocessed
  deletes_back [] xs puts h rest = ([], refl, rest)
  deletes_back (k ∷ keys) xs puts h rest =
      let (y, there, back) = dy2py-serialize_dict numeric_type k h.0 in
      let (ys, there', back') = deletes_back keys xs puts h.1 rest in
      (y ∷ ys, rw (there, there'), rw (back, back'))

  -- A batch of storable keys to delete and items to put (whose values are read back as themselves, so
  -- with lists but no tuples) serializes, and if all its writes come back unprocessed, in order, these
  -- keys are reported as not deleted and these items as not put.
  pub unprocessed-batch_write_payload :
      (keys xs : List Fields)
      → AllStorable keys
      → AllStorable xs
      → (ws : List WriteRequest) × (batch_write_payload keys xs ≡ ok ws)
        × (unprocessed (dy2py numeric_type) ws ≡ ok (keys, xs))
  unfolding batch_write_payload
  unprocessed-batch_write_payload keys xs hk hx =
      let (ps, put, puts) = puts_back xs hx in
      let (ds, deleted, back) = deletes_back keys xs (map put_request ps) hk puts in
      (map delete_request ds ++ map put_request ps, rw (deleted, put), back)
