-- ===== src/Client/Tables/Deletion.antt =====
-- How `delete_table` of client.py ends.
use aiodynamo.Prelude.{ℕ, ◌≡◌, ◌⊎◌, inl, inr, refl, ap, true, Option, some, arith, Bool-cases}
use aiodynamo.Errors.{
  Exception, Result, ok, raised, dynamo_error, table_not_found, table_did_not_become_disabled,
}
use aiodynamo.Models.Tables.{TableDescription, RawDescription}
use aiodynamo.Models.Retry.{WaitConfig, no_wait, wait}
use aiodynamo.Client.Tables.{described, is_not_found, checked_gone, delete_table}
use aiodynamo.Client.Tables.Waits.{EndsBefore, Finished, wait-Finished}

module _ (describe : ℕ → Result (Option RawDescription)) where
  -- What `delete_table` gives: it returns after the table was not found, unless the caller does not
  -- wait; it raises what a response raised, or TableDidNotBecomeDisabled.
  abbrev pub IsGone : WaitConfig → Result (Unit {0}) → Result (Unit {0}) → Type 0
  IsGone config delete (ok s) =
      (delete ≡ ok s)
      × ((config ≡ no_wait)
          ⊎ ((k : ℕ) × (described (describe k) ≡ raised (dynamo_error table_not_found))))
  IsGone config delete (raised e) =
      (delete ≡ raised e)
      ⊎ ((k : ℕ) × (described (describe k) ≡ raised e))
      ⊎ (e ≡ table_did_not_become_disabled)

  is_not_found-eq : (e : Exception) → is_not_found e ≡ true → e ≡ dynamo_error table_not_found
  is_not_found-eq (dynamo_error table_not_found) h = refl
  is_not_found-eq _ h = cc

  checked_gone-true :
      (s : Unit {0}) (r : Result TableDescription)
      → checked_gone r ≡ ok (true, s)
      → r ≡ raised (dynamo_error table_not_found)
  checked_gone-true s (ok x) h = absurd (ground arith)
  checked_gone-true s (raised e) h = elim (Bool-cases (is_not_found e)) [
    | inl gone ↦ ap raised (is_not_found-eq e gone)
    | inr other ↦ absurd (ground arith)
  ]

  checked_gone-raised :
      (e : Exception) (r : Result TableDescription) → checked_gone r ≡ raised e → r ≡ raised e
  checked_gone-raised e (ok x) h = absurd (ground arith)
  checked_gone-raised e (raised x) h = ground arith

  delete-IsGone :
      (config : WaitConfig) (y : Result (Unit {0}))
      → Finished
          (λ k s. checked_gone (described (describe k)))
          table_did_not_become_disabled
          config
          tt
          y
      → IsGone config (ok tt) y
  delete-IsGone config (ok s) (inl (instant, same)) = (refl, inl instant)
  delete-IsGone config (ok s) (inr (k, u, held)) =
      (refl, inr (k, checked_gone-true s (described (describe k)) held))
  delete-IsGone config (raised e) (inl (k, u, failed)) =
      inr (inl (k, checked_gone-raised e (described (describe k)) failed))
  delete-IsGone config (raised e) (inr same) = inr (inr same)

  -- Where the caller does not wait, or the wait ends at an attempt before `fuel`, `delete_table` returns or
  -- raises. It returns only if its own response was no error, and the caller does not wait or some
  -- later description of the table raised TableNotFound. It raises what its own response or one of
  -- those descriptions raised, or TableDidNotBecomeDisabled.
  pub delete_table-IsGone :
      (delete : Result (Unit {0})) (fuel : ℕ) (config : WaitConfig)
      → EndsBefore fuel config
      → (y : Result (Unit {0})) × (delete_table fuel config delete describe ≡ some y)
        × IsGone config delete y
  unfolding delete_table described wait
  delete_table-IsGone (raised e) fuel config h = (raised e, refl, inl refl)
  delete_table-IsGone (ok s) fuel config h =
      let check = λ (k : ℕ) (s : Unit {0}). checked_gone (described (describe k)) in
      let (y, same, finished) =
        wait-Finished check table_did_not_become_disabled fuel config tt h in
      (y, same, delete-IsGone config y finished)
