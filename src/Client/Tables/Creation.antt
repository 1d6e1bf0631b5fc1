-- ===== src/Client/Tables/Creation.antt =====
-- How `create_table` of client.py ends.
use aiodynamo.Prelude.{
  ℕ, ◌≡◌, ◌⊎◌, inl, inr, refl, ap, true, false, ◌<◌, ◌≤◌, ◌+◌, Bool, Option, some, arith,
  Bool-cases,
}
use aiodynamo.Errors.{
  Exception, Result, ok, raised, table_did_not_become_active, dynamo_error, table_not_found,
}
use aiodynamo.Models.Tables.{
  TableDescription, RawDescription, TableStatus, creating, updating, deleting, active,
}
use aiodynamo.Models.Retry.{
  WaitConfig, no_wait, wait, Schedule, Reaches, check_step, retry, deadline, here, next,
}
use aiodynamo.Client.Tables.{
  CreateTable, described, is_active, checked_active, await_active, create_table,
}
use aiodynamo.Models.Retry.Waiting.{wait-Reaches}
use aiodynamo.Client.Tables.Waits.{EndsBefore, Finished, wait-Finished}

is_active-eq : (s : TableStatus) → is_active s ≡ true → s ≡ active
is_active-eq active h = refl
is_active-eq creating h = cc
is_active-eq updating h = cc
is_active-eq deleting h = cc

module _ (describe : ℕ → Result (Option RawDescription)) where
  -- What `create_table` gives, where its own response was described by `first`: the description that
  -- the response or a later one gave, active unless the caller does not wait; or what one of these
  -- raised, or TableDidNotBecomeActive.
  abbrev pub IsReady : WaitConfig → Result TableDescription → Result TableDescription → Type 0
  IsReady config first (ok d) =
      ((first ≡ ok d) × ((d.status ≡ active) ⊎ (config ≡ no_wait)))
      ⊎ ((k : ℕ) × (described (describe k) ≡ ok d) × (d.status ≡ active))
  IsReady config first (raised e) =
      (first ≡ raised e)
      ⊎ ((k : ℕ) × (described (describe k) ≡ raised e))
      ⊎ (e ≡ table_did_not_become_active)

  checked_active-true :
      (old d : TableDescription) (r : Result TableDescription)
      → checked_active old r ≡ ok (true, d)
      → (r ≡ ok d) × (d.status ≡ active)
  checked_active-true old d (ok x) h = elim (Bool-cases (is_active x.status)) [
    | inl up ↦
        let same : x ≡ d = ground arith in (rw same refl, is_active-eq d.status (ground arith))
    | inr down ↦ absurd (ground arith)
  ]
  checked_active-true old d (raised e) h = absurd (ground arith)

  checked_active-raised :
      (old : TableDescription) (e : Exception) (r : Result TableDescription)
      → checked_active old r ≡ raised e
      → r ≡ raised e
  checked_active-raised old e (ok x) h = absurd (ground arith)
  checked_active-raised old e (raised x) h = ground arith

  create-IsReady :
      (config : WaitConfig) (old : TableDescription) (y : Result TableDescription)
      → Finished
          (λ k d. checked_active d (described (describe k)))
          table_did_not_become_active
          config
          old
          y
      → IsReady config (ok old) y
  create-IsReady config old (ok d) (inl (instant, same)) = inl (ap ok same, inr instant)
  create-IsReady config old (ok d) (inr (k, u, held)) =
      let (found, up) = checked_active-true u d (described (describe k)) held in inr (k, found, up)
  create-IsReady config old (raised e) (inl (k, u, failed)) =
      inr (inl (k, checked_active-raised u e (described (describe k)) failed))
  create-IsReady config old (raised e) (inr same) = inr (inr same)

  await_active-IsReady :
      (fuel : ℕ) (config : WaitConfig) (first : Result TableDescription)
      → EndsBefore fuel config
      → (y : Result TableDescription) × (await_active fuel config describe first ≡ some y)
        × IsReady config first y
  unfolding described wait
  await_active-IsReady fuel config (raised e) h = (raised e, refl, inl refl)
  await_active-IsReady fuel config (ok d) h = elim (Bool-cases (is_active d.status)) [
    | inl up ↦ (ok d, rw up refl, inl (refl, inl (is_active-eq d.status up)))
    | inr down ↦
        let check =
          λ (k : ℕ) (old : TableDescription). checked_active old (described (describe k)) in
        let (y, same, finished) = wait-Finished check table_did_not_become_active fuel config d h in
        (y, rw down same, create-IsReady config d y finished)
  ]

  -- Where the caller does not wait, or the wait ends at an attempt before `fuel`, `create_table` returns or
  -- raises. It returns the description that its own response gave, if that is active or the caller
  -- does not wait, or else one that `describe_table` gave, which is active. It raises what its own
  -- response or one of those descriptions raised, or TableDidNotBecomeActive.
  pub create_table-IsReady :
      (create : CreateTable → Result (Option RawDescription)) (payload : CreateTable) (fuel : ℕ)
      (config : WaitConfig)
      → EndsBefore fuel config
      → (y : Result TableDescription) × (create_table fuel config create describe payload ≡ some y)
        × IsReady config (described (create payload)) y
  unfolding create_table
  create_table-IsReady create payload fuel config h =
      await_active-IsReady fuel config (described (create payload)) h

  -- From attempt `i` to attempt `k`, within the time limit: none finds an active table.
  pub data Pending (c : Schedule) (k : ℕ) : ℕ → Type 0 where
    reached : {i : ℕ} → i ≡ k → Pending c k i
    missing :
        {i : ℕ} (delay : ℕ)
        → c.delays i ≡ some delay
        → described (describe i) ≡ raised (dynamo_error table_not_found)
        → c.now i ≤ deadline c
        → Pending c k (i + 1)
        → Pending c k i
    inactive :
        {i : ℕ} (delay : ℕ) (d : TableDescription)
        → c.delays i ≡ some delay
        → described (describe i) ≡ ok d
        → is_active d.status ≡ false
        → c.now i ≤ deadline c
        → Pending c k (i + 1)
        → Pending c k i

  abbrev check_active : ℕ → TableDescription → Result (Bool × TableDescription)
  check_active k old = checked_active old (described (describe k))

  Pending-Reaches :
      (c : Schedule) (k : ℕ) {i : ℕ} (old : TableDescription)
      → Pending c k i
      → (t : TableDescription) × Reaches c (check_step check_active) k t i old
  Pending-Reaches c k old (reached same) = (old, here same refl)
  Pending-Reaches c k old (missing delay more gone early rest) =
      let (t, reach) = Pending-Reaches c k old rest in
      (t, next {u = old} delay more (rw gone refl) early reach)
  Pending-Reaches c k old (inactive delay d more found down early rest) =
      let (t, reach) = Pending-Reaches c k d rest in
      (t, next {u = d} delay more (rw (found, down) refl) early reach)

  -- If the response of `create_table` describes a table that is not active yet, every attempt before
  -- `k` finds no table or one that is not active, within the time limit, and attempt `k` describes an
  -- active one, then `create_table` returns the description of attempt `k`. Fuel above `k` is enough.
  pub create_table-Pending :
      (create : CreateTable → Result (Option RawDescription)) (payload : CreateTable) (c : Schedule)
      (fuel k delay : ℕ) (first d : TableDescription)
      → described (create payload) ≡ ok first
      → is_active first.status ≡ false
      → Pending c k 0
      → c.delays k ≡ some delay
      → described (describe k) ≡ ok d
      → is_active d.status ≡ true
      → k < fuel
      → create_table fuel (retry c) create describe payload ≡ some (ok d)
  unfolding create_table
  create_table-Pending create payload c fuel k delay first d created waits until more found up low =
      let (old, reach) = Pending-Reaches c k first until in
      let holds : check_active k old ≡ ok (true, d) = rw (found, up) refl in
      rw (created, waits, wait-Reaches check_active c fuel k delay first old d reach more holds low)
        refl
