-- ===== src/Credentials/Fetch.antt =====
-- `fetch_with_retry_and_timeout` of credentials.py. What the HTTP call does in each attempt is the
-- environment's.
use aiodynamo.Prelude.{
  Bool-cases, nat_eq_iff, ◌∙◌, ap, ◌≢◌, sym, subst, ℕ, zero, suc, ◌+◌, ◌≤◌, ◌<◌, ◌≡◌, refl, Bool,
  true, false, Option, none, some, arith, nat_eq, if◌then◌else◌, ◌⊎◌, inl, inr,
}
use aiodynamo.Http.{Outcome, responded, timeout, request_failed, http_raised}
use aiodynamo.Errors.{Exception, Result, ok, raised, too_many_retries}

module _ {Bytes : Type 0} (http : ℕ → Outcome Bytes) where
  -- What follows the loop.
  abbrev pub given_up : Option Exception → Result Bytes
  given_up (some e) = raised e
  given_up none = raised too_many_retries

  abbrev pub fetched :
      Outcome Bytes → Option Exception → (Option Exception → Result Bytes) → Result Bytes
  fetched timeout exception rest = rest exception
  fetched (request_failed inner) exception rest = rest (some inner)
  fetched (http_raised e) exception rest = raised e
  fetched (responded status body) exception rest =
      if nat_eq status 200 then ok body else rest exception

  -- The attempts that are left, from the i-th on.
  unfoldable pub fetch_loop : ℕ → ℕ → Option Exception → Result Bytes
  fetch_loop zero i exception = given_up exception
  fetch_loop (suc n) i exception =
      let rest : Option Exception → Result Bytes = fetch_loop n (i + 1) in
      fetched (http i) exception rest

  unfoldable pub fetch_with_retry_and_timeout : ℕ → Result Bytes
  unfolding fetch_loop
  fetch_with_retry_and_timeout max_attempts = fetch_loop max_attempts 0 none

  -- An answer that the loop does not end with.
  abbrev pub GoesOn : Outcome Bytes → Type 0
  GoesOn (responded status body) = status ≢ 200
  GoesOn timeout = Unit
  GoesOn (request_failed inner) = Unit
  GoesOn (http_raised e) = ⊥

  -- How a run over the attempts from `i` to before `i + n` may end.
  abbrev pub Ends : ℕ → ℕ → Result Bytes → Type 0
  Ends n i r =
      ((j : ℕ) × (i ≤ j)
        × (j < i + n)
        × (body : Bytes) × (http j ≡ responded 200 body)
        × (r ≡ ok body))
      ⊎ ((j : ℕ) × (i ≤ j)
          × (j < i + n)
          × (e : Exception) × (http j ≡ http_raised e)
          × (r ≡ raised e))
      ⊎ (((j : ℕ) → i ≤ j → j < i + n → GoesOn (http j)) × ((e : Exception) × (r ≡ raised e)))

  given_up_raises : (o : Option Exception) → (e : Exception) × (given_up o ≡ raised e)
  given_up_raises (some e) = (e, refl)
  given_up_raises none = (too_many_retries, refl)

  later : (n i : ℕ) (r : Result Bytes) → GoesOn (http i) → Ends n (i + 1) r → Ends (suc n) i r
  later n i r goes (inl (j, low, high, body, at, same)) =
      inl (j, omega arith, omega arith, body, at, same)
  later n i r goes (inr (inl (j, low, high, e, at, same))) =
      inr (inl (j, omega arith, omega arith, e, at, same))
  later n i r goes (inr (inr (all, raises))) = inr (
      inr (
        λ j low high. elim (Bool-cases (nat_eq i j)) [
          | inl same ↦ subst (λ k. GoesOn (http k)) ((nat_eq_iff i j).0 same) goes
          | inr apart ↦ all j (ground arith) (omega arith)
        ],
        raises,
      ))

  responded-Ends :
      (n i status : ℕ) (body : Bytes) (r : Result Bytes) (b : Bool)
      → http i ≡ responded status body
      → nat_eq status 200 ≡ b
      → Ends n (i + 1) r
      → Ends (suc n) i (if b then ok body else r)
  responded-Ends n i status body r true at h ends = inl (
    i,
    omega arith,
    omega arith,
    body,
    at ∙ ap (λ k. responded k body) ((nat_eq_iff status 200).0 h),
    refl,
  )
  responded-Ends n i status body r false at h ends =
      later n i r (subst GoesOn (sym at) (λ same. ground (arith, same))) ends

  fetched-Ends :
      (n i : ℕ) (x : Outcome Bytes) (exception : Option Exception)
      (rest : Option Exception → Result Bytes)
      → http i ≡ x
      → ((o : Option Exception) → Ends n (i + 1) (rest o))
      → Ends (suc n) i (fetched x exception rest)
  fetched-Ends n i timeout exception rest at ih =
      later n i (rest exception) (subst GoesOn (sym at) tt) (ih exception)
  fetched-Ends n i (request_failed inner) exception rest at ih =
      later n i (rest (some inner)) (subst GoesOn (sym at) tt) (ih (some inner))
  fetched-Ends n i (http_raised e) exception rest at ih =
      inr (inl (i, omega arith, omega arith, e, at, refl))
  fetched-Ends n i (responded status body) exception rest at ih =
      responded-Ends n i status body (rest exception) (nat_eq status 200) at refl (ih exception)

  fetch_loop-Ends : (n i : ℕ) (exception : Option Exception) → Ends n i (fetch_loop n i exception)
  unfolding fetch_loop
  fetch_loop-Ends zero i exception =
      inr (inr (λ j low high. absurd (omega arith), given_up_raises exception))
  fetch_loop-Ends (suc n) i exception =
      fetched-Ends n i (http i) exception (fetch_loop n (i + 1)) refl
        (λ o. fetch_loop-Ends n (i + 1) o)

  -- With `max_attempts` attempts the function gives the body of a response of status 200 to one of
  -- them, or raises an exception that one of them raised, or raises after every attempt was a
  -- timeout, a failed request or a response of another status.
  pub fetch_with_retry_and_timeout-Ends :
      (max_attempts : ℕ) → Ends max_attempts 0 (fetch_with_retry_and_timeout max_attempts)
  unfolding fetch_with_retry_and_timeout
  fetch_with_retry_and_timeout-Ends max_attempts = fetch_loop-Ends max_attempts 0 none
