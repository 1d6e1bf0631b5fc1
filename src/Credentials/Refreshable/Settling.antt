-- ===== src/Credentials/Refreshable/Settling.antt =====
-- That the tasks and the waiting callers of a Refreshable of credentials.py come to an end.
use aiodynamo.Prelude.{
  ℕ, zero, suc, ◌+◌, ◌<◌, ◌≤◌, ◌≡◌, ◌⊎◌, inl, inr, refl, sym, ap, subst, ◌∙◌, true, false, Option,
  none, some, List, [], ◌∷◌, ◌++◌, All, arith, Bool-cases, Option-cases, length, length-append,
}
use aiodynamo.Errors.{Result, ok, raised, timeout_error}
use aiodynamo.Credentials.Refreshable.{
  Phase, running, done, settled, World, finish, set_current, call_back, resume, result_of, Serve,
  finishes, calls_back, resumes, Reach,
}
use aiodynamo.Credentials.Refreshable.Flights.{is_settled, Inv, Serve-Inv, Reach-Inv}

module _ {T : Type 0} where
  -- No refresh is under way and no caller waits.
  abbrev pub IsQuiet : World T → Type 0
  IsQuiet w = (w.active ≡ none) × (w.waiting ≡ [])

  -- However tasks end and callers go on, without a new call the world comes to hold `P`: it does so
  -- now, or some step is possible and it does so after whichever is taken.
  pub data Inevitably (P : World T → Type 0) : World T → Type 0 where
    now : {w : World T} → P w → Inevitably P w
    next :
        {w : World T} (u : World T)
        → Serve w u
        → ((u' : World T) → Serve w u' → Inevitably P u')
        → Inevitably P w

  abbrev weight : Phase T → ℕ
  weight running = 2
  weight (done r) = 1
  weight (settled r) = 0

  abbrev pending : (ℕ → Phase T) → Option ℕ → ℕ
  pending phase none = 0
  pending phase (some i) = weight (phase i)

  abbrev measure : World T → ℕ
  measure w = pending w.phase w.active + length w.waiting

  measure-set_current : (r : Result T) (w : World T) → measure (set_current r w) ≡ measure w
  measure-set_current (ok v) w = refl
  measure-set_current (raised e) w = refl

  cleared_measure :
      (i : ℕ) (r : Result T) (w : World T) → measure (call_back i r w) ≡ length w.waiting
  unfolding call_back
  cleared_measure i r w = elim (Bool-cases (w.sets_current i)) [
    | inl set ↦ rw set (measure-set_current r _ ∙ omega arith)
    | inr unset ↦ rw unset (omega arith)
  ]

  measure-Serve : {w w' : World T} → Inv w → Serve w w' → measure w' < measure w
  unfolding finish resume
  measure-Serve {w} inv (finishes i r h at same) =
      let active : w.active ≡ some i = inv.others i h (ap is_settled at) in
      subst (λ u. measure u < measure w) (sym same) (ground arith)
  measure-Serve {w} inv (calls_back i r h at same) =
      let active : w.active ≡ some i = inv.others i h (ap is_settled at) in
      subst (λ u. measure u < measure w) (sym same) (ground (arith, cleared_measure i r w))
  measure-Serve {w} inv (resumes i r front back waits at same) =
      subst (λ u. measure u < measure w) (sym same)
        (omega (
          arith,
          measure-set_current r (record w { waiting = front ++ back }),
          ap length waits,
          length-append front (i ∷ back),
          length-append front back,
        ))

  after_active : (w : World T) (i : ℕ) → Inv w → w.active ≡ some i → (w' : World T) × Serve w w'
  after_active w i inv active =
      let (low, flying) = inv.flying i active in go (w.phase i) refl low flying
    where
      go :
          (p : Phase T)
          → w.phase i ≡ p
          → i < w.started
          → is_settled (w.phase i) ≡ false
          → (w' : World T) × Serve w w'
      go running at low flying =
          (finish i (raised timeout_error) w, finishes i (raised timeout_error) low at refl)
      go (done r) at low flying = (call_back i r w, calls_back i r low at refl)
      go (settled r) at low flying = absurd (ground arith)

  settled-result : (p : Phase T) → is_settled p ≡ true → (r : Result T) × (result_of p ≡ some r)
  settled-result (settled r) h = (r, refl)
  settled-result running h = cc
  settled-result (done r) h = cc

  after_waiting :
      (w : World T) (i : ℕ) (is : List ℕ)
      → Inv w
      → w.active ≡ none
      → w.waiting ≡ i ∷ is
      → (w' : World T) × Serve w w'
  after_waiting w i is inv idle waits =
      let low = (subst (All (λ j. j < w.started)) waits inv.known).0 in
      elim (Bool-cases (is_settled (w.phase i))) [
        | inl there ↦
            let (r, at) = settled-result (w.phase i) there in
            ((resume is r w).1, resumes i r [] is waits at refl)
        | inr flying ↦ absurd (ground (arith, inv.others i low flying))
      ]

  progress : (w : World T) → Inv w → IsQuiet w ⊎ ((w' : World T) × Serve w w')
  progress w inv = elim (Option-cases w.active) [
    | inr (i, active) ↦ inr (after_active w i inv active)
    | inl idle ↦ go w.waiting refl idle
  ]
    where
      go :
          (is : List ℕ)
          → w.waiting ≡ is
          → w.active ≡ none
          → IsQuiet w ⊎ ((w' : World T) × Serve w w')
      go [] waits idle = inl (idle, waits)
      go (i ∷ is) waits idle = inr (after_waiting w i is inv idle waits)

  settles_within : (n : ℕ) (w : World T) → Inv w → measure w ≤ n → Inevitably IsQuiet w
  settles_within zero w inv h = elim (progress w inv) [
    | inl quiet ↦ now quiet
    | inr (w', s) ↦ absurd (omega (arith, measure-Serve inv s))
  ]
  settles_within (suc n) w inv h = elim (progress w inv) [
    | inl quiet ↦ now quiet
    | inr (w', s) ↦
        next w' s (λ u t. settles_within n u (Serve-Inv t inv) (omega (arith, measure-Serve inv t)))
  ]

  -- From every state that is reached, with no new call of `get`: in whichever order tasks end, with
  -- whichever results, and callers go on, every caller that waits is answered and no refresh is left
  -- under way. A failed refresh blocks nobody.
  pub settles : {w : World T} → Reach w → Inevitably IsQuiet w
  settles {w} r = settles_within (measure w) w (Reach-Inv r) (omega arith)
