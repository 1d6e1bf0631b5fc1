-- ===== src/Prelude/Dict.antt =====
-- Python's `dict`: an association list in insertion order.
use mathlib.Core.Path.{◌≡◌, refl, subst}
use mathlib.Core.Option.{Option, none, some}
use mathlib.Core.List.{List, [], ◌∷◌}
use native.Mathlib.Omega.{arith}
use aiodynamo.Prelude.Tests.{Keyed, ◌==◌, if◌then◌else◌, Bool-cases}
use mathlib.Core.Logic.{inl, inr}

abbrev pub Dict {ℓ κ} : Type ℓ → Type κ → Type (ℓ ⊔ κ)
Dict K V = List (K × V)

module _ {ℓ κ} {K : Type ℓ} {V : Type κ} ⦃e : Keyed K⦄ where
  -- `d[k]`, with `none` for KeyError.
  unfoldable pub lookup : K → Dict K V → Option V
  lookup k [] = none
  lookup k ((j, v) ∷ d) = if j == k then some v else lookup k d

  -- `d[k] = v`: an old key keeps its place, a new one comes last.
  unfoldable pub insert : K → V → Dict K V → Dict K V
  insert k v [] = (k, v) ∷ []
  insert k v ((j, w) ∷ d) = if j == k then (j, v) ∷ d else (j, w) ∷ insert k v d

  -- `d.update(other)`.
  unfoldable pub update : Dict K V → Dict K V → Dict K V
  update d [] = d
  update d ((k, v) ∷ other) = update (insert k v d) other

  pub lookup-insert :
      (k j : K) (v : V) (d : Dict K V)
      → lookup j (insert k v d) ≡ (if k == j then some v else lookup j d)
  unfolding lookup insert
  lookup-insert k j v [] = refl
  lookup-insert k j v ((i, w) ∷ d) =
      ground (arith, e.same_iff k j, e.same_iff i k, e.same_iff i j, lookup-insert k j v d)

  abbrev pub AllKeys {μ} : (K → Type μ) → Dict K V → Type μ
  AllKeys P [] = Unit
  AllKeys P ((k, v) ∷ d) = P k × AllKeys P d

  pub AllKeys-insert {μ} :
      (P : K → Type μ) (k : K) (v : V) (d : Dict K V) → P k → AllKeys P d → AllKeys P (insert k v d)
  unfolding insert
  AllKeys-insert P k v [] h all = (h, tt)
  AllKeys-insert P k v ((j, w) ∷ d) h all = elim (Bool-cases (j == k)) [
    | inl same ↦ rw same (all.0, all.1)
    | inr apart ↦ rw apart (all.0, AllKeys-insert P k v d h all.1)
  ]

  pub AllKeys-map {μ} :
      (P Q : K → Type μ) → ((k : K) → P k → Q k) → (d : Dict K V) → AllKeys P d → AllKeys Q d
  AllKeys-map P Q f [] all = tt
  AllKeys-map P Q f ((k, v) ∷ d) all = (f k all.0, AllKeys-map P Q f d all.1)

  pub AllKeys-lookup {μ} :
      (P : K → Type μ) (k : K) (v : V) (d : Dict K V) → AllKeys P d → lookup k d ≡ some v → P k
  unfolding lookup
  AllKeys-lookup P k v [] all h = cc
  AllKeys-lookup P k v ((j, w) ∷ d) all h = elim (Bool-cases (j == k)) [
    | inl same ↦ subst P ((e.same_iff j k).0 same) all.0
    | inr apart ↦ AllKeys-lookup P k v d all.1 (ground arith)
  ]
