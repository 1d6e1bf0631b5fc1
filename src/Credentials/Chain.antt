-- ===== src/Credentials/Chain.antt =====
-- ChainCredentials of credentials.py, over any provider.
use aiodynamo.Prelude.{
  ◌⊎◌, inl, inr, ℕ, zero, suc, ◌≡◌, ◌≢◌, refl, Bool, true, false, Option, none, some, List, [], ◌∷◌,
  if◌then◌else◌, All,
}
use aiodynamo.Errors.{Result, ok, raised}

-- A provider, of class Credentials, by its three methods: each is handed the provider's state, and
-- `get_key` and `invalidate` give a new one. `Key` is the class Key.
pub record Provider (Key S : Type 0) : Type 0 where
  pub get_key : S → Result (Option Key) × S
  pub invalidate : S → Bool × S
  pub is_disabled : S → Bool

-- `_candidates`, each a state of the provider, and the position of `_chosen` among them.
pub record Chain (S : Type 0) : Type 0 where
  pub candidates : List S
  pub chosen : Option ℕ

module _ {Key S : Type 0} (provider : Provider Key S) where
  open provider use {get_key, invalidate, is_disabled}

  unfoldable pub enabled : List S → List S
  enabled [] = []
  enabled (s ∷ ss) = let rest = enabled ss in if is_disabled s then rest else s ∷ rest

  -- `ChainCredentials(candidates)`
  unfoldable pub make_chain : List S → Chain S
  unfolding enabled
  make_chain candidates = record { candidates = enabled candidates; chosen = none }

  -- What the loop has found: no key, or the key and the place of its candidate.
  abbrev pub Found : Type 0
  Found = Option (ℕ × Key)

  abbrev pub shift : Found → Found
  shift none = none
  shift (some (i, key)) = some (suc i, key)

  -- One round of the loop of `get_key`: an exception, as no key, goes on to the next candidate.
  abbrev pub tried : S → Found × List S → Result (Option Key) → List S → Found × List S
  tried s rest (raised e) ss = (shift rest.0, s ∷ rest.1)
  tried s rest (ok none) ss = (shift rest.0, s ∷ rest.1)
  tried s rest (ok (some key)) ss = (some (zero, key), s ∷ ss)

  unfoldable pub first_key : List S → Found × List S
  first_key [] = (none, [])
  first_key (s ∷ ss) =
      let rest : Found × List S = first_key ss in let (r, s') = get_key s in tried s' rest r ss

  -- `self._chosen.get_key(http)`, at its place.
  unfoldable pub key_at : ℕ → List S → Result (Option Key) × List S
  key_at i [] = (ok none, [])
  key_at zero (s ∷ ss) = let (r, s') = get_key s in (r, s' ∷ ss)
  key_at (suc i) (s ∷ ss) = let (r, ss') = key_at i ss in (r, s ∷ ss')

  abbrev pub choose : Found × List S → Result (Option Key) × Chain S
  choose (none, ss) = (ok none, record { candidates = ss; chosen = none })
  choose (some (i, key), ss) = (ok (some key), record { candidates = ss; chosen = some i })

  abbrev pub key_of : Option ℕ → List S → Result (Option Key) × Chain S
  key_of none ss = choose (first_key ss)
  key_of (some i) ss =
      let (r, ss') = key_at i ss in (r, record { candidates = ss'; chosen = some i })

  -- `ChainCredentials.get_key`
  unfoldable pub chain_get_key : Chain S → Result (Option Key) × Chain S
  unfolding first_key key_at
  chain_get_key c = key_of c.chosen c.candidates

  -- `any(candidate.invalidate() for candidate in self._candidates)`: the candidates behind the
  -- first that was invalidated are not asked.
  unfoldable pub invalidate_first : List S → Bool × List S
  invalidate_first [] = (false, [])
  invalidate_first (s ∷ ss) =
      let rest : Bool × List S = invalidate_first ss in
      let (done, s') = invalidate s in if done then (true, s' ∷ ss) else (rest.0, s' ∷ rest.1)

  unfoldable pub chain_invalidate : Chain S → Bool × Chain S
  unfolding invalidate_first
  chain_invalidate c =
      let (done, ss) = invalidate_first c.candidates in (done, record c { candidates = ss })

  unfoldable pub chain_is_disabled : Chain S → Bool
  chain_is_disabled c = elim c.candidates [ [] ↦ true | s ∷ ss ↦ false ]

  -- A candidate that gives no key: it raises or answers None.
  abbrev pub GivesNone : S → Type 0
  GivesNone s = (key : Key) → (get_key s).0 ≢ ok (some key)

  -- The candidate at place `i` of the list gives this key, and none before it gives one.
  pub data IsFirst : List S → ℕ → Key → Type 0 where
    here :
        {s : S} {ss : List S} {key : Key}
        → (get_key s).0 ≡ ok (some key)
        → IsFirst (s ∷ ss) zero key
    there :
        {s : S} {ss : List S} {i : ℕ} {key : Key}
        → GivesNone s
        → IsFirst ss i key
        → IsFirst (s ∷ ss) (suc i) key

  Agrees : List S → Found × List S → Type 0
  Agrees ss (none, _) = All GivesNone ss
  Agrees ss (some (i, key), _) = IsFirst ss i key

  tried-Agrees :
      (s : S) (ss : List S) (rest : Found × List S) (r : Result (Option Key)) (s' : S)
      → (get_key s).0 ≡ r
      → Agrees ss rest
      → Agrees (s ∷ ss) (tried s' rest r ss)
  unfolding Agrees
  tried-Agrees s ss (none, _) (raised e) s' h a = (λ key' same. cc, a)
  tried-Agrees s ss (none, _) (ok none) s' h a = (λ key' same. cc, a)
  tried-Agrees s ss (some (i, key), _) (raised e) s' h a = there (λ key' same. cc) a
  tried-Agrees s ss (some (i, key), _) (ok none) s' h a = there (λ key' same. cc) a
  tried-Agrees s ss rest (ok (some key)) s' h a = here h

  first_key-Agrees : (ss : List S) → Agrees ss (first_key ss)
  unfolding first_key Agrees
  first_key-Agrees [] = tt
  first_key-Agrees (s ∷ ss) =
      tried-Agrees s ss (first_key ss) (get_key s).0 (get_key s).1 refl (first_key-Agrees ss)

  -- What a call of `get_key` on the candidates `ss` gave: None, as they all give no key, or the key
  -- of the first that gives one, which is then the chosen one.
  abbrev pub Chosen : List S → Result (Option Key) × Chain S → Type 0
  Chosen ss (r, c) =
      ((r ≡ ok none) × (c.chosen ≡ none) × All GivesNone ss)
      ⊎ ((i : ℕ) × (key : Key) × (r ≡ ok (some key)) × (c.chosen ≡ some i) × IsFirst ss i key)

  choose-Chosen : (ss : List S) (f : Found × List S) → Agrees ss f → Chosen ss (choose f)
  unfolding Agrees
  choose-Chosen ss (none, _) a = inl (refl, refl, a)
  choose-Chosen ss (some (i, key), _) a = inr (i, key, refl, refl, a)

  key_of-Chosen : (o : Option ℕ) (ss : List S) → o ≡ none → Chosen ss (key_of o ss)
  key_of-Chosen none ss h = choose-Chosen ss (first_key ss) (first_key-Agrees ss)
  key_of-Chosen (some i) ss h = absurd cc

  -- While no candidate is chosen, `get_key` never raises, whatever the candidates raise. It gives
  -- the key of the first candidate that gives one and chooses that candidate, or it gives None and
  -- chooses none when every candidate raises or gives None.
  pub chain_get_key-Chosen : (c : Chain S) → c.chosen ≡ none → Chosen c.candidates (chain_get_key c)
  unfolding chain_get_key
  chain_get_key-Chosen c h = key_of-Chosen c.chosen c.candidates h
