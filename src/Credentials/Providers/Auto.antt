-- ===== src/Credentials/Providers/Auto.antt =====
-- The keys that `Credentials.auto` of credentials.py finds.
use aiodynamo.Prelude.{ap, ◌∙◌, ℕ, ◌≡◌, refl, Bool, true, false, Option, none, some, List, [], ◌∷◌}
use aiodynamo.Errors.{Exception, Result, ok, raised}
use aiodynamo.Credentials.Keys.{Key}
use aiodynamo.Credentials.Chain.{make_chain, enabled, chain_get_key, first_key, tried, choose}
use aiodynamo.Credentials.Providers.{
  Candidate, static, environment, file, metadata, get_key, is_disabled, candidate, auto,
}

infixr 20 ◌or_else◌
-- The key of the first that gives one.
abbrev pub ◌or_else◌ {ℓ} : {A : Type ℓ} → Option A → Option A → Option A
none or_else y = y
some a or_else y = some a

-- The key of a metadata provider, if it is enabled and its metadata is at hand.
abbrev pub metadata_key : Bool → Result Key → Option Key
metadata_key true refreshed = none
metadata_key false (ok key) = some key
metadata_key false (raised e) = none

abbrev pub found_key : Candidate → Option Key
found_key (static key) = key
found_key (environment key) = key
found_key (file key) = key
found_key (metadata disabled refreshed) = metadata_key disabled refreshed

abbrev pub first_found : List Candidate → Option Key
first_found [] = none
first_found (c ∷ cs) = found_key c or_else first_found cs

abbrev key_found : Option (ℕ × Key) → Option Key
key_found none = none
key_found (some (i, key)) = some key

tried_none :
    (s : Candidate) (rest : Option (ℕ × Key) × List Candidate) (ss : List Candidate)
    → key_found (tried candidate s rest (ok none) ss).0 ≡ key_found rest.0
tried_none s (none, _) ss = refl
tried_none s (some (i, key), _) ss = refl

tried_raised :
    (s : Candidate) (rest : Option (ℕ × Key) × List Candidate) (ss : List Candidate) (e : Exception)
    → key_found (tried candidate s rest (raised e) ss).0 ≡ key_found rest.0
tried_raised s (none, _) ss e = refl
tried_raised s (some (i, key), _) ss e = refl

first_key-found :
    (cs : List Candidate)
    → key_found (first_key candidate (enabled candidate cs)).0 ≡ first_found cs
unfolding first_key enabled get_key is_disabled
first_key-found [] = refl
first_key-found (static (some key) ∷ cs) = refl
first_key-found (static none ∷ cs) =
    tried_none (static none) (first_key candidate (enabled candidate cs)) (enabled candidate cs)
    ∙ first_key-found cs
first_key-found (environment (some key) ∷ cs) = refl
first_key-found (environment none ∷ cs) = first_key-found cs
first_key-found (file (some key) ∷ cs) = refl
first_key-found (file none ∷ cs) = first_key-found cs
first_key-found (metadata true refreshed ∷ cs) = first_key-found cs
first_key-found (metadata false (ok key) ∷ cs) = refl
first_key-found (metadata false (raised e) ∷ cs) =
    tried_raised (metadata false (raised e)) (first_key candidate (enabled candidate cs))
      (enabled candidate cs) e
    ∙ first_key-found cs

chosen_key : (f : Option (ℕ × Key) × List Candidate) → (choose candidate f).0 ≡ ok (key_found f.0)
chosen_key (none, ss) = refl
chosen_key (some (i, key), ss) = refl

-- The first `get_key` of `Credentials.auto()` gives the key of the environment if there is one, else
-- that of the credentials file, else that of the first of the container, IMDSv2 and IMDSv1 providers
-- that is enabled and whose metadata can be had, and None if there is none of these. It does not raise.
pub auto-found :
    (from_environment from_file : Option Key) (container instance_v2 instance_v1 : Candidate)
    → (chain_get_key candidate
        (auto from_environment from_file container instance_v2 instance_v1)).0
      ≡ ok (
          from_environment
          or_else from_file
          or_else found_key container
          or_else found_key instance_v2
          or_else found_key instance_v1
          or_else none)
unfolding auto chain_get_key make_chain
auto-found from_environment from_file container instance_v2 instance_v1 =
    let cs =
      environment from_environment ∷ file from_file ∷ container ∷ instance_v2 ∷ instance_v1 ∷ [] in
    chosen_key (first_key candidate (enabled candidate cs)) ∙ ap ok (first_key-found cs)
