-- ===== src/Expressions/Parameters/Placeholders/Invariant.antt =====
-- The invariant of the slots of `Parameters._encode` of expressions.py.
use aiodynamo.Prelude.{
  ℕ, ◌+◌, ◌≤◌, ◌<◌, ◌≡◌, ◌∙◌, ap, refl, String, false, Option, none, some, arith, Keyed,
  string_Keyed, str_eq, eq_iff, if◌then◌else◌, Option-cases, Bool-cases, inl, inr,
}
use aiodynamo.Prelude.Dict.{lookup, lookup-insert, AllKeys, AllKeys-insert, AllKeys-map}
use aiodynamo.Expressions.Parameters.Placeholders.{
  Slots, empty, placeholder, placeholder-injective, remember, find, add, encode,
}

-- The entries of `s` stand unchanged in `t`.
pub record Extends {ℓ κ} {K : Type ℓ} {V : Type κ} (s t : Slots K V) : Type κ where
  pub keeps : (p : String) (v : V) → lookup p s.entries ≡ some v → lookup p t.entries ≡ some v

pub Extends-refl {ℓ κ} : {K : Type ℓ} {V : Type κ} (s : Slots K V) → Extends s s
Extends-refl s = record { keeps = λ p v h. h }

pub Extends-trans {ℓ κ} :
    {K : Type ℓ} {V : Type κ} {s t u : Slots K V} → Extends s t → Extends t u → Extends s u
Extends-trans a b = record { keeps = λ p v h. b.keeps p v (a.keeps p v h) }

abbrev pub IsNumbered : String → ℕ → String → Type 0
IsNumbered prefix n p = (i : ℕ) × (i < n) × (p ≡ placeholder prefix i)

-- The slots agree with their cache: what is cached is an entry for a thing with that key, an entry
-- whose thing has a key is cached, no placeholder of a number still to come is an entry, and every
-- entry is at a placeholder of a number that has been given out.
pub record IsConsistent {ℓ κ} {K : Type ℓ} {V : Type κ} ⦃e : Keyed K⦄ (prefix : String)
    (key : V → Option K) (s : Slots K V) : Type (ℓ ⊔ κ) where
  pub cached :
      (k : K) (p : String)
      → lookup k s.cache ≡ some p
      → (v : V) × (lookup p s.entries ≡ some v) × (key v ≡ some k)
  pub listed :
      (p : String) (v : V) (k : K)
      → lookup p s.entries ≡ some v
      → key v ≡ some k
      → lookup k s.cache ≡ some p
  pub fresh : (i : ℕ) → s.index_gen ≤ i → lookup (placeholder prefix i) s.entries ≡ none
  pub numbered : AllKeys (IsNumbered prefix s.index_gen) s.entries

module _ {ℓ κ} {K : Type ℓ} {V : Type κ} ⦃e : Keyed K⦄ (prefix : String) (key : V → Option K)
    (key_injective : (k : K) (v w : V) → key v ≡ some k → key w ≡ some k → v ≡ w) where
  -- What a call of `_encode` with this thing promises.
  pub record Stands (thing : V) (s : Slots K V) (r : String × Slots K V) : Type (ℓ ⊔ κ) where
    pub consistent : IsConsistent prefix key r.1
    pub extends : Extends s r.1
    pub stands : lookup r.0 r.1.entries ≡ some thing

  pub empty-IsConsistent : IsConsistent {K = K} prefix key empty
  unfolding lookup
  empty-IsConsistent = record {
    cached = λ k p h. cc;
    listed = λ p v k h. cc;
    fresh = λ i h. refl;
    numbered = tt;
  }

  new-ne-old :
      (s : Slots K V)
      → IsConsistent prefix key s
      → (p : String) (v : V) → lookup p s.entries ≡ some v
      → str_eq (placeholder prefix s.index_gen) p ≡ false
  new-ne-old s c p v h =
      ground (arith, c.fresh s.index_gen, eq_iff (placeholder prefix s.index_gen) p)

  -- The new entry, at the key that the thing has.
  module _ (thing : V) (s : Slots K V) (c : IsConsistent prefix key s) where
    add-keeps :
        (o : Option K) (p : String) (v : V)
        → lookup p s.entries ≡ some v
        → lookup p (add prefix thing o s).1.entries ≡ some v
    unfolding add
    add-keeps o p v h = rw lookup-insert (rw (new-ne-old s c p v h) h)

    add-stands :
        (o : Option K)
        → lookup (add prefix thing o s).0 (add prefix thing o s).1.entries ≡ some thing
    unfolding add
    add-stands o =
        rw lookup-insert
          (ground (arith, eq_iff (placeholder prefix s.index_gen) (placeholder prefix s.index_gen)))

    add-fresh :
        (o : Option K) (i : ℕ)
        → s.index_gen + 1 ≤ i
        → lookup (placeholder prefix i) (add prefix thing o s).1.entries ≡ none
    unfolding add
    add-fresh o i h = rw lookup-insert (
        ground (
          arith,
          eq_iff (placeholder prefix s.index_gen) (placeholder prefix i),
          placeholder-injective prefix s.index_gen i,
          c.fresh i,
        ))

    -- the new cache and the new entries, one lookup at a time
    lookup-cache-add :
        (j k : K)
        → lookup k (add prefix thing (some j) s).1.cache
          ≡ (if e.same j k then some (add prefix thing (some j) s).0 else lookup k s.cache)
    unfolding add remember
    lookup-cache-add j k = lookup-insert j k (placeholder prefix s.index_gen) s.cache

    lookup-entries-add :
        (o : Option K) (p : String)
        → lookup p (add prefix thing o s).1.entries
          ≡ (if str_eq (add prefix thing o s).0 p then some thing else lookup p s.entries)
    unfolding add
    lookup-entries-add o p = lookup-insert (placeholder prefix s.index_gen) p thing s.entries

    add-cached :
        (o : Option K)
        → key thing ≡ o
        → (k : K) (p : String) → lookup k (add prefix thing o s).1.cache ≡ some p
        → (v : V) × (lookup p (add prefix thing o s).1.entries ≡ some v) × (key v ≡ some k)
    add-cached none same k p h =
        let (v, at, has) = c.cached k p (unfold add remember in h) in
        (v, add-keeps none p v at, has)
    add-cached (some j) same k p h = elim (Bool-cases (e.same j k)) [
      | inl new ↦ (
        thing,
        ground (arith, lookup-cache-add j k, add-stands (some j)),
        ground (arith, e.same_iff j k),
      )
      | inr old ↦
          let (v, at, has) = c.cached k p (ground (arith, lookup-cache-add j k)) in
          (v, add-keeps (some j) p v at, has)
    ]

    add-listed :
        (o : Option K)
        → key thing ≡ o
        → find o s ≡ none
        → (p : String) (v : V) (k : K) → lookup p (add prefix thing o s).1.entries ≡ some v
        → key v ≡ some k
        → lookup k (add prefix thing o s).1.cache ≡ some p
    unfolding find
    add-listed none same miss p v k at has =
        elim (Bool-cases (str_eq (add prefix thing none s).0 p)) [
          | inl new ↦ ground (arith, lookup-entries-add none p)
          | inr old ↦
              unfold add remember in c.listed p v k (ground (arith, lookup-entries-add none p)) has
        ]
    add-listed (some j) same miss p v k at has =
        elim (Bool-cases (str_eq (add prefix thing (some j) s).0 p)) [
          | inl new ↦ ground (
            arith,
            lookup-entries-add (some j) p,
            lookup-cache-add j k,
            e.same_iff j k,
            eq_iff (add prefix thing (some j) s).0 p,
          )
          | inr old ↦ ground (
            arith,
            lookup-entries-add (some j) p,
            lookup-cache-add j k,
            e.same_iff j k,
            c.listed p v k,
          )
        ]

    add-IsNumbered :
        (o : Option K)
        → AllKeys (IsNumbered prefix (s.index_gen + 1)) (add prefix thing o s).1.entries
    unfolding add
    add-IsNumbered o =
        AllKeys-insert (IsNumbered prefix (s.index_gen + 1)) (placeholder prefix s.index_gen) thing
          s.entries (s.index_gen, omega arith, refl)
          (AllKeys-map (IsNumbered prefix s.index_gen) (IsNumbered prefix (s.index_gen + 1))
            (λ p h. (h.0, omega (arith, h.1), h.2)) s.entries c.numbered)

    index_gen-add : (o : Option K) → (add prefix thing o s).1.index_gen ≡ s.index_gen + 1
    unfolding add
    index_gen-add o = refl

    add-Stands : find (key thing) s ≡ none → Stands thing s (add prefix thing (key thing) s)
    add-Stands miss = record {
      consistent = record {
        cached = add-cached (key thing) refl;
        listed = add-listed (key thing) refl miss;
        fresh = λ i h. add-fresh (key thing) i (omega (arith, index_gen-add (key thing)));
        numbered = unfold add in add-IsNumbered (key thing);
      };
      extends = record { keeps = add-keeps (key thing) };
      stands = add-stands (key thing);
    }

    found-Stands :
        (o : Option K) → key thing ≡ o → (p : String) → find o s ≡ some p → Stands thing s (p, s)
    unfolding find
    found-Stands none same p h = cc
    found-Stands (some k) same p h =
        let (v, at, has) = c.cached k p h in
        record {
          consistent = c;
          extends = Extends-refl s;
          stands = at ∙ ap some (key_injective k v thing has same);
        }

    -- On slots that agree with their cache, where things with one cache key are equal, `_encode`
    -- keeps the slots so, keeps all their entries, and returns a placeholder under which the thing
    -- is entered.
    pub encode-Stands : Stands thing s (encode prefix thing (key thing) s)
    unfolding encode
    encode-Stands = elim (Option-cases (find (key thing) s)) [
      | inl miss ↦ rw miss (add-Stands miss)
      | inr (p, hit) ↦ rw hit (found-Stands (key thing) refl p hit)
    ]
