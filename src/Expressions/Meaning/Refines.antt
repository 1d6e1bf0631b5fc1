-- ===== src/Expressions/Meaning/Refines.antt =====
-- Encoding against meaning: a relation between a call that is handed the Parameters and what it
-- should stand for, with a rule for each way to build a call.
use aiodynamo.Prelude.{
  String, string_Keyed, ◌≡◌, refl, List, [], ◌∷◌, ◌++◌, some, Bool, true, false, if◌then◌else◌,
}
use aiodynamo.Errors.{Exception, Result, ok, raised, ◌>>=◌ as ◌>>>◌}
use aiodynamo.Values.{Value, Tagged, low_level_serialize}
use aiodynamo.Expressions.Parameters.{
  Parameters, Text, Exec, pure, raise, then_run, ◌>>=◌, word, ◌⊕◌, encode_name, encode_tagged,
  serialized, encode_value, cache_key, cache_key_Keyed, lit,
}
use aiodynamo.Expressions.Parameters.Placeholders.Invariant.{encode-Stands}
use aiodynamo.Expressions.Meaning.{
  Meaning, name, value, resolve, IsWellFormed, Grows, Grows-refl, Grows-trans, resolve-Grows,
  resolve-append, cache_key_injective, some_injective,
}

module _ {A B : Type 0} (R : Parameters → A → B → Type 0) where
  -- A run from `p` against what it should give: both raise one exception; or the Parameters are
  -- well-formed still, no entry is lost, and the results agree in the new Parameters.
  pub data Outcome (p : Parameters) : Result (A × Parameters) → Result B → Type 0 where
    done :
        {a : A} {q : Parameters} {b : B}
        → IsWellFormed q
        → Grows p q
        → R q a b
        → Outcome p (ok (a, q)) (ok b)
    failed : {e : Exception} → Outcome p (raised e) (raised e)

  -- From every well-formed state that `p` may have grown to.
  pub record Refines (p : Parameters) (m : Exec A) (s : Result B) : Type 0 where
    pub at : (q : Parameters) → Grows p q → IsWellFormed q → Outcome q (m q) s

module _ {A B : Type 0} {R : Parameters → A → B → Type 0} where
  widen :
      {p q : Parameters} {x : Result (A × Parameters)} {s : Result B}
      → Grows p q
      → Outcome R q x s
      → Outcome R p x s
  widen g (done w h r) = done w (Grows-trans g h) r
  widen g failed = failed

  pub later :
      {p q : Parameters} {m : Exec A} {s : Result B} → Grows p q → Refines R p m s → Refines R q m s
  later g r = record { at = λ q h w. r.at q (Grows-trans g h) w }

  pub Refines-raise : (p : Parameters) (e : Exception) → Refines R p (raise e) (raised e)
  unfolding raise
  Refines-raise p e = record { at = λ q g w. failed }

  pub Refines-pure :
      (p : Parameters) (a : A) (b : B)
      → ((q : Parameters) → Grows p q → R q a b)
      → Refines R p (pure a) (ok b)
  unfolding pure
  Refines-pure p a b r = record { at = λ q g w. done w (Grows-refl q) (r q g) }

  pub Refines-if :
      (b : Bool) (p : Parameters) {m k : Exec A} {s t : Result B}
      → Refines R p m s
      → Refines R p k t
      → Refines R p (if b then m else k) (if b then s else t)
  Refines-if true p hm hk = hm
  Refines-if false p hm hk = hk

module _ {A B C D : Type 0} {R : Parameters → A → B → Type 0}
    {Q : Parameters → C → D → Type 0} where
  bind-Outcome :
      {p : Parameters} {x : Result (A × Parameters)} {s : Result B} (f : A → Exec C)
      (g : B → Result D)
      → Outcome R p x s
      → ((q : Parameters) (a : A) (b : B) → Grows p q → R q a b → Refines Q q (f a) (g b))
      → Outcome Q p (then_run x f) (s >>> g)
  bind-Outcome f g (done {a} {q} {b} w h r) k = widen h ((k q a b h r).at q (Grows-refl q) w)
  bind-Outcome f g failed k = failed

  pub Refines-bind :
      (p : Parameters) (m : Exec A) (s : Result B) (f : A → Exec C) (g : B → Result D)
      → Refines R p m s
      → ((q : Parameters) (a : A) (b : B) → Grows p q → R q a b → Refines Q q (f a) (g b))
      → Refines Q p (m >>= f) (s >>> g)
  unfolding ◌>>=◌
  Refines-bind p m s f g r k = record {
    at = λ q h w. bind-Outcome f g (r.at q h w) (λ q' a b h'. k q' a b (Grows-trans h h'));
  }

-- The text resolves to the meaning.
abbrev pub Reads : Parameters → Text → List Meaning → Type 0
Reads p t ms = resolve p t ≡ some ms

abbrev pub Encodes : Parameters → Exec Text → Result (List Meaning) → Type 0
Encodes = Refines Reads

infixr 20 ◌⊞◌
unfoldable pub ◌⊞◌ : Result (List Meaning) → Result (List Meaning) → Result (List Meaning)
x ⊞ y = x >>> λ ms. y >>> λ ns. ok (ms ++ ns)

unfoldable pub says : String → Result (List Meaning)
says x = ok (Meaning.word x ∷ [])

pub Encodes-pure :
    (p : Parameters) (t : Text) (ms : List Meaning)
    → resolve p t ≡ some ms
    → Encodes p (pure t) (ok ms)
Encodes-pure p t ms h = Refines-pure p t ms (λ q g. resolve-Grows g t ms h)

pub Encodes-nil : (p : Parameters) → Encodes p (pure []) (ok [])
Encodes-nil p = Encodes-pure p [] [] (unfold resolve in refl)

pub Encodes-word : (p : Parameters) (x : String) → Encodes p (word x) (says x)
unfolding word says resolve
Encodes-word p x = Encodes-pure p (lit x ∷ []) (Meaning.word x ∷ []) refl

pub Encodes-append :
    (p : Parameters) {m k : Exec Text} {s t : Result (List Meaning)}
    → Encodes p m s
    → Encodes p k t
    → Encodes p (m ⊕ k) (s ⊞ t)
unfolding ◌⊕◌ ◌⊞◌
Encodes-append p {m} {k} {s} {t} hm hk = Refines-bind p m s _ _ hm λ q x ms g hx.
    Refines-bind q k t _ _ (later g hk) λ r y ns h hy.
      Encodes-pure r (x ++ y) (ms ++ ns) (resolve-append r x y ms ns (resolve-Grows h x ms hx) hy)

pub Encodes-name : (p : Parameters) (x : String) → Encodes p (encode_name x) (ok (name x ∷ []))
unfolding encode_name resolve
Encodes-name p x = record {
  at = λ q g w.
      let r = encode-Stands "#n" some some_injective x q.names w.names in
      done (record { names = r.consistent; values = w.values })
        (record { names = r.extends; values = (Grows-refl q).values }) (rw r.stands);
}

Encodes-tagged : (p : Parameters) (x : Tagged) → Encodes p (encode_tagged x) (ok (value x ∷ []))
unfolding encode_tagged resolve
Encodes-tagged p x = record {
  at = λ q g w.
      let r = encode-Stands ":v" cache_key cache_key_injective x q.values w.values in
      done (record { names = w.names; values = r.consistent })
        (record { names = (Grows-refl q).names; values = r.extends }) (rw r.stands);
}

-- A value stands for itself as serialized.
unfoldable pub value_meaning : Value → Result (List Meaning)
value_meaning v = low_level_serialize v >>> λ x. ok (value x ∷ [])

pub Encodes-value : (p : Parameters) (v : Value) → Encodes p (encode_value v) (value_meaning v)
unfolding encode_value value_meaning
Encodes-value p v = go (low_level_serialize v)
  where
    go : (r : Result Tagged) → Encodes p (serialized r) (r >>> λ x. ok (value x ∷ []))
    go (ok x) = Encodes-tagged p x
    go (raised e) = Refines-raise p e

-- Texts that resolve to meanings, one by one.
abbrev pub ReadsAll : Parameters → List Text → List (List Meaning) → Type 0
ReadsAll p [] [] = Unit
ReadsAll p (t ∷ ts) (ms ∷ mss) = Reads p t ms × ReadsAll p ts mss
ReadsAll p _ _ = ⊥

pub ReadsAll-Grows :
    {p q : Parameters}
    → Grows p q
    → (ts : List Text) (mss : List (List Meaning)) → ReadsAll p ts mss
    → ReadsAll q ts mss
ReadsAll-Grows g [] [] h = tt
ReadsAll-Grows g (t ∷ ts) (ms ∷ mss) h = (resolve-Grows g t ms h.0, ReadsAll-Grows g ts mss h.1)
ReadsAll-Grows g [] (ms ∷ mss) h = elim h [ ]
ReadsAll-Grows g (t ∷ ts) [] h = elim h [ ]
