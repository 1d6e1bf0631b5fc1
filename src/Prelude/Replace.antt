-- ===== src/Prelude/Replace.antt =====
-- Python's `str.replace` for a text that is not empty, and texts that it leaves alone.
use Prim.Native.Nat.{ℕ, zero, suc, ◌-◌}
use Prim.Native.Char.{Char, code}
use Prim.Native.String.{String, ◌++◌}
use mathlib.Core.Path.{◌≡◌, refl, ap, ◌∙◌, subst}
use mathlib.Core.Logic.{inl, inr}
use mathlib.Core.Bool.{Bool, true, false, ◌&&◌, not}
use native.Mathlib.Omega.{arith}
use text.Mathlib.Text.{◌==◌ as str_eq}
use text.Mathlib.TextEquality.{Char-path, eq_iff}
use text.Mathlib.TextLemmas.{nil-append, cons-append}
use aiodynamo.Prelude.Tests.{nat_eq, nat_eq_iff, if◌then◌else◌, Bool-cases}

abbrev same_char : Char → Char → Bool
same_char c d = nat_eq (code c) (code d)

abbrev pub size : String → ℕ
size String.[] = 0
size (String.◌∷◌ c s) = suc (size s)

-- `s.startswith(old)`
begins : String → String → Bool
begins String.[] s = true
begins (String.◌∷◌ c old) String.[] = false
begins (String.◌∷◌ c old) (String.◌∷◌ d s) = same_char c d && begins old s

-- From the left, past what has just been replaced.
replace_from : ℕ → String → String → String → String
unfolding begins
replace_from skip old new String.[] = String.[]
replace_from (suc skip) old new (String.◌∷◌ c s) = replace_from skip old new s
replace_from zero old new (String.◌∷◌ c s) =
    let hit = new ++ replace_from (size old - 1) old new s in
    let miss = String.◌∷◌ c (replace_from zero old new s) in
    if begins old (String.◌∷◌ c s) then hit else miss

-- `s.replace(old, new)`
unfoldable pub replace : String → String → String → String
unfolding replace_from begins
replace old new s = replace_from 0 old new s

-- No character of the text has this code.
abbrev pub lacks : ℕ → String → Bool
lacks n String.[] = true
lacks n (String.◌∷◌ c s) = not (nat_eq n (code c)) && lacks n s

pub lacks-append :
    (n : ℕ) (s u : String) → lacks n s ≡ true → lacks n u ≡ true → lacks n (s ++ u) ≡ true
lacks-append n String.[] u h k = rw (nil-append u) k
lacks-append n (String.◌∷◌ c s) u h k = rw (cons-append c s u) (ground (arith, lacks-append n s u))

-- A placeholder: its first character, which the rest lacks, and a number of characters after it.
abbrev pub is_key : ℕ → ℕ → String → Bool
is_key n k String.[] = false
is_key n k (String.◌∷◌ c s) = nat_eq n (code c) && lacks n s && nat_eq (size s) k

replace-test : replace ":v1" "xy" "a:v1:v2:v1" ≡ "axy:v2xy"
unfolding replace replace_from begins
replace-test = refl

same_char_refl : (c : Char) → same_char c c ≡ true
same_char_refl c = (nat_eq_iff (code c) (code c)).1 refl

same_char-eq : (c d : Char) → same_char c d ≡ true → c ≡ d
same_char-eq c d h = Char-path c d ((nat_eq_iff (code c) (code d)).0 h)

begins_self : (old u : String) → begins old (old ++ u) ≡ true
unfolding begins
begins_self String.[] u = refl
begins_self (String.◌∷◌ c old) u =
    rw (cons-append c old u) (rw (same_char_refl c, begins_self old u))

-- Of two texts of one size, one begins a text that the other begins only if they are the same.
begins-eq : (old k u : String) → size old ≡ size k → begins old (k ++ u) ≡ true → old ≡ k
unfolding begins
begins-eq String.[] String.[] u e h = refl
begins-eq (String.◌∷◌ c old) (String.◌∷◌ d k) u e h =
    let both : (same_char c d && begins old (k ++ u)) ≡ true =
      subst (λ (s : String). begins (String.◌∷◌ c old) s ≡ true) (cons-append d k u) h in
    let first : same_char c d ≡ true = ground arith in
    let rest : begins old (k ++ u) ≡ true = ground arith in
    cc (same_char-eq c d first, begins-eq old k u (omega arith) rest)
begins-eq String.[] (String.◌∷◌ d k) u e h = absurd (omega arith)
begins-eq (String.◌∷◌ c old) String.[] u e h = absurd (omega arith)

-- What lacks the first character of `old` is left alone.
pub replace-lacks :
    (c : Char) (old new s u : String)
    → lacks (code c) s ≡ true
    → replace (String.◌∷◌ c old) new (s ++ u) ≡ s ++ replace (String.◌∷◌ c old) new u
unfolding replace replace_from begins
replace-lacks c old new String.[] u h = rw (nil-append u, nil-append)
replace-lacks c old new (String.◌∷◌ d s) u h =
    let other : same_char c d ≡ false = ground arith in
    rw (cons-append d s u, cons-append d s, other) (rw (replace-lacks c old new s u (ground arith)))

skipped : (k old new u : String) → replace_from (size k) old new (k ++ u) ≡ replace_from 0 old new u
unfolding replace_from begins
skipped String.[] old new u = rw (nil-append u)
skipped (String.◌∷◌ c k) old new u = rw (cons-append c k u) (skipped k old new u)

before : (old : String) → suc (size old) - 1 ≡ size old
before old = omega arith

pub replace_self :
    (c : Char) (old new u : String)
    → replace (String.◌∷◌ c old) new (String.◌∷◌ c old ++ u)
      ≡ new ++ replace (String.◌∷◌ c old) new u
unfolding replace replace_from begins
replace_self c old new u = rw (cons-append c old u) (
    rw (same_char_refl c, begins_self old u)
      (ap (λ (k : ℕ). new ++ replace_from k (String.◌∷◌ c old) new (old ++ u)) (before old)
        ∙ ap (λ (s : String). new ++ s) (skipped old (String.◌∷◌ c old) new u)))

-- Another placeholder with the same first character and of the same size is left alone.
pub replace-other :
    (m : ℕ) (c d : Char) (old new k u : String)
    → is_key (code c) m (String.◌∷◌ c old) ≡ true
    → is_key (code c) m (String.◌∷◌ d k) ≡ true
    → str_eq (String.◌∷◌ c old) (String.◌∷◌ d k) ≡ false
    → replace (String.◌∷◌ c old) new (String.◌∷◌ d k ++ u)
      ≡ String.◌∷◌ d k ++ replace (String.◌∷◌ c old) new u
unfolding replace replace_from
replace-other m c d old new k u key other apart =
    let bare : lacks (code c) k ≡ true = ground arith in
    let sizes : size old ≡ size k =
      ground (arith, nat_eq_iff (size old) m, nat_eq_iff (size k) m) in
    elim (Bool-cases (begins (String.◌∷◌ c old) (String.◌∷◌ d k ++ u))) [
      | inl hit ↦
          let same = begins-eq (String.◌∷◌ c old) (String.◌∷◌ d k) u (ap suc sizes) hit in
          cc (apart, (eq_iff (String.◌∷◌ c old) (String.◌∷◌ d k)).1 same)
      | inr miss ↦
          let miss' =
            subst (λ (s : String). begins (String.◌∷◌ c old) s ≡ false) (cons-append d k u) miss in
          rw (cons-append d k u, cons-append d k)
            (rw miss' (ap (λ (s : String). String.◌∷◌ d s) (replace-lacks c old new k u bare)))
    ]

pub replace-nil : (old new : String) → replace old new "" ≡ ""
unfolding replace replace_from
replace-nil old new = refl
