-- ===== src/Prelude/Decimal.antt =====
-- `str` of a Python int: decimal digits, found by counting up, and its injectivity.
use Prim.Native.Nat.{ℕ, zero, suc, ◌+◌, ◌*◌}
use Prim.Native.String.{String, ◌++◌}
use Prim.Native.String
use mathlib.Core.Path.{◌≡◌, refl, ap, sym, ◌∙◌}
use mathlib.Core.List.{List, [], ◌∷◌}
use native.Mathlib.Omega.{arith}
use text.Mathlib.Text.{◌==◌}
use text.Mathlib.TextLemmas.{append_inj, length-append}
use aiodynamo.Prelude.Tests.{if◌then◌else◌}
use aiodynamo.Prelude.Int.{ℤ, pos, negsuc}

pub data Digit : Type 0 where
  d0 d1 d2 d3 d4 d5 d6 d7 d8 d9 : Digit

-- The digits of a number, the last one first.
increment : List Digit → List Digit
increment [] = d1 ∷ []
increment (d0 ∷ ds) = d1 ∷ ds
increment (d1 ∷ ds) = d2 ∷ ds
increment (d2 ∷ ds) = d3 ∷ ds
increment (d3 ∷ ds) = d4 ∷ ds
increment (d4 ∷ ds) = d5 ∷ ds
increment (d5 ∷ ds) = d6 ∷ ds
increment (d6 ∷ ds) = d7 ∷ ds
increment (d7 ∷ ds) = d8 ∷ ds
increment (d8 ∷ ds) = d9 ∷ ds
increment (d9 ∷ ds) = d0 ∷ increment ds

digits : ℕ → List Digit
digits zero = d0 ∷ []
digits (suc n) = increment (digits n)

digit_text : Digit → String
digit_text d0 = "0"
digit_text d1 = "1"
digit_text d2 = "2"
digit_text d3 = "3"
digit_text d4 = "4"
digit_text d5 = "5"
digit_text d6 = "6"
digit_text d7 = "7"
digit_text d8 = "8"
digit_text d9 = "9"

render : List Digit → String
render [] = ""
render (d ∷ ds) = render ds ++ digit_text d

unfoldable pub str : ℕ → String
unfolding digits increment render digit_text
str n = render (digits n)

unfoldable pub str_int : ℤ → String
unfolding str
str_int (pos n) = str n
str_int (negsuc n) = "-" ++ str (suc n)

str_runs : str 120 ≡ "120"
unfolding str
str_runs = refl

digit_value : Digit → ℕ
digit_value d0 = 0
digit_value d1 = 1
digit_value d2 = 2
digit_value d3 = 3
digit_value d4 = 4
digit_value d5 = 5
digit_value d6 = 6
digit_value d7 = 7
digit_value d8 = 8
digit_value d9 = 9

value : List Digit → ℕ
value [] = 0
value (d ∷ ds) = digit_value d + 10 * value ds

value-increment : (ds : List Digit) → value (increment ds) ≡ suc (value ds)
unfolding value increment digit_value
value-increment [] = omega arith
value-increment (d9 ∷ ds) = omega (arith, value-increment ds)
value-increment (d0 ∷ ds) = omega arith
value-increment (_ ∷ ds) = omega arith

value-digits : (n : ℕ) → value (digits n) ≡ n
unfolding digits
value-digits zero = unfold value digit_value in omega arith
value-digits (suc n) = value-increment (digits n) ∙ ap suc (value-digits n)

digit_of : String → Digit
digit_of s =
    if s == "0"
    then d0
    else if s == "1"
    then d1
    else if s == "2"
    then d2
    else if s == "3"
    then d3
    else if s == "4"
    then d4
    else if s == "5"
    then d5
    else if s == "6"
    then d6
    else if s == "7"
    then d7
    else if s == "8"
    then d8
    else d9

digit_of-digit_text : (d : Digit) → digit_of (digit_text d) ≡ d
unfolding digit_of digit_text
digit_of-digit_text d0 = refl
digit_of-digit_text _ = refl

count-digit_text : (d : Digit) → String.count (digit_text d) ≡ 1
unfolding digit_text
count-digit_text d0 = refl
count-digit_text _ = refl

count-render :
    (d : Digit) (ds : List Digit) → String.count (render (d ∷ ds)) ≡ String.count (render ds) + 1
unfolding render
count-render d ds =
    length-append (render ds) (digit_text d)
    ∙ ap (λ n. String.count (render ds) + n) (count-digit_text d)

count-nil : String.count (render []) ≡ 0
unfolding render
count-nil = refl

count_apart : (d : Digit) (ds : List Digit) → ¬ (render [] ≡ render (d ∷ ds))
count_apart d ds h = omega (arith, ap String.count h, count-nil, count-render d ds)

same_count :
    (d e : Digit) (ds es : List Digit)
    → render (d ∷ ds) ≡ render (e ∷ es)
    → String.count (render ds) ≡ String.count (render es)
same_count d e ds es h = omega (arith, ap String.count h, count-render d ds, count-render e es)

split_last :
    (d e : Digit) (ds es : List Digit)
    → render (d ∷ ds) ≡ render (e ∷ es)
    → (render ds ≡ render es) × (d ≡ e)
unfolding render
split_last d e ds es h =
    let split = append_inj h (same_count d e ds es h) in
    (split.0, sym (digit_of-digit_text d) ∙ ap digit_of split.1 ∙ digit_of-digit_text e)

render-injective : (ds es : List Digit) → render ds ≡ render es → ds ≡ es
render-injective [] [] h = refl
render-injective [] (e ∷ es) h = absurd (count_apart e es h)
render-injective (d ∷ ds) [] h = absurd (count_apart d ds (sym h))
render-injective (d ∷ ds) (e ∷ es) h =
    let split = split_last d e ds es h in cc (split.1, render-injective ds es split.0)

pub str-injective : (m n : ℕ) → str m ≡ str n → m ≡ n
unfolding str
str-injective m n h =
    sym (value-digits m) ∙ ap value (render-injective (digits m) (digits n) h) ∙ value-digits n
