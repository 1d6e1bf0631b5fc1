-- ===== src/Values/Base64.antt =====
-- The standard library's base64, as utils.py calls it: bytes as numbers below 256, ASCII text as
-- its codes. `b64decode` is modelled on text in the standard form, in quads with "=" at the end
-- alone; any other text is refused here as binascii.Error, a ValueError.
use aiodynamo.Prelude.{
  ℕ, ◌+◌, ◌-◌, ◌*◌, ◌/◌, ◌%◌, ◌<◌, ◌≡◌, refl, ap, ◌∙◌, false, ◌&&◌, Option, none, some, List, [],
  ◌∷◌, All, arith, ltb, leb, nat_eq, if◌then◌else◌,
}
use aiodynamo.Errors.{Result, ok, raised, value_error, ◌>>=◌, require}

sextet_char : ℕ → ℕ
sextet_char v =
    if ltb v 26
    then v + 65
    else if ltb v 52
    then v + 71
    else if ltb v 62
    then v - 4
    else if nat_eq v 62
    then 43
    else 47

char_sextet : ℕ → Option ℕ
char_sextet c =
    if leb 65 c && leb c 90
    then some (c - 65)
    else if leb 97 c && leb c 122
    then some (c - 71)
    else if leb 48 c && leb c 57
    then some (c + 4)
    else if nat_eq c 43
    then some 62
    else if nat_eq c 47
    then some 63
    else none

unfoldable pub b64encode : List ℕ → List ℕ
unfolding sextet_char
b64encode [] = []
b64encode (a ∷ []) = sextet_char (a / 4) ∷ sextet_char (a % 4 * 16) ∷ 61 ∷ 61 ∷ []
b64encode (a ∷ b ∷ []) =
    sextet_char (a / 4) ∷ sextet_char (a % 4 * 16 + b / 16) ∷ sextet_char (b % 16 * 4) ∷ 61 ∷ []
b64encode (a ∷ b ∷ c ∷ rest) =
    sextet_char (a / 4)
    ∷ sextet_char (a % 4 * 16 + b / 16)
    ∷ sextet_char (b % 16 * 4 + c / 64)
    ∷ sextet_char (c % 64)
    ∷ b64encode rest

sextet : ℕ → Result ℕ
unfolding char_sextet
sextet c = require value_error (char_sextet c)

one_byte : ℕ → ℕ → Result (List ℕ)
unfolding sextet
one_byte w x = do i ← sextet w; j ← sextet x; ok ((i * 4 + j / 16) ∷ [])

two_bytes : ℕ → ℕ → ℕ → Result (List ℕ)
unfolding sextet
two_bytes w x y = do
  i ← sextet w
  j ← sextet x
  k ← sextet y
  ok ((i * 4 + j / 16) ∷ (j % 16 * 16 + k / 4) ∷ [])

three_bytes : ℕ → ℕ → ℕ → ℕ → Result (List ℕ) → Result (List ℕ)
unfolding sextet
three_bytes w x y z more = do
  i ← sextet w
  j ← sextet x
  k ← sextet y
  l ← sextet z
  rest ← more
  ok ((i * 4 + j / 16) ∷ (j % 16 * 16 + k / 4) ∷ (k % 4 * 64 + l) ∷ rest)

padded : ℕ → ℕ → ℕ → Result (List ℕ)
unfolding one_byte two_bytes
padded w x y = if nat_eq y 61 then one_byte w x else two_bytes w x y

unfoldable pub b64decode : List ℕ → Result (List ℕ)
unfolding padded three_bytes
b64decode [] = ok []
b64decode (w ∷ x ∷ y ∷ z ∷ []) = if nat_eq z 61 then padded w x y else three_bytes w x y z (ok [])
b64decode (w ∷ x ∷ y ∷ z ∷ rest) = three_bytes w x y z (b64decode rest)
b64decode _ = raised value_error

char_sextet-sextet_char : (v : ℕ) → v < 64 → char_sextet (sextet_char v) ≡ some v
unfolding char_sextet sextet_char
char_sextet-sextet_char v h = ground arith

sextet-sextet_char : (v : ℕ) → v < 64 → sextet (sextet_char v) ≡ ok v
unfolding sextet
sextet-sextet_char v h = ap (require value_error) (char_sextet-sextet_char v h)

sextet_char-ne-pad : (v : ℕ) → v < 64 → nat_eq (sextet_char v) 61 ≡ false
unfolding sextet_char
sextet_char-ne-pad v h = ground arith

module _ (a b c : ℕ) (ha : a < 256) (hb : b < 256) (hc : c < 256) where
  three_bytes-sextets :
      (more : Result (List ℕ))
      → three_bytes
          (sextet_char (a / 4))
          (sextet_char (a % 4 * 16 + b / 16))
          (sextet_char (b % 16 * 4 + c / 64))
          (sextet_char (c % 64))
          more
        ≡ (more >>= λ rest. ok (a ∷ b ∷ c ∷ rest))
  unfolding three_bytes
  three_bytes-sextets more = rw (
    sextet-sextet_char (a / 4) (omega arith),
    sextet-sextet_char (a % 4 * 16 + b / 16) (omega arith),
    sextet-sextet_char (b % 16 * 4 + c / 64) (omega arith),
    sextet-sextet_char (c % 64) (omega arith),
    first,
    second,
    third,
  )
    where
      first : a / 4 * 4 + (a % 4 * 16 + b / 16) / 16 ≡ a
      first = omega arith

      second : (a % 4 * 16 + b / 16) % 16 * 16 + (b % 16 * 4 + c / 64) / 4 ≡ b
      second = omega arith

      third : (b % 16 * 4 + c / 64) % 4 * 64 + c % 64 ≡ c
      third = omega arith

  two_bytes-sextets :
      two_bytes (sextet_char (a / 4)) (sextet_char (a % 4 * 16 + b / 16)) (sextet_char (b % 16 * 4))
      ≡ ok (a ∷ b ∷ [])
  unfolding two_bytes
  two_bytes-sextets = rw (
    sextet-sextet_char (a / 4) (omega arith),
    sextet-sextet_char (a % 4 * 16 + b / 16) (omega arith),
    sextet-sextet_char (b % 16 * 4) (omega arith),
    first,
    second,
  )
    where
      first : a / 4 * 4 + (a % 4 * 16 + b / 16) / 16 ≡ a
      first = omega arith

      second : (a % 4 * 16 + b / 16) % 16 * 16 + (b % 16 * 4) / 4 ≡ b
      second = omega arith

one_byte-sextets :
    (a : ℕ) → a < 256 → one_byte (sextet_char (a / 4)) (sextet_char (a % 4 * 16)) ≡ ok (a ∷ [])
unfolding one_byte
one_byte-sextets a h =
    rw (
      sextet-sextet_char (a / 4) (omega arith),
      sextet-sextet_char (a % 4 * 16) (omega arith),
      whole,
    )
  where
    whole : a / 4 * 4 + (a % 4 * 16) / 16 ≡ a
    whole = omega arith

abbrev pub IsBytes : List ℕ → Type 0
IsBytes = All (λ b. b < 256)

-- Every byte string is decoded from its base64 text.
pub b64decode-b64encode : (bs : List ℕ) → IsBytes bs → b64decode (b64encode bs) ≡ ok bs
unfolding b64decode b64encode padded
b64decode-b64encode [] h = refl
b64decode-b64encode (a ∷ []) h = one_byte-sextets a h.0
b64decode-b64encode (a ∷ b ∷ []) h =
    rw (sextet_char-ne-pad (b % 16 * 4) (omega arith))
      (two_bytes-sextets a b 0 h.0 h.1.0 (omega arith))
b64decode-b64encode (a ∷ b ∷ c ∷ []) h =
    rw (sextet_char-ne-pad (c % 64) (omega arith))
      (three_bytes-sextets a b c h.0 h.1.0 h.1.1.0 (ok []))
b64decode-b64encode (a ∷ b ∷ c ∷ d ∷ []) h =
    three_bytes-sextets a b c h.0 h.1.0 h.1.1.0 _ ∙ rw (b64decode-b64encode (d ∷ []) h.1.1.1)
b64decode-b64encode (a ∷ b ∷ c ∷ d ∷ e ∷ []) h =
    three_bytes-sextets a b c h.0 h.1.0 h.1.1.0 _ ∙ rw (b64decode-b64encode (d ∷ e ∷ []) h.1.1.1)
b64decode-b64encode (a ∷ b ∷ c ∷ d ∷ e ∷ f ∷ bs) h =
    three_bytes-sextets a b c h.0 h.1.0 h.1.1.0 _
    ∙ rw (b64decode-b64encode (d ∷ e ∷ f ∷ bs) h.1.1.1)

b64_runs : b64encode (104 ∷ 105 ∷ []) ≡ 97 ∷ 71 ∷ 107 ∷ 61 ∷ []
unfolding b64encode
b64_runs = refl
