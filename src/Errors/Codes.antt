-- ===== src/Errors/Codes.antt =====
-- The code in an error's "__type", which may stand behind a namespace: errors.py.
use aiodynamo.Prelude.{
  string_Keyed, ℕ, ◌≡◌, refl, ap, ◌∙◌, String, ◌+s◌, Option, none, some, List, Bool, true, false,
  str_eq, if◌then◌else◌, arith,
}
use text.Mathlib.TextLemmas.{nil-append, cons-append}
use aiodynamo.Prelude.Dict.{lookup}
use aiodynamo.Errors.{
  ok, require, key_error, errors_table, construct, Body, ◌>>=◌, RawReason, error_body, Exception,
  after_hash, error_code, parse_error, exception_from_response,
}

-- No character of the text is a '#'.
unfoldable pub has_no_hash : String → Bool
has_no_hash String.[] = true
has_no_hash (String.◌∷◌ c s) =
    let rest = has_no_hash s in if str_eq (String.◌∷◌ c String.[]) "#" then false else rest

abbrev pub HasNoHash : String → Type 0
HasNoHash s = has_no_hash s ≡ true

after_hash-none : (s : String) → HasNoHash s → after_hash s ≡ none
unfolding after_hash has_no_hash
after_hash-none String.[] h = refl
after_hash-none (String.◌∷◌ c s) h = ground (arith, after_hash-none s)

after_hash-first : (t : String) → after_hash ("#" +s t) ≡ some t
unfolding after_hash
after_hash-first t = ap after_hash (cons-append "#" String.[] t) ∙ ap some (nil-append t)

after_hash-prefix : (s t : String) → HasNoHash s → after_hash (s +s ("#" +s t)) ≡ some t
unfolding after_hash has_no_hash
after_hash-prefix String.[] t h = ap after_hash (nil-append ("#" +s t)) ∙ after_hash-first t
after_hash-prefix (String.◌∷◌ c s) t h =
    ap after_hash (cons-append c s ("#" +s t)) ∙ ground (arith, after_hash-prefix s t)

parse_error-same :
    (s t : String) (reasons : Option (List RawReason))
    → error_code s ≡ error_code t
    → parse_error (error_body (some s) reasons) ≡ parse_error (error_body (some t) reasons)
unfolding parse_error
parse_error-same s t reasons h =
    ap (λ name. require key_error (lookup name errors_table) >>= λ error. construct error reasons) h

read_alike :
    (status : ℕ) (a b : Body) (e : Exception)
    → parse_error a ≡ ok e
    → parse_error b ≡ ok e
    → exception_from_response status a ≡ exception_from_response status b
unfolding exception_from_response
read_alike status a b e ha hb = rw (ha, hb)

error_code-prefix :
    (prefix code : String)
    → HasNoHash prefix
    → HasNoHash code
    → error_code (prefix +s ("#" +s code)) ≡ error_code code
unfolding error_code
error_code-prefix prefix code hp hc = rw (after_hash-prefix prefix code hp, after_hash-none code hc)

-- If a code without '#' is read as an exception, then so is the code behind a namespace without '#'
-- and a '#': `exception_from_response` gives the same exception, whatever the status.
pub exception_from_response-prefix :
    (status : ℕ) (prefix code : String) (reasons : Option (List RawReason)) (e : Exception)
    → HasNoHash prefix
    → HasNoHash code
    → parse_error (error_body (some code) reasons) ≡ ok e
    → exception_from_response status (error_body (some (prefix +s ("#" +s code))) reasons)
      ≡ exception_from_response status (error_body (some code) reasons)
exception_from_response-prefix status prefix code reasons e hp hc known =
    read_alike status _ _ e
      (parse_error-same (prefix +s ("#" +s code)) code reasons (error_code-prefix prefix code hp hc)
        ∙ known)
      known
