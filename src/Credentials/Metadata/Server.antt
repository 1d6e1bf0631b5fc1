-- ===== src/Credentials/Metadata/Server.antt =====
-- The instance metadata providers of credentials.py in front of a service that wants a session token.
use aiodynamo.Prelude.{ℕ, ◌<◌, ◌≡◌, String, ◌+s◌, Option, none, some, [], ◌∷◌}
use aiodynamo.Prelude.Decimal.{str}
use aiodynamo.Prelude.Dict.{Dict}
use aiodynamo.Errors.{ok}
use aiodynamo.Http.{Request, Outcome, responded}
use aiodynamo.Credentials.Fetch.{GoesOn}
use aiodynamo.Credentials.Metadata.{
  Libraries, Instance, role_path, token_path, ttl_header, token_header, request,
}

module _ {Bytes : Type 0} (http : ℕ → Outcome Bytes) where
  -- Attempt `j` is answered with status 200, and no attempt before it ends the loop.
  abbrev pub AnswersAt : ℕ → Bytes → Type 0
  AnswersAt j body = ((k : ℕ) → k < j → GoesOn http (http k)) × (http j ≡ responded 200 body)

module _ {Bytes Url : Type 0} (libraries : Libraries Bytes Url)
    (http : Request Bytes → ℕ → Outcome Bytes) where
  open libraries use {loads, decode, url_text, with_path}

  -- One of the attempts is answered with this body.
  abbrev pub Answers : Instance Url → Request Bytes → Bytes → Type 0
  Answers i r body = (j : ℕ) × (j < i.max_attempts) × AnswersAt (http r) j body

  abbrev pub with_token : String → Option (Dict String String)
  with_token token = some ((token_header, token) ∷ [])

  -- A service that hands out a token for a session of the duration that is asked for, answers the two
  -- requests with that token, and does not answer a request without one.
  pub record IsTokenServer (i : Instance Url) (token role : String) (credentials : Bytes)
      : Type 0 where
    pub token_body : Bytes
    pub role_body : Bytes
    pub gives_token :
        Answers i
          (request libraries "PUT"
            (with_path i.base_url token_path)
            (some ((ttl_header, str i.token_session_duration_seconds) ∷ [])))
          token_body
    pub token_text : decode token_body ≡ ok token
    pub gives_role :
        Answers i
          (request libraries "GET" (with_path i.base_url role_path) (with_token token))
          role_body
    pub role_text : decode role_body ≡ ok role
    pub gives_credentials :
        Answers i
          (request libraries "GET" (with_path i.base_url (role_path +s role)) (with_token token))
          credentials
    pub refuses :
        (target : Url) (k : ℕ)
        → let r = request libraries "GET" target none in GoesOn (http r) (http r k)
