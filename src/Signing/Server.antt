-- ===== src/Signing/Server.antt =====
-- How AWS Signature Version 4 is checked on the other side, written for any request: from what has
-- arrived, a service forms the canonical request, the string to sign and the signature anew.
use aiodynamo.Prelude.{
  ◌≡◌, refl, sym, ap, ◌∙◌, String, ◌+s◌, Option, none, some, List, [], ◌∷◌, string_Keyed, str_eq,
  Bool-cases, inl, inr,
}
use text.Mathlib.TextLemmas.{append_assoc as append_assoc_s, append-nil as append-nil_s}
use aiodynamo.Prelude.Dict.{Dict, lookup, insert}
use aiodynamo.Credentials.Keys.{Key}
use aiodynamo.Signing.{
  content_type, api_version, newline, Instant, Url, Request, Hashing, endpoint_or_default,
  put_token, derive_signing_key, sha256_hmac, signed_dynamo_request,
}

-- name:value, one on each line
unfoldable pub header_lines : List (String × String) → String
header_lines [] = ""
header_lines ((name, value) ∷ headers) = name +s ":" +s value +s newline +s header_lines headers

-- The names, with ';' between them.
unfoldable pub names_rest : List (String × String) → String
names_rest [] = ""
names_rest ((name, value) ∷ headers) = ";" +s name +s names_rest headers

unfoldable pub header_names : List (String × String) → String
header_names [] = ""
header_names ((name, value) ∷ headers) = name +s names_rest headers

-- The headers that DynamoDB requires to be signed, as they arrive, in the order of their names.
-- An HTTP client sends the authority of the URL as the header Host.
abbrev pub signed_headers :
    Option String → Option String → Option String → String → Option (List (String × String))
signed_headers (some kind) (some date) (some target) host =
    some (
      ("content-type", kind)
      ∷ ("host", host)
      ∷ ("x-amz-date", date)
      ∷ ("x-amz-target", target)
      ∷ [])
signed_headers _ _ _ host = none

module _ {Bytes : Type 0} (hashing : Hashing Bytes) where
  open hashing use {sha256, hmac, hex, utf8}

  -- The signing key that a service derives for DynamoDB, from the secret of the key.
  unfoldable pub signing_key : String → String → String → Bytes
  signing_key secret date region =
      hmac
        (hmac (hmac (hmac (utf8 ("AWS4" +s secret)) (utf8 date)) (utf8 region)) (utf8 "dynamodb"))
        (utf8 "aws4_request")

  -- The value of "Authorization" that a service in this region expects of this key for a request
  -- with these headers, sent at this time.
  unfoldable pub authorization :
      Key → Instant → String → List (String × String) → Request Bytes → String
  unfolding header_lines header_names names_rest signing_key
  authorization key instant region headers request =
      let scope = instant.date +s "/" +s region +s "/dynamodb/aws4_request" in
      let canonical =
        "POST"
        +s newline
        +s request.url.path
        +s newline
        +s ""
        +s newline
        +s header_lines headers
        +s newline
        +s header_names headers
        +s newline
        +s hex (sha256 request.body) in
      let to_sign =
        "AWS4-HMAC-SHA256"
        +s newline
        +s instant.timestamp
        +s newline
        +s scope
        +s newline
        +s hex (sha256 (utf8 canonical)) in
      "AWS4-HMAC-SHA256"
      +s " Credential="
      +s key.id
      +s "/"
      +s scope
      +s ", SignedHeaders="
      +s header_names headers
      +s ", Signature="
      +s hex (hmac (signing_key key.secret instant.date region) (utf8 to_sign))

  abbrev expected_with :
      (String → String)
      → Key
      → String
      → Request Bytes
      → Option String
      → Option (List (String × String))
      → Option String
  expected_with date_of key region request (some timestamp) (some headers) = some (
      authorization key (record { timestamp = timestamp; date = date_of timestamp }) region headers
        request)
  expected_with date_of key region request _ _ = none

  -- What the service makes of a request that has arrived: the value that its "Authorization" should
  -- have, if it has the headers that must be signed. `date_of` is the date in a timestamp.
  unfoldable pub expected : (String → String) → Key → String → Request Bytes → Option String
  unfolding lookup
  expected date_of key region request =
      let timestamp = lookup "X-Amz-Date" request.headers in
      expected_with date_of key region request timestamp (
        signed_headers (lookup "Content-Type" request.headers) timestamp
          (lookup "X-Amz-Target" request.headers) request.url.authority)

  sent_headers : String → String → String → String → Dict String String
  sent_headers a b c d =
      ("Content-Type", a) ∷ ("X-Amz-Date", b) ∷ ("X-Amz-Target", c) ∷ ("Authorization", d) ∷ []

  abbrev Found : Dict String String → String → String → String → String → Type 0
  Found headers a b c d =
      (lookup "Content-Type" headers ≡ some a)
      × (lookup "X-Amz-Date" headers ≡ some b)
      × (lookup "X-Amz-Target" headers ≡ some c)
      × (lookup "Authorization" headers ≡ some d)

  put_token-Found :
      (token : Option String) (a b c d : String)
      → Found (put_token token (sent_headers a b c d)) a b c d
  unfolding sent_headers lookup insert
  put_token-Found none a b c d = (refl, refl, refl, refl)
  put_token-Found (some token) a b c d = elim (Bool-cases (str_eq token "")) [
    | inl empty ↦ rw empty (refl, refl, refl, refl)
    | inr given ↦ rw given (refl, refl, refl, refl)
  ]

  -- The lines as `signed_dynamo_request` writes them.
  lines_written :
      (kind host date target : String)
      → header_lines (
          ("content-type", kind)
          ∷ ("host", host)
          ∷ ("x-amz-date", date)
          ∷ ("x-amz-target", target)
          ∷ [])
        ≡ "content-type:" +s kind +s newline +s "host:" +s host +s newline +s "x-amz-date:" +s date
          +s newline +s "x-amz-target:" +s target +s newline
  unfolding header_lines
  lines_written kind host date target =
      sym (append_assoc_s "content-type" ":" _)
      ∙ ap (λ t. "content-type:" +s kind +s newline +s t)
          (sym (append_assoc_s "host" ":" _)
            ∙ ap (λ t. "host:" +s host +s newline +s t)
                (sym (append_assoc_s "x-amz-date" ":" _)
                  ∙ ap (λ t. "x-amz-date:" +s date +s newline +s t)
                      (sym (append_assoc_s "x-amz-target" ":" _)
                        ∙ ap (λ t. "x-amz-target:" +s target +s t) (append-nil_s newline))))

  derive_signing_key_same :
      (key : Key) (instant : Instant) (region : String)
      → derive_signing_key hashing key instant region ≡ signing_key key.secret instant.date region
  unfolding signing_key derive_signing_key sha256_hmac
  derive_signing_key_same key instant region = refl

  authorization_same :
      (instant : Instant) (key : Key) (payload action region : String) (endpoint : Option Url)
      → (endpoint_or_default endpoint region).path ≡ "/"
      → (endpoint_or_default endpoint region).authority ≡ (endpoint_or_default endpoint region).host
      → let request = signed_dynamo_request hashing instant key payload action region endpoint in
        lookup "Authorization" request.headers
        ≡ some (
            authorization key instant region
              (("content-type", content_type)
                ∷ ("host", request.url.authority)
                ∷ ("x-amz-date", instant.timestamp)
                ∷ ("x-amz-target", api_version +s "." +s action)
                ∷ [])
              request)
  unfolding signed_dynamo_request authorization sent_headers
  authorization_same instant key payload action region endpoint root default =
      (put_token-Found key.token content_type instant.timestamp (api_version +s "." +s action) _).3
      ∙ rw
          (
            lines_written content_type (endpoint_or_default endpoint region).authority
                instant.timestamp (api_version +s "." +s action),
            root,
            default,
            derive_signing_key_same key instant region,
          )
          refl

  expected-Found :
      (date_of : String → String) (key : Key) (region : String) (request : Request Bytes)
      (a b c d : String)
      → Found request.headers a b c d
      → expected date_of key region request
        ≡ some (
            authorization key
              (record { timestamp = b; date = date_of b })
              region
              (("content-type", a)
                ∷ ("host", request.url.authority)
                ∷ ("x-amz-date", b)
                ∷ ("x-amz-target", c)
                ∷ [])
              request)
  unfolding expected
  expected-Found date_of key region request a b c d found = rw (found.0, found.1, found.2)

  -- A request that is sent to the path "/", on the port of its scheme, is one that a service accepts:
  -- the "Authorization" that the service expects of the key, from the headers, the URL and the body
  -- as they are sent, is there and is the one that is sent. The date that the service reads in the
  -- timestamp is the date of the instant.
  pub signed_dynamo_request-expected :
      (date_of : String → String) (instant : Instant) (key : Key) (payload action region : String)
      (endpoint : Option Url)
      → date_of instant.timestamp ≡ instant.date
      → (endpoint_or_default endpoint region).path ≡ "/"
      → (endpoint_or_default endpoint region).authority ≡ (endpoint_or_default endpoint region).host
      → let request = signed_dynamo_request hashing instant key payload action region endpoint in
        (value : String) × (lookup "Authorization" request.headers ≡ some value)
        × (expected date_of key region request ≡ some value)
  unfolding signed_dynamo_request sent_headers
  signed_dynamo_request-expected date_of instant key payload action region endpoint dated root
        default =
      (
        _,
        authorization_same instant key payload action region endpoint root default,
        expected-Found date_of key region
              (signed_dynamo_request hashing instant key payload action region endpoint)
              content_type instant.timestamp (api_version +s "." +s action) _
              (put_token-Found key.token content_type instant.timestamp
                (api_version +s "." +s action) _)
            ∙ rw dated,
      )
