-- ===== src/Signing.antt =====
-- sign.py: the signed request. SHA-256, HMAC, UTF-8 and json.dumps are given.
pub mod Server
use aiodynamo.Prelude.{
  String, ◌+s◌, Option, none, some, List, [], ◌∷◌, ◌++◌, str_eq, string_Keyed, if◌then◌else◌,
}
use aiodynamo.Prelude.Dict.{Dict, insert}
use aiodynamo.Credentials.Keys.{Key}

abbrev pub service : String
service = "dynamodb"

abbrev pub content_type : String
content_type = "application/x-amz-json-1.0"

abbrev pub api_version : String
api_version = "DynamoDB_20120810"

abbrev pub method : String
method = "POST"

abbrev pub algorithm : String
algorithm = "AWS4-HMAC-SHA256"

abbrev pub newline : String
newline = "\n"

-- An Instant, by its properties `timestamp` and `date`.
pub record Instant : Type 0 where
  pub timestamp : String
  pub date : String

-- A yarl URL, by its parts: the authority is the host, with the port where it is not the scheme's.
pub record Url : Type 0 where
  pub scheme : String
  pub host : String
  pub authority : String
  pub path : String

unfoldable pub make_default_endpoint : String → Url
make_default_endpoint region =
    let host = service +s "." +s region +s ".amazonaws.com" in
    record { scheme = "https"; host = host; authority = host; path = "/" }

pub record Request (Bytes : Type 0) : Type 0 where
  pub url : Url
  pub headers : Dict String String
  pub body : Bytes

-- hashlib.sha256(data).digest(), hmac.new(key, msg, sha256).digest(), .hex() and .encode("utf-8").
pub record Hashing (Bytes : Type 0) : Type 0 where
  pub sha256 : Bytes → Bytes
  pub hmac : Bytes → Bytes → Bytes
  pub hex : Bytes → String
  pub utf8 : String → Bytes

-- `endpoint or make_default_endpoint(region)`
abbrev pub endpoint_or_default : Option Url → String → Url
endpoint_or_default none region = make_default_endpoint region
endpoint_or_default (some url) region = url

-- `if key.token: headers["X-Amz-Security-Token"] = key.token`
abbrev pub put_token : Option String → Dict String String → Dict String String
put_token none headers = headers
put_token (some token) headers =
    if str_eq token "" then headers else insert "X-Amz-Security-Token" token headers

module _ {Bytes : Type 0} (hashing : Hashing Bytes) where
  open hashing use {sha256, hmac, hex, utf8}

  unfoldable pub sha256_hmac : Bytes → String → Bytes
  sha256_hmac key msg = hmac key (utf8 msg)

  unfoldable pub derive_signing_key : Key → Instant → String → Bytes
  unfolding sha256_hmac
  derive_signing_key key instant region =
      let tmp_key1 = sha256_hmac (utf8 ("AWS4" +s key.secret)) instant.date in
      let tmp_key2 = sha256_hmac tmp_key1 region in
      let tmp_key3 = sha256_hmac tmp_key2 service in sha256_hmac tmp_key3 "aws4_request"

  -- `signed_dynamo_request` at an instant, with the payload by its text from json.dumps.
  unfoldable pub signed_dynamo_request :
      Instant → Key → String → String → String → Option Url → Request Bytes
  unfolding derive_signing_key make_default_endpoint insert
  signed_dynamo_request instant key payload action region endpoint =
      let url = endpoint_or_default endpoint region in
      let amz_target = api_version +s "." +s action in
      let canonical_uri : String = "/" in
      let canonical_querystring : String = "" in
      let canonical_headers =
        "content-type:" +s content_type +s newline +s "host:" +s url.host +s newline
        +s "x-amz-date:" +s instant.timestamp +s newline +s "x-amz-target:" +s amz_target
        +s newline in
      let payload_bytes = utf8 payload in
      let signed_headers : String = "content-type;host;x-amz-date;x-amz-target" in
      let payload_hash = hex (sha256 payload_bytes) in
      let canonical_request =
        method +s newline +s canonical_uri +s newline +s canonical_querystring +s newline
        +s canonical_headers +s newline +s signed_headers +s newline +s payload_hash in
      let credential_scope = instant.date +s "/" +s region +s "/" +s service +s "/aws4_request" in
      let request_digest = hex (sha256 (utf8 canonical_request)) in
      let string_to_sign =
        algorithm +s newline +s instant.timestamp +s newline +s credential_scope +s newline
        +s request_digest in
      let signing_key = derive_signing_key key instant region in
      let signature = hex (hmac signing_key (utf8 string_to_sign)) in
      let authorization_header =
        algorithm +s " Credential=" +s key.id +s "/" +s credential_scope +s ", SignedHeaders="
        +s signed_headers +s ", Signature=" +s signature in
      record {
        url = url;
        headers = put_token key.token (
            ("Content-Type", content_type)
            ∷ ("X-Amz-Date", instant.timestamp)
            ∷ ("X-Amz-Target", amz_target)
            ∷ ("Authorization", authorization_header)
            ∷ []);
        body = payload_bytes;
      }
