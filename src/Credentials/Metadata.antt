-- ===== src/Credentials/Metadata.antt =====
-- The metadata providers of credentials.py: what each requests and what it reads from the answers.
-- yarl, json, datetime, UTF-8 and the HTTP client are given.
pub mod Server
use aiodynamo.Prelude.{
  ℕ, ◌+◌, ◌*◌, String, ◌+s◌, Bool, Option, none, some, [], ◌∷◌, ltb, str_eq, string_Keyed,
  if◌then◌else◌,
}
use aiodynamo.Prelude.Decimal.{str}
use aiodynamo.Prelude.Dict.{Dict, lookup}
use aiodynamo.Errors.{Result, ok, raised, ◌>>=◌, require, key_error, value_error, disabled}
use aiodynamo.Http.{Request, Outcome}
use aiodynamo.Credentials.Keys.{Key}
use aiodynamo.Credentials.Fetch.{fetch_with_retry_and_timeout}

-- A datetime is kept as its timestamp.
pub record Metadata : Type 0 where
  pub key : Key
  pub expires : ℕ

pub record AuthToken : Type 0 where
  pub value : String
  pub expires : ℕ

-- The keys of a JSON object that are read, where it has them.
pub record RawCredentials : Type 0 where
  pub access_key_id : Option String
  pub secret_access_key : Option String
  pub token : Option String
  pub expiration : Option String

-- json.loads of a body, bytes.decode("utf-8"), datetime.strptime, str.lower, and of yarl URL(...), str
-- and URL.with_path.
pub record Libraries (Bytes Url : Type 0) : Type 0 where
  pub loads : Bytes → Result RawCredentials
  pub decode : Bytes → Result String
  pub strptime : String → String → Result ℕ
  pub lower : String → String
  pub url : String → Url
  pub url_text : Url → String
  pub with_path : Url → String → Url

abbrev pub and_then {ℓ κ} : {T : Type ℓ} {U : Type κ} → Option T → (T → U) → Option U
and_then none mapper = none
and_then (some thing) mapper = some (mapper thing)

pub record Container (Url : Type 0) : Type 0 where
  pub max_attempts : ℕ
  pub base_url : Url
  pub relative_uri : Option String
  pub full_uri : Option Url
  pub auth_token : Option String

-- An InstanceMetadataCredentialsV2, or V1, which has no session duration.
pub record Instance (Url : Type 0) : Type 0 where
  pub max_attempts : ℕ
  pub base_url : Url
  pub disabled : Bool
  pub token_session_duration_seconds : ℕ

abbrev pub max_token_session_duration : ℕ
max_token_session_duration = 6 * 60 * 60

abbrev pub timestamp_format : String
timestamp_format = "%Y-%m-%dT%H:%M:%SZ"

abbrev pub role_path : String
role_path = "/latest/meta-data/iam/security-credentials/"

abbrev pub token_path : String
token_path = "/latest/api/token/"

abbrev pub ttl_header : String
ttl_header = "X-aws-ec2-metadata-token-ttl-seconds"

abbrev pub token_header : String
token_header = "X-aws-ec2-metadata-token"

module _ {Bytes Url : Type 0} (libraries : Libraries Bytes Url) where
  open libraries use {loads, decode, strptime, lower, url, url_text, with_path}

  unfoldable pub parse_amazon_timestamp : String → Result ℕ
  parse_amazon_timestamp timestamp = strptime timestamp timestamp_format

  -- `ContainerMetadataCredentials()`, from `os.environ`.
  unfoldable pub default_container : Dict String String → Container Url
  unfolding lookup
  default_container environ = record {
    max_attempts = 3;
    base_url = url "http://169.254.170.2";
    relative_uri = lookup "AWS_CONTAINER_CREDENTIALS_RELATIVE_URI" environ;
    full_uri = and_then (lookup "AWS_CONTAINER_CREDENTIALS_FULL_URI" environ) url;
    auth_token = lookup "AWS_CONTAINER_AUTHORIZATION_TOKEN" environ;
  }

  -- `ContainerMetadataCredentials.url`
  unfoldable pub container_url : Container Url → Option Url
  container_url c = elim c.relative_uri [
    | some relative_uri ↦ some (with_path c.base_url relative_uri)
    | none ↦ c.full_uri
  ]

  -- `ContainerMetadataCredentials.is_disabled`
  unfoldable pub container_is_disabled : Container Url → Bool
  unfolding container_url
  container_is_disabled c = elim (container_url c) [ none ↦ Bool.true | some found ↦ Bool.false ]

  abbrev pub is_disabled_by : Option String → Bool
  is_disabled_by none = str_eq (lower "false") "true"
  is_disabled_by (some text) = str_eq (lower text) "true"

  -- `InstanceMetadataCredentialsV2()` and V1, from `os.environ`.
  unfoldable pub default_instance : Dict String String → Instance Url
  unfolding lookup
  default_instance environ = record {
    max_attempts = 1;
    base_url = url "http://169.254.169.254";
    disabled = is_disabled_by (lookup "AWS_EC2_METADATA_DISABLED" environ);
    token_session_duration_seconds = max_token_session_duration;
  }

  -- `InstanceMetadataCredentialsV2.__post_init__`
  unfoldable pub check_session_duration : Instance Url → Result (Instance Url)
  check_session_duration i =
      if ltb max_token_session_duration i.token_session_duration_seconds
      then raised value_error
      else ok i

  -- `Metadata(key=Key(...), expires=...)`, of what json.loads gives.
  unfoldable pub parse_metadata : Result RawCredentials → Result Metadata
  unfolding parse_amazon_timestamp
  parse_metadata loaded = loaded >>= λ raw. require key_error raw.access_key_id >>= λ id.
      require key_error raw.secret_access_key >>= λ secret.
      require key_error raw.expiration >>= λ text. parse_amazon_timestamp text >>= λ expires.
      ok
        (record { key = record { id = id; secret = secret; token = raw.token }; expires = expires })

  abbrev pub request : String → Url → Option (Dict String String) → Request Bytes
  request method target headers = record {
    method = method;
    url = url_text target;
    headers = headers;
    body = none;
  }

  module _ (http : Request Bytes → ℕ → Outcome Bytes) where
    abbrev pub fetch : ℕ → Request Bytes → Result Bytes
    fetch max_attempts r = fetch_with_retry_and_timeout (http r) max_attempts

    abbrev pub fetch_container : Container Url → Option Url → Result Metadata
    fetch_container c none = raised disabled
    fetch_container c (some target) =
        let headers = and_then c.auth_token (λ token. ("Authorization", token) ∷ []) in
        fetch c.max_attempts (request "GET" target headers) >>= λ response.
        parse_metadata (loads response)

    -- `ContainerMetadataCredentials.fetch_metadata`
    unfoldable pub container_fetch_metadata : Container Url → Result Metadata
    unfolding fetch_with_retry_and_timeout parse_metadata container_url
    container_fetch_metadata c = fetch_container c (container_url c)

    -- The two requests of `fetch_metadata` of an instance, with the same headers.
    unfoldable pub fetch_role_metadata :
        Instance Url → Option (Dict String String) → Result Metadata
    unfolding fetch_with_retry_and_timeout parse_metadata
    fetch_role_metadata i headers =
        fetch i.max_attempts (request "GET" (with_path i.base_url role_path) headers) >>= λ answer.
        decode answer >>= λ role.
        fetch i.max_attempts (request "GET" (with_path i.base_url (role_path +s role)) headers)
        >>= λ raw_credentials. parse_metadata (loads raw_credentials)

    -- `InstanceMetadataCredentialsV1.fetch_metadata`
    unfoldable pub v1_fetch_metadata : Instance Url → Result Metadata
    unfolding fetch_role_metadata
    v1_fetch_metadata i = fetch_role_metadata i none

    -- `InstanceMetadataCredentialsV2._fetch_token`, at a time in seconds.
    unfoldable pub fetch_token : Instance Url → ℕ → Result AuthToken
    unfolding fetch_with_retry_and_timeout str
    fetch_token i now =
        let expires = now + i.token_session_duration_seconds in
        let headers = (ttl_header, str i.token_session_duration_seconds) ∷ [] in
        fetch i.max_attempts (request "PUT" (with_path i.base_url token_path) (some headers))
        >>= λ answer. decode answer >>= λ token. ok (record { value = token; expires = expires })

    -- `InstanceMetadataCredentialsV2.fetch_metadata`, with what `self.auth_token.get(http)` gives.
    unfoldable pub v2_fetch_metadata : Instance Url → Result AuthToken → Result Metadata
    unfolding fetch_role_metadata
    v2_fetch_metadata i auth_token =
        auth_token >>= λ token. fetch_role_metadata i (some ((token_header, token.value) ∷ []))
