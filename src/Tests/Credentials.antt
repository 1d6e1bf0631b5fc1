-- ===== src/Tests/Credentials.antt =====
-- Credentials and signing at concrete inputs.
use aiodynamo.Prelude.{ℕ, ◌≡◌, refl, String, ◌+s◌, true, false, none, some, string_Keyed}
use aiodynamo.Prelude.Dict.{lookup}
use aiodynamo.Errors.{ok, raised, disabled}
use aiodynamo.Http.{Request, Outcome}
use aiodynamo.Credentials.Keys.{Key}
use aiodynamo.Credentials.Refresh.{Refresh}
use aiodynamo.Credentials.Refreshable.{World, new, get, Reach, here, later, calls}
use aiodynamo.Credentials.Refreshable.Flights.{Inv, Reach-Inv}
use aiodynamo.Credentials.Refreshable.Settling.{IsQuiet, Inevitably, settles}
use aiodynamo.Credentials.Chain.{chain_get_key}
use aiodynamo.Credentials.Providers.{Candidate, candidate, auto}
use aiodynamo.Credentials.Providers.Auto.{auto-found}
use aiodynamo.Credentials.Metadata.{Libraries, Instance}
use aiodynamo.Signing.{Instant, Hashing, signed_dynamo_request, make_default_endpoint}
use aiodynamo.Signing.Server.{expected, signed_dynamo_request-expected}

abbrev key : Key
key = record { id = "AKID"; secret = "secret"; token = none }

-- Values to be refreshed at once, at any time.
abbrev always : ℕ → Refresh
always v = Refresh.required

-- A call, whose refresh has not ended.
abbrev called : World ℕ
called = (get always new).1

called-Reach : Reach called
called-Reach = later here (calls always refl)

Reach-Inv_example : Inv called
Reach-Inv_example = Reach-Inv called-Reach

-- A second call, while the refresh of the first one goes on.
abbrev called_twice : World ℕ
called_twice = (get always called).1

called_twice-Reach : Reach called_twice
called_twice-Reach = later called-Reach (calls always refl)

settles_example : Inevitably IsQuiet called_twice
settles_example = settles called_twice-Reach

-- No key in the environment or in a file; the container is asked, and cannot be reached.
auto-found_example :
    (chain_get_key candidate (
      auto none none
        (Candidate.metadata false (raised disabled))
        (Candidate.metadata false (ok key))
        (Candidate.metadata true (ok key)))).0
    ≡ ok (some key)
auto-found_example =
    auto-found none none (Candidate.metadata false (raised disabled))
      (Candidate.metadata false (ok key)) (Candidate.metadata true (ok key))

-- Bytes are texts, and a hash of a text is the text.
abbrev texts : Hashing String
texts = record { sha256 = λ t. t; hmac = λ k t. k +s t; hex = λ t. t; utf8 = λ t. t }

abbrev instant : Instant
instant = record { timestamp = "20260101T000000Z"; date = "20260101" }

signed_dynamo_request-expected_example :
    let request = signed_dynamo_request texts instant key "{}" "ListTables" "eu-west-1" none in
    (value : String) × (lookup "Authorization" request.headers ≡ some value)
    × (expected texts (λ t. "20260101") key "eu-west-1" request ≡ some value)
unfolding make_default_endpoint
signed_dynamo_request-expected_example =
    signed_dynamo_request-expected texts (λ t. "20260101") instant key "{}" "ListTables" "eu-west-1"
      none refl refl refl

-- Answers are texts, and every JSON object holds the same key.
abbrev plain : Libraries String String
plain = record {
  loads = λ body. ok (record {
    access_key_id = some "AKID";
    secret_access_key = some "secret";
    token = none;
    expiration = some "2026-01-01T00:00:00Z";
  });
  decode = λ body. ok body;
  strptime = λ text format. ok 60;
  lower = λ text. text;
  url = λ text. text;
  url_text = λ url. url;
  with_path = λ url path. path;
}

abbrev instance_v2 : Instance String
instance_v2 = record {
  max_attempts = 1;
  base_url = "http://169.254.169.254";
  disabled = false;
  token_session_duration_seconds = 60;
}

-- A request without headers is refused; any other one is answered with the path that it is for.
abbrev token_http : Request String → ℕ → Outcome String
token_http request i = elim request.headers [
  | none ↦ Outcome.responded 401 ""
  | some headers ↦ Outcome.responded 200 request.url
]
