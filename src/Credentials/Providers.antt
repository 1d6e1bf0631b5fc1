-- ===== src/Credentials/Providers.antt =====
-- StaticCredentials, EnvironmentCredentials and FileCredentials of credentials.py, the methods of
-- MetadataCredentials, and `Credentials.auto`.
pub mod Auto
use aiodynamo.Prelude.{
  String, Bool, true, false, Option, none, some, List, [], ◌∷◌, string_Keyed, if◌then◌else◌,
}
use aiodynamo.Prelude.Dict.{Dict, lookup}
use aiodynamo.Errors.{Exception, Result, ok, raised}
use aiodynamo.Credentials.Keys.{Key}
use aiodynamo.Credentials.Chain.{Provider, Chain, make_chain}

-- `Key(d[id], d[secret], d.get(token, None))`, with `none` for KeyError.
abbrev pub make_key : Option String → Option String → Option String → Option Key
make_key none _ token = none
make_key (some id) none token = none
make_key (some id) (some secret) token = some (record { id = id; secret = secret; token = token })

-- `EnvironmentCredentials()`: its key, from `os.environ`.
unfoldable pub environment_key : Dict String String → Option Key
unfolding lookup
environment_key environ =
    make_key (lookup "AWS_ACCESS_KEY_ID" environ) (lookup "AWS_SECRET_ACCESS_KEY" environ)
      (lookup "AWS_SESSION_TOKEN" environ)

-- What `path.is_file()` and RawConfigParser make of a path: no file, a file that raises
-- configparser.Error or another exception, or its profiles.
pub data ConfigFile : Type 0 where
  no_file unparsable : ConfigFile
  unreadable : Exception → ConfigFile
  profiles : Dict String (Dict String String) → ConfigFile

abbrev pub profile_key : Option (Dict String String) → Option Key
profile_key none = none
profile_key (some profile) =
    make_key (lookup "aws_access_key_id" profile) (lookup "aws_secret_access_key" profile)
      (lookup "aws_session_token" profile)

-- `os.environ.get(name, default)`
abbrev pub get_or {ℓ} : {A : Type ℓ} → A → Option A → A
get_or default none = default
get_or default (some a) = a

-- The profile that is given, or that of the environment.
abbrev pub profile_or : Dict String String → Option String → String
profile_or environ none = get_or "default" (lookup "AWS_PROFILE" environ)
profile_or environ (some name) = name

abbrev pub config_key : String → ConfigFile → Result (Option Key)
config_key name no_file = ok none
config_key name unparsable = ok none
config_key name (unreadable e) = raised e
config_key name (profiles sections) = ok (profile_key (lookup name sections))

-- `FileCredentials(path=..., profile_name=...)`: its key. `files` gives the file at a path, and that
-- at ~/.aws/credentials.
unfoldable pub file_key :
    (Option String → ConfigFile)
    → Dict String String
    → Option String
    → Option String
    → Result (Option Key)
unfolding lookup
file_key files environ path profile_name = config_key (profile_or environ profile_name) (files path)

-- A provider: a key for static credentials; the key that was found for the environment and for a
-- file; for a metadata provider whether it is disabled, and the key of the metadata that the `get` of
-- its Refreshable gives at this call, or what that raises.
pub data Candidate : Type 0 where
  static environment file : Option Key → Candidate
  metadata : Bool → Result Key → Candidate

abbrev pub key_or_none : Bool → Result Key → Result (Option Key)
key_or_none true refreshed = ok none
key_or_none false (ok key) = ok (some key)
key_or_none false (raised e) = raised e

unfoldable pub get_key : Candidate → Result (Option Key)
get_key (static key) = ok key
get_key (environment key) = ok key
get_key (file key) = ok key
get_key (metadata disabled refreshed) = key_or_none disabled refreshed

unfoldable pub invalidate : Candidate → Bool
invalidate (metadata disabled refreshed) = true
invalidate (static key) = false
invalidate (environment key) = false
invalidate (file key) = false

abbrev pub is_none : Option Key → Bool
is_none none = true
is_none (some key) = false

unfoldable pub is_disabled : Candidate → Bool
is_disabled (static key) = false
is_disabled (environment key) = is_none key
is_disabled (file key) = is_none key
is_disabled (metadata disabled refreshed) = disabled

abbrev pub candidate : Provider Key Candidate
candidate = record {
  get_key = λ c. (get_key c, c);
  invalidate = λ c. (invalidate c, c);
  is_disabled = is_disabled;
}

-- `Credentials.auto()`, of what its five providers are.
unfoldable pub auto : Option Key → Option Key → Candidate → Candidate → Candidate → Chain Candidate
unfolding make_chain is_disabled
auto from_environment from_file container instance_v2 instance_v1 =
    make_chain candidate
      (environment from_environment ∷ file from_file ∷ container ∷ instance_v2 ∷ instance_v1 ∷ [])
