-- ===== src/Credentials/Keys.antt =====
-- The class Key of credentials.py.
use aiodynamo.Prelude.{String, Option}

pub record Key : Type 0 where
  pub id : String
  pub secret : String
  pub token : Option String
