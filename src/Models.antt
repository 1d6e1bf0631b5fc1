-- ===== src/Models.antt =====
-- models.py: key schemas, retrying, and the smaller enumerations.
pub mod Keys
pub mod Indexes
pub mod Tables
pub mod Retry
use aiodynamo.Prelude.{String}

pub data ReturnValues : Type 0 where
  none all_old updated_old all_new updated_new : ReturnValues

unfoldable pub return_value : ReturnValues → String
return_value ReturnValues.none = "NONE"
return_value all_old = "ALL_OLD"
return_value updated_old = "UPDATED_OLD"
return_value all_new = "ALL_NEW"
return_value updated_new = "UPDATED_NEW"
