-- ===== src/Models.antt =====
-- src/openmuse/models.py: actions, their statuses and the results of tools.
use openmuse.Common.{String, Bool, Option, Text}
use openmuse.Common.Json.{Fields}

pub data ActionStatus : Type 0 where
  proposed completed failed blocked canceled : ActionStatus

-- The arguments are a mapping from names to JSON values.
pub record Action : Type 0 where
  pub tool : String
  pub arguments : Fields
  pub id : String
  pub approval_token : Option Text

pub record ToolResult : Type 0 where
  pub action_id : String
  pub status : ActionStatus
  pub output : String
  pub error_code : Option String
  pub retryable : Bool
