-- ===== src/Safety.antt =====
-- internal/tools/safety/policy.go and context.go: which actions of a tool a mode lets through. A
-- string type with named constants is a data type; `other` holds any further string.
pub mod Decided
use deep_agent_cli.Base.{Option, none, some, []}
use deep_agent_cli.Text.{Text}

pub data ToolMode : Type 0 where
  normal read_only permission_aware : ToolMode
  other : Text → ToolMode

pub data ToolAction : Type 0 where
  read_file list_files bash_execute code_search : ToolAction
  other : Text → ToolAction

pub data Decision : Type 0 where
  allow deny require_approval dry_run : Decision

-- `normalizeMode`, and `EffectiveMode` of a context with the mode
unfoldable pub normalize_mode : ToolMode → ToolMode
normalize_mode (ToolMode.other []) = normal
normalize_mode m = m

-- a row of `modePolicyMatrix` that gives its decision on `bash_execute`
abbrev row : Decision → ToolAction → Option Decision
row d read_file = some allow
row d list_files = some allow
row d bash_execute = some d
row d code_search = some allow
row d (ToolAction.other a) = none

-- `modePolicyMatrix[mode][action]`
unfoldable pub mode_policy_matrix : ToolMode → ToolAction → Option Decision
mode_policy_matrix normal a = row allow a
mode_policy_matrix read_only a = row dry_run a
mode_policy_matrix permission_aware a = row require_approval a
mode_policy_matrix (ToolMode.other m) a = none

abbrev pub or_deny : Option Decision → Decision
or_deny none = deny
or_deny (some d) = d

-- `EvaluateAction`
unfoldable pub evaluate_action : ToolMode → ToolAction → Decision
unfolding mode_policy_matrix normalize_mode
evaluate_action mode action = or_deny (mode_policy_matrix (normalize_mode mode) action)
