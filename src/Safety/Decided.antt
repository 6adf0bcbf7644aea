-- ===== src/Safety/Decided.antt =====
-- When the policy of internal/tools/safety/policy.go lets an action through.
use deep_agent_cli.Base.{◌≡◌, ◌↔◌, ◌⊎◌, arith}
use deep_agent_cli.Safety.{
  ToolMode, normal, read_only, permission_aware, ToolAction, read_file, list_files, bash_execute,
  code_search, allow, evaluate_action, normalize_mode,
}

-- The mode is one of the three, or empty, which is the normal one.
abbrev pub IsKnown : ToolMode → Type 0
IsKnown m =
    (normalize_mode m ≡ normal)
    ⊎ (normalize_mode m ≡ read_only)
    ⊎ (normalize_mode m ≡ permission_aware)

-- The action only looks at the repository.
abbrev pub IsReading : ToolAction → Type 0
IsReading a = (a ≡ read_file) ⊎ (a ≡ list_files) ⊎ (a ≡ code_search)

-- An action is allowed in a mode only if it reads, in a known mode, or if it runs a command in the
-- normal mode; those are allowed.
pub evaluate_action-allow :
    (m : ToolMode) (a : ToolAction)
    → (evaluate_action m a ≡ allow)
      ↔ ((IsReading a × IsKnown m) ⊎ ((a ≡ bash_execute) × (normalize_mode m ≡ normal)))
unfolding evaluate_action normalize_mode
evaluate_action-allow m a = ground arith
