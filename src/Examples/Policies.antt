-- ===== src/Examples/Policies.antt =====
-- Decisions of internal/tools/safety/policy.go.
use deep_agent_cli.Base.{◌≡◌, refl, ◌↔◌, ◌⊎◌}
use deep_agent_cli.Text.{text}
use deep_agent_cli.Safety.{
  ToolMode, read_only, read_file, bash_execute, allow, deny, dry_run, evaluate_action,
  normalize_mode, normal,
}
use deep_agent_cli.Safety.Decided.{IsKnown, IsReading, evaluate_action-allow}

command_test : evaluate_action read_only bash_execute ≡ dry_run
unfolding evaluate_action
command_test = refl

unknown_test : evaluate_action (ToolMode.other (text "x")) read_file ≡ deny
unfolding evaluate_action
unknown_test = refl

evaluate_action-allow_example : (evaluate_action read_only read_file ≡ allow) ↔ (
    (IsReading read_file × IsKnown read_only)
    ⊎ ((read_file ≡ bash_execute) × (normalize_mode read_only ≡ normal)))
evaluate_action-allow_example = evaluate_action-allow read_only read_file
