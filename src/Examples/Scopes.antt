-- ===== src/Examples/Scopes.antt =====
-- A file system without links, in which everything is a directory.
use deep_agent_cli.Base.{
  ◌+◌, ◌≡◌, refl, true, false, some, [], ◌∷◌, ◌++◌, if◌then◌else◌, length, drop,
}
use deep_agent_cli.Text.{Text, text, eq, has_prefix}
use deep_agent_cli.Text.Trim.{trim}
use deep_agent_cli.Base.Int.{pos}
use deep_agent_cli.Reply.{value, fault}
use deep_agent_cli.FilePath.{slash, dot, dot_dot, clean}
use deep_agent_cli.Indexing.{Host}
use deep_agent_cli.Safety.{ToolMode, ToolAction, allow, normalize_mode, evaluate_action}
use deep_agent_cli.Scope.{Paths, ok, ToolSafetyContext, Command, prepare_scoped_command}
use deep_agent_cli.Scope.Sandbox.{ScopeTarget, ScopeResolution, enforce_repo_scope}
use deep_agent_cli.Scope.Resolved.{IsScoped, prepare_scoped_command-IsScoped}
use deep_agent_cli.Scope.Enforced.{IsResolved, enforce_repo_scope-IsResolved}

abbrev plain_host : Host
plain_host = record {
  abs = λ p. value (clean p);
  eval_symlinks = λ p. value p;
  is_dir = λ p. value true;
  read_file = λ p. fault (text "none");
  sha256_hex = λ p. p;
}

abbrev relative_to : Text → Text → Text
relative_to root path =
    if eq path root
    then dot
    else if has_prefix path (root ++ (slash ∷ []))
    then drop (length root + 1) path
    else dot_dot

abbrev pub plain_paths : Paths
plain_paths = record {
  host = plain_host;
  is_not_exist = λ m. false;
  rel = λ root path. value (relative_to root path);
  is_local = λ p. true;
}

abbrev session : ToolSafetyContext
session = record { session_repo_root = text "/r"; mode = ToolMode.normal; command_timeout = pos 0 }

abbrev list_command : Command
list_command = record { line = text "ls"; dir = text "/r/d"; timeout = pos 30000000000 }

prepared_test :
    (prepare_scoped_command plain_paths session ToolAction.bash_execute (text "ls") (text "d")).1
    ≡ ok (some list_command)
unfolding prepare_scoped_command eq trim clean has_prefix
prepared_test = refl

prepare_scoped_command-IsScoped_example :
    (evaluate_action (normalize_mode ToolMode.normal) ToolAction.bash_execute ≡ allow)
    × IsScoped plain_paths session (text "ls") list_command
prepare_scoped_command-IsScoped_example =
    prepare_scoped_command-IsScoped plain_paths session ToolAction.bash_execute (text "ls")
      (text "d") list_command prepared_test

abbrev target : ScopeTarget
target = record { tool_name = text "read"; operation = []; path = text "d/f"; working_dir = [] }

abbrev resolution : ScopeResolution
resolution = record {
  repo_root = text "/r";
  resolved_path = text "/r/d/f";
  resolved_target = text "/r/d/f";
  working_dir = text "/r";
}

enforced_test : enforce_repo_scope plain_paths (text "/r") target ≡ ok resolution
unfolding enforce_repo_scope eq trim clean has_prefix
enforced_test = refl

enforce_repo_scope-IsResolved_example : IsResolved plain_paths target (text "/r") resolution
enforce_repo_scope-IsResolved_example =
    enforce_repo_scope-IsResolved plain_paths target (text "/r") resolution enforced_test
