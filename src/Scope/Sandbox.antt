-- ===== src/Scope/Sandbox.antt =====
-- `EnforceRepoScope` of internal/tools/sandbox/scope_guard.go. The label of a target is only in the
-- texts of errors.
use deep_agent_cli.Base.{[], ◌∷◌, if◌then◌else◌}
use deep_agent_cli.Text.{Text, eq}
use deep_agent_cli.Text.Trim.{trim}
use deep_agent_cli.Indexing.{canonicalize_repo_root}
use deep_agent_cli.Scope.{Paths, Result, ok, ◌>>=◌, of_root, resolve_path_within_repo}

pub record ScopeTarget : Type 0 where
  pub tool_name : Text
  pub operation : Text
  pub path : Text
  pub working_dir : Text

pub record ScopeResolution : Type 0 where
  pub repo_root : Text
  pub resolved_path : Text
  pub resolved_target : Text
  pub working_dir : Text

abbrev pub resolution_of : Text → ScopeResolution
resolution_of root = record {
  repo_root = root;
  resolved_path = [];
  resolved_target = [];
  working_dir = root;
}

module _ (paths : Paths) where
  -- the part on the path of the target
  unfoldable pub with_path : ScopeTarget → Text → Result ScopeResolution
  unfolding resolve_path_within_repo
  with_path target root = if eq (trim target.path) [] then ok (resolution_of root) else do
    resolved ← resolve_path_within_repo paths root target.path
    ok (record (resolution_of root) { resolved_path = resolved; resolved_target = resolved })

  abbrev pub or_target : Text → Text → Text
  or_target [] dir = dir
  or_target (c ∷ s) dir = c ∷ s

  -- the part on its working directory
  unfoldable pub with_working_dir : ScopeTarget → Text → ScopeResolution → Result ScopeResolution
  unfolding resolve_path_within_repo
  with_working_dir target root r = if eq (trim target.working_dir) [] then ok r else do
    dir ← resolve_path_within_repo paths root target.working_dir
    ok (record r { working_dir = dir; resolved_target = or_target r.resolved_target dir })

  abbrev pub with_target : Text → ScopeResolution → ScopeResolution
  with_target root r = record r { resolved_target = or_target r.resolved_target root }

  -- `EnforceRepoScope`
  unfoldable pub enforce_repo_scope : Text → ScopeTarget → Result ScopeResolution
  unfolding canonicalize_repo_root with_path with_working_dir
  enforce_repo_scope repo_root target = do
    root ← of_root (canonicalize_repo_root paths.host repo_root)
    r ← with_path target root
    r' ← with_working_dir target root r
    ok (with_target root r')
