-- ===== src/Scope.antt =====
-- Paths within a repository: internal/session/repo_scope.go, internal/tools/safety/command_guard.go and
-- repo_guard.go, and internal/tools/sandbox/scope_guard.go. What path/filepath and os say of the file
-- system is a parameter; an absolute path that `filepath.Abs` returns is clean.
pub mod Sandbox
pub mod Resolved
pub mod Enforced
use deep_agent_cli.Base.{
  zero, suc, Bool, true, not, ◌||◌, Option, none, some, List, [], ◌∷◌, ◌++◌, reverse, if◌then◌else◌,
}
use deep_agent_cli.Text.{Text, text, eq, has_prefix}
use deep_agent_cli.Text.Trim.{trim}
use deep_agent_cli.Base.Int.{ℤ, pos, negsuc}
use deep_agent_cli.Reply.{Reply, value, fault}
use deep_agent_cli.FilePath.{slash, dot, dot_dot, is_abs, clean, join, split, push_parts}
use deep_agent_cli.Indexing.{Host, IndexError, canonicalize_repo_root}
use deep_agent_cli.Indexing
use deep_agent_cli.Safety.{
  ToolMode, ToolAction, Decision, allow, deny, require_approval, dry_run, normalize_mode,
  evaluate_action,
}

-- The file system: `os.IsNotExist` of an error, by its message, `filepath.Rel` and `filepath.IsLocal`.
pub record Paths : Type 0 where
  pub host : Host
  pub is_not_exist : Text → Bool
  pub rel : Text → Text → Reply Text
  pub is_local : Text → Bool

pub data ScopeError : Type 0 where
  path_required escapes_scope must_stay denied command_required not_a_directory : ScopeError
  bad_root : IndexError → ScopeError
  dependency : Text → ScopeError
  changed_root : Text → ScopeError

pub data Result {ℓ} (A : Type ℓ) : Type ℓ where
  ok : A → Result A
  err : ScopeError → Result A

infixl 5 ◌>>=◌
abbrev pub ◌>>=◌ {ℓ κ} : {A : Type ℓ} {B : Type κ} → Result A → (A → Result B) → Result B
ok a >>= f = f a
err e >>= f = err e

abbrev pub of_reply : {A : Type 0} → Reply A → Result A
of_reply (value a) = ok a
of_reply (fault m) = err (dependency m)

abbrev pub of_root : Indexing.Result Text → Result Text
of_root (Indexing.done root) = ok root
of_root (Indexing.failed e) = err (bad_root e)

-- `filepath.Join` of two paths that are not empty
abbrev pub join_path : Text → Text → Text
join_path a b = clean (a ++ (slash ∷ b))

-- the loop that joins the missing parts to a path, the last one that was found missing first
abbrev pub rejoin : Text → List Text → Text
rejoin resolved [] = resolved
rejoin resolved (p ∷ ps) = rejoin (join_path resolved p) ps

module _ (paths : Paths) where
  -- a round of `evalSymlinksPreservingMissing`, with what the loop makes of the parent
  climbed : List Text → Result Text → Reply Text → Result Text
  climbed missing parent (value resolved) = ok (rejoin resolved missing)
  climbed missing parent (fault m) = if paths.is_not_exist m then parent else err (dependency m)

  -- The loop of `evalSymlinksPreservingMissing`, from the parts of the current path, the last first.
  unfoldable pub climb : Text → List Text → List Text → Result Text
  unfolding climbed
  climb path [] missing = climbed missing (ok (clean path)) (paths.host.eval_symlinks (slash ∷ []))
  climb path (p ∷ ps) missing =
      let parent = climb path ps (p ∷ missing) in
      climbed missing parent (paths.host.eval_symlinks (slash ∷ join (reverse (p ∷ ps))))

  -- `evalSymlinksPreservingMissing`, of an absolute path
  unfoldable pub eval_symlinks_preserving_missing : Text → Result Text
  unfolding climb split push_parts
  eval_symlinks_preserving_missing path = climb path (push_parts true (split path) []) []

  -- `rel == ".." || strings.HasPrefix(rel, "../")`
  abbrev pub escapes : Text → Bool
  escapes rel = eq rel dot_dot || has_prefix rel (dot_dot ++ (slash ∷ []))

  abbrev pub target_of : Text → Text → Text
  target_of root trimmed = if is_abs trimmed then trimmed else join_path root trimmed

  -- `ResolvePathWithinRepo`
  unfoldable pub resolve_path_within_repo : Text → Text → Result Text
  unfolding canonicalize_repo_root eval_symlinks_preserving_missing has_prefix
  resolve_path_within_repo repo_root candidate = do
    root ← of_root (canonicalize_repo_root paths.host repo_root)
    _ ← if eq (trim candidate) [] then err path_required else ok (tt {0})
    abs ← of_reply (paths.host.abs (target_of root (trim candidate)))
    resolved ← eval_symlinks_preserving_missing abs
    rel ← of_reply (paths.rel root resolved)
    if escapes rel then err escapes_scope else ok resolved

  -- `EnsureSessionRepoRootImmutable`, of a session that is bound to a root
  unfoldable pub ensure_root_immutable : Text → Text → Result (Unit {0})
  unfolding canonicalize_repo_root
  ensure_root_immutable bound repo_root = if eq (trim repo_root) [] then ok tt else do
    existing ← of_root (canonicalize_repo_root paths.host bound)
    candidate ← of_root (canonicalize_repo_root paths.host repo_root)
    if eq existing candidate then ok tt else err (changed_root existing)

  -- `ValidateLocalPath`
  unfoldable pub validate_local_path : Text → Result Text
  validate_local_path path =
      if eq (trim path) []
      then err path_required
      else if eq (clean (trim path)) dot
      then ok (clean (trim path))
      else if not (paths.is_local (clean (trim path)))
      then err must_stay
      else ok (clean (trim path))

  -- `resolveRepoDirectory`
  unfoldable pub resolve_repo_directory : Text → Text → Result Text
  unfolding canonicalize_repo_root validate_local_path resolve_path_within_repo
  resolve_repo_directory session_root working_dir = do
    root ← of_root (canonicalize_repo_root paths.host session_root)
    if eq working_dir [] then ok root else do
      local ← validate_local_path working_dir
      resolved ← resolve_path_within_repo root local
      is_dir ← of_reply (paths.host.is_dir resolved)
      if is_dir then ok resolved else err not_a_directory

-- `ToolSafetyContext`; a timeout is in nanoseconds.
pub record ToolSafetyContext : Type 0 where
  pub session_repo_root : Text
  pub mode : ToolMode
  pub command_timeout : ℤ

abbrev pub default_command_timeout : ℤ
default_command_timeout = pos 30000000000

-- `effectiveCommandTimeout`
unfoldable pub effective_command_timeout : ℤ → ℤ
effective_command_timeout (pos zero) = default_command_timeout
effective_command_timeout (pos (suc n)) = pos (suc n)
effective_command_timeout (negsuc n) = default_command_timeout

-- The command that `bash -c` runs, where, and for how long.
pub record Command : Type 0 where
  pub line : Text
  pub dir : Text
  pub timeout : ℤ

module _ (paths : Paths) where
  command_in : ToolSafetyContext → Text → Result Text → Result (Option Command)
  unfolding effective_command_timeout
  command_in context command (err e) = err e
  command_in context command (ok dir) = ok (
      some (record {
        line = command;
        dir = dir;
        timeout = effective_command_timeout context.command_timeout;
      }))

  prepared : ToolSafetyContext → Text → Text → Decision → Result (Option Command)
  unfolding command_in resolve_repo_directory
  prepared context command working_dir deny = err denied
  prepared context command working_dir dry_run = ok none
  prepared context command working_dir require_approval = ok none
  prepared context command working_dir allow =
      if eq command []
      then err command_required
      else command_in context command
          (resolve_repo_directory paths context.session_repo_root working_dir)

  -- `PrepareScopedCommand`: the decision, with the command or the error
  unfoldable pub prepare_scoped_command :
      ToolSafetyContext → ToolAction → Text → Text → Decision × Result (Option Command)
  unfolding prepared evaluate_action normalize_mode
  prepare_scoped_command context action command working_dir =
      let decision = evaluate_action (normalize_mode context.mode) action in
      (decision, prepared context command working_dir decision)
