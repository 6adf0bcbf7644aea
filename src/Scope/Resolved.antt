-- ===== src/Scope/Resolved.antt =====
-- Where the paths of internal/session/repo_scope.go and of the guards of the tools lie.
use deep_agent_cli.Base.{
  ℕ, zero, suc, ◌≡◌, refl, sym, ap, ◌∙◌, subst, ◌⊎◌, inl, inr, Bool, true, false, some, [], arith,
  if◌then◌else◌,
}
use deep_agent_cli.Text.{Text, eq}
use deep_agent_cli.Text.Trim.{trim}
use deep_agent_cli.Base.Int.{ℤ, pos, negsuc}
use deep_agent_cli.Reply.{Reply, value, fault}
use deep_agent_cli.Indexing.{canonicalize_repo_root}
use deep_agent_cli.Indexing
use deep_agent_cli.Safety.{
  ToolAction, Decision, allow, deny, require_approval, dry_run, normalize_mode, evaluate_action,
}
use deep_agent_cli.Scope.{
  Paths, not_a_directory, ScopeError, Result, ok, err, ◌>>=◌, of_reply, of_root, escapes,
  eval_symlinks_preserving_missing, resolve_path_within_repo, validate_local_path,
  resolve_repo_directory, ToolSafetyContext, effective_command_timeout, Command, command_in,
  prepared, prepare_scoped_command,
}

module _ {A B : Type 0} where
  pub ok-bind :
      (m : Result A) (f : A → Result B) (b : B)
      → (m >>= f) ≡ ok b
      → (a : A) × ((m ≡ ok a) × (f a ≡ ok b))
  ok-bind (ok a) f b h = (a, (refl, h))
  ok-bind (err e) f b h = absurd (ground arith)

module _ {A : Type 0} where
  pub ok_injective : (a b : A) → ok a ≡ ok b → a ≡ b
  ok_injective a b h = ground arith

  some_injective : (a b : A) → some a ≡ some b → a ≡ b
  some_injective a b h = ground arith

  ok-if :
      (c : Bool) (e : ScopeError) (m : Result A) (a : A)
      → (if c then err e else m) ≡ ok a
      → (c ≡ false) × (m ≡ ok a)
  ok-if true e m a h = absurd (ground arith)
  ok-if false e m a h = (refl, h)

  of_reply-ok : (r : Reply A) (a : A) → of_reply r ≡ ok a → r ≡ value a
  of_reply-ok (value b) a h = ap value (ok_injective b a h)
  of_reply-ok (fault m) a h = absurd (ground arith)

pub of_root-ok : (r : Indexing.Result Text) (a : Text) → of_root r ≡ ok a → r ≡ Indexing.done a
of_root-ok (Indexing.done b) a h = ap Indexing.done (ok_injective b a h)
of_root-ok (Indexing.failed e) a h = absurd (ground arith)

module _ (paths : Paths) where
  -- A path lies within a repository: its path relative to the canonical root does not lead out.
  pub record IsWithin (repo_root path : Text) : Type 0 where
    pub root : Text
    pub relative_path : Text
    pub is_root : canonicalize_repo_root paths.host repo_root ≡ Indexing.done root
    pub is_relative : paths.rel root path ≡ value relative_path
    pub stays : escapes paths relative_path ≡ false

  pub resolve-IsWithin :
      (repo_root candidate path : Text)
      → resolve_path_within_repo paths repo_root candidate ≡ ok path
      → IsWithin repo_root path
  unfolding resolve_path_within_repo
  resolve-IsWithin repo_root candidate path h =
      let (root, (e0, h0)) =
        ok-bind (of_root (canonicalize_repo_root paths.host repo_root)) _ path h in
      let (u, (e1, h1)) =
        ok-bind (if eq (trim candidate) [] then err _ else ok (tt {0})) _ path h0 in
      let (abs, (e2, h2)) = ok-bind (of_reply (paths.host.abs _)) _ path h1 in
      let (resolved, (e3, h3)) = ok-bind (eval_symlinks_preserving_missing paths abs) _ path h2 in
      let (rel, (e4, h4)) = ok-bind (of_reply (paths.rel root resolved)) _ path h3 in
      let (s, k) = ok-if (escapes paths rel) _ (ok resolved) path h4 in
      let e = ok_injective resolved path k in
      record {
        root = root;
        relative_path = rel;
        is_root = of_root-ok _ root e0;
        is_relative = ap (paths.rel root) (sym e) ∙ of_reply-ok (paths.rel root resolved) rel e4;
        stays = s;
      }

  -- A directory that a command may run in: the canonical root of the session, or a directory within it.
  pub record IsScopedDir (session_root dir : Text) : Type 0 where
    pub root : Text
    pub is_root : canonicalize_repo_root paths.host session_root ≡ Indexing.done root
    pub lies : (dir ≡ root) ⊎ (IsWithin root dir × (paths.host.is_dir dir ≡ value true))

  if-lies :
      (resolved dir : Text) (b : Bool)
      → paths.host.is_dir resolved ≡ value b
      → (if b then ok resolved else err not_a_directory) ≡ ok dir
      → (resolved ≡ dir) × (paths.host.is_dir resolved ≡ value true)
  if-lies resolved dir true e h = (ok_injective resolved dir h, e)
  if-lies resolved dir false e h = absurd (ground arith)

  lies-if :
      (root working_dir dir : Text) (c : Bool)
      → (if c
          then ok root
          else (validate_local_path paths working_dir >>= λ local.
              resolve_path_within_repo paths root local >>= λ resolved.
              of_reply (paths.host.is_dir resolved) >>= λ is_dir.
              if is_dir then ok resolved else err not_a_directory))
        ≡ ok dir
      → (dir ≡ root) ⊎ (IsWithin root dir × (paths.host.is_dir dir ≡ value true))
  lies-if root working_dir dir true h = inl (sym (ok_injective root dir h))
  lies-if root working_dir dir false h =
      let (local, (e1, h1)) = ok-bind (validate_local_path paths working_dir) _ dir h in
      let (resolved, (e2, h2)) = ok-bind (resolve_path_within_repo paths root local) _ dir h1 in
      let (b, (e3, h3)) = ok-bind (of_reply (paths.host.is_dir resolved)) _ dir h2 in
      let (e, d) = if-lies resolved dir b (of_reply-ok (paths.host.is_dir resolved) b e3) h3 in
      inr (
        subst (λ x. IsWithin root x × (paths.host.is_dir x ≡ value true)) e
          (resolve-IsWithin root local resolved e2, d))

  resolve-IsScopedDir :
      (session_root working_dir dir : Text)
      → resolve_repo_directory paths session_root working_dir ≡ ok dir
      → IsScopedDir session_root dir
  unfolding resolve_repo_directory
  resolve-IsScopedDir session_root working_dir dir h =
      let (root, (e0, h0)) =
        ok-bind (of_root (canonicalize_repo_root paths.host session_root)) _ dir h in
      record {
        root = root;
        is_root = of_root-ok _ root e0;
        lies = lies-if root working_dir dir (eq working_dir []) h0;
      }

  -- What a prepared command is.
  pub record IsScoped (context : ToolSafetyContext) (command : Text) (c : Command) : Type 0 where
    pub line : c.line ≡ command
    pub not_empty : eq command [] ≡ false
    pub dir : IsScopedDir context.session_repo_root c.dir
    pub positive : (n : ℕ) × (c.timeout ≡ pos (suc n))

  timeout-positive : (t : ℤ) → (n : ℕ) × (effective_command_timeout t ≡ pos (suc n))
  unfolding effective_command_timeout
  timeout-positive (pos zero) = (29999999999, refl)
  timeout-positive (pos (suc n)) = (n, refl)
  timeout-positive (negsuc n) = (29999999999, refl)

  command_in-IsScoped :
      (context : ToolSafetyContext) (command working_dir : Text) (c : Command) (r : Result Text)
      → resolve_repo_directory paths context.session_repo_root working_dir ≡ r
      → eq command [] ≡ false
      → command_in paths context command r ≡ ok (some c)
      → IsScoped context command c
  unfolding command_in
  command_in-IsScoped context command working_dir c (err e) k n h = absurd (ground arith)
  command_in-IsScoped context command working_dir c (ok dir) k n h =
      subst (IsScoped context command) (some_injective _ c (ok_injective _ (some c) h)) (record {
        line = refl;
        not_empty = n;
        dir = resolve-IsScopedDir context.session_repo_root working_dir dir k;
        positive = timeout-positive context.command_timeout;
      })

  prepared-IsScoped :
      (context : ToolSafetyContext) (command working_dir : Text) (c : Command) (d : Decision)
      → prepared paths context command working_dir d ≡ ok (some c)
      → (d ≡ allow) × IsScoped context command c
  unfolding prepared
  prepared-IsScoped context command working_dir c deny h = absurd (ground arith)
  prepared-IsScoped context command working_dir c dry_run h = absurd (ground arith)
  prepared-IsScoped context command working_dir c require_approval h = absurd (ground arith)
  prepared-IsScoped context command working_dir c allow h =
      let (n, k) =
        ok-if (eq command []) _
          (command_in paths context command
            (resolve_repo_directory paths context.session_repo_root working_dir))
          (some c) h in
      (refl, command_in-IsScoped context command working_dir c _ refl n k)

  -- A command is only prepared for the shell when the policy of the mode allows the action, outright
  -- and neither as a dry run nor on approval, and then it is the given command, which is not empty, it
  -- runs in the canonical root of the session's repository or in a directory whose path relative to
  -- that root does not lead out of it, and its timeout is positive.
  pub prepare_scoped_command-IsScoped :
      (context : ToolSafetyContext) (action : ToolAction) (command working_dir : Text) (c : Command)
      → (prepare_scoped_command paths context action command working_dir).1 ≡ ok (some c)
      → (evaluate_action (normalize_mode context.mode) action ≡ allow) × IsScoped context command c
  unfolding prepare_scoped_command
  prepare_scoped_command-IsScoped context action command working_dir c h =
      prepared-IsScoped context command working_dir c
        (evaluate_action (normalize_mode context.mode) action) h
