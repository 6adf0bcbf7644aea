-- ===== src/Scope/Enforced.antt =====
-- What `EnforceRepoScope` of internal/tools/sandbox/scope_guard.go resolves.
use deep_agent_cli.Base.{
  ◌≡◌, refl, sym, ap, ◌∙◌, subst, ◌⊎◌, inl, inr, Bool, true, false, [], ◌∷◌, if◌then◌else◌,
}
use deep_agent_cli.Text.{Text, eq}
use deep_agent_cli.Text.Trim.{trim}
use deep_agent_cli.Indexing.{canonicalize_repo_root}
use deep_agent_cli.Indexing
use deep_agent_cli.Scope.{Paths, ok, ◌>>=◌, of_root, resolve_path_within_repo}
use deep_agent_cli.Scope.Sandbox.{
  ScopeTarget, ScopeResolution, resolution_of, with_path, or_target, with_working_dir, with_target,
  enforce_repo_scope,
}
use deep_agent_cli.Scope.Resolved.{ok-bind, ok_injective, of_root-ok, IsWithin, resolve-IsWithin}

module _ (paths : Paths) (target : ScopeTarget) where
  -- The resolution of a target: a blank part of it stands for nothing or for the root, the others are
  -- resolved within the root.
  pub record IsResolved (repo_root : Text) (r : ScopeResolution) : Type 0 where
    pub is_root : canonicalize_repo_root paths.host repo_root ≡ Indexing.done r.repo_root
    pub path : (r.resolved_path ≡ []) ⊎ IsWithin paths r.repo_root r.resolved_path
    pub dir : (r.working_dir ≡ r.repo_root) ⊎ IsWithin paths r.repo_root r.working_dir
    pub picks :
        r.resolved_target
        ≡ or_target paths r.resolved_path (or_target paths r.working_dir r.repo_root)

  or_target_self : (a : Text) → or_target paths a a ≡ a
  or_target_self [] = refl
  or_target_self (c ∷ s) = refl

  or_target_assoc :
      (a b c : Text)
      → or_target paths (or_target paths a b) c ≡ or_target paths a (or_target paths b c)
  or_target_assoc [] b c = refl
  or_target_assoc (x ∷ s) b c = refl

  module _ (root repo_root : Text)
      (is_root : canonicalize_repo_root paths.host repo_root ≡ Indexing.done root) (path : Text)
      (within : (path ≡ []) ⊎ IsWithin paths root path) where
    abbrev with_resolved : ScopeResolution
    with_resolved = record (resolution_of root) { resolved_path = path; resolved_target = path }

    dir-IsResolved :
        (r : ScopeResolution) (c : Bool)
        → (if c
            then ok with_resolved
            else (resolve_path_within_repo paths root target.working_dir >>= λ dir.
                ok (record with_resolved {
                  working_dir = dir;
                  resolved_target = or_target paths path dir;
                })))
          ≡ ok r
        → IsResolved repo_root (with_target paths root r)
    dir-IsResolved r true h =
        subst (λ r. IsResolved repo_root (with_target paths root r))
          (ok_injective with_resolved r h)
          (record {
            is_root = is_root;
            path = within;
            dir = inl refl;
            picks = ap (or_target paths path) (sym (or_target_self root));
          })
    dir-IsResolved r false h =
        let (dir, (e, k)) =
          ok-bind (resolve_path_within_repo paths root target.working_dir) _ r h in
        subst (λ r. IsResolved repo_root (with_target paths root r)) (ok_injective _ r k)
          (record {
            is_root = is_root;
            path = within;
            dir = inr (resolve-IsWithin paths root target.working_dir dir e);
            picks = or_target_assoc path dir root;
          })

  path-IsResolved :
      (root repo_root : Text)
      → canonicalize_repo_root paths.host repo_root ≡ Indexing.done root
      → (r r' : ScopeResolution) (c : Bool)
      → (if c
          then ok (resolution_of root)
          else (resolve_path_within_repo paths root target.path >>= λ resolved.
              ok (record (resolution_of root) {
                resolved_path = resolved;
                resolved_target = resolved;
              })))
        ≡ ok r
      → with_working_dir paths target root r ≡ ok r'
      → IsResolved repo_root (with_target paths root r')
  unfolding with_working_dir
  path-IsResolved root repo_root i r r' true h k =
      dir-IsResolved root repo_root i [] (inl refl) r' (eq (trim target.working_dir) [])
        (ap (with_working_dir paths target root) (ok_injective (resolution_of root) r h) ∙ k)
  path-IsResolved root repo_root i r r' false h k =
      let (resolved, (e, l)) = ok-bind (resolve_path_within_repo paths root target.path) _ r h in
      dir-IsResolved root repo_root i resolved
        (inr (resolve-IsWithin paths root target.path resolved e)) r'
        (eq (trim target.working_dir) [])
        (ap (with_working_dir paths target root) (ok_injective _ r l) ∙ k)

  -- When `EnforceRepoScope` accepts a target, its root is the canonical root, the path that it resolves
  -- and the working directory are absent or the root, or their paths relative to the canonical root do
  -- not lead out of it, and the resolved target is the path, else the working directory, else the root.
  pub enforce_repo_scope-IsResolved :
      (repo_root : Text) (r : ScopeResolution)
      → enforce_repo_scope paths repo_root target ≡ ok r
      → IsResolved repo_root r
  unfolding enforce_repo_scope with_path
  enforce_repo_scope-IsResolved repo_root r h =
      let (root, (e0, h0)) =
        ok-bind (of_root (canonicalize_repo_root paths.host repo_root)) _ r h in
      let (part, (e1, h1)) = ok-bind (with_path paths target root) _ r h0 in
      let (whole, (e2, h2)) = ok-bind (with_working_dir paths target root part) _ r h1 in
      subst (IsResolved repo_root) (ok_injective _ r h2) (
        path-IsResolved root repo_root (of_root-ok _ root e0) part whole (eq (trim target.path) [])
          e1 e2)
