-- ===== src/Runtime/Sessions/Bound.antt =====
-- The repository of a session that internal/runtime/session_lifecycle.go resumes.
use deep_agent_cli.Base.{
  ◌≡◌, refl, sym, ap, ◌∙◌, subst, Bool, true, false, false≢true, List, [], arith, if◌then◌else◌,
}
use deep_agent_cli.Text.{Text, eq, eq_iff}
use deep_agent_cli.Text.Trim.{trim}
use deep_agent_cli.Reply.{Reply, value, fault}
use deep_agent_cli.Indexing.{canonicalize_repo_root}
use deep_agent_cli.Indexing
use deep_agent_cli.Scope.{◌>>=◌, Paths, of_root, changed_root, ensure_root_immutable}
use deep_agent_cli.Scope
use deep_agent_cli.Scope.Resolved.{ok-bind, of_root-ok}
use deep_agent_cli.Runtime.Sessions.{
  Session, StoredMessage, SessionStore, SessionBootstrap, Result, booted, failed, resolve_repo_root,
  created, create_in, listed, bound, resumed_in, create_or_resume_session,
}

booted_injective : (a b : SessionBootstrap) → booted a ≡ booted b → a ≡ b
booted_injective a b h = ground arith

module _ (paths : Paths) (repo_root : Text) where
  -- Both roots are one directory.
  abbrev pub SameRepo : Text → Type 0
  SameRepo bound_root =
      (root : Text) × ((canonicalize_repo_root paths.host bound_root ≡ Indexing.done root)
        × (canonicalize_repo_root paths.host repo_root ≡ Indexing.done root))

  same-if :
      (a b : Text) (c : Bool)
      → eq a b ≡ c
      → (if c then Scope.ok (tt {0}) else Scope.err (changed_root a)) ≡ Scope.ok (tt {0})
      → a ≡ b
  same-if a b true e h = (eq_iff a b).0 e
  same-if a b false e h = absurd (ground arith)

  ensure-SameRepo :
      (bound_root : Text) (c : Bool)
      → c ≡ false
      → (if c
          then Scope.ok (tt {0})
          else (of_root (canonicalize_repo_root paths.host bound_root) >>= λ existing.
              of_root (canonicalize_repo_root paths.host repo_root) >>= λ candidate.
              if eq existing candidate
              then Scope.ok (tt {0})
              else Scope.err (changed_root existing)))
        ≡ Scope.ok (tt {0})
      → SameRepo bound_root
  ensure-SameRepo bound_root true z h = absurd (false≢true (sym z))
  ensure-SameRepo bound_root false z h =
      let (a, (e0, h0)) = ok-bind (of_root (canonicalize_repo_root paths.host bound_root)) _ tt h in
      let (b, (e1, h1)) = ok-bind (of_root (canonicalize_repo_root paths.host repo_root)) _ tt h0 in
      (
        a,
        (
          of_root-ok _ a e0,
          of_root-ok _ b e1 ∙ ap Indexing.done (sym (same-if a b (eq a b) refl h1)),
        ),
      )

  module _ (working_dir : Reply Text) {S : Type 0} (store : SessionStore S)
      (given : eq (trim repo_root) [] ≡ false) where
    IsBound : S × Result SessionBootstrap → Type 0
    IsBound (s, failed e) = Unit
    IsBound (s, booted b) = b.resumed ≡ true → SameRepo b.session.repo_root

    created-IsBound : (r : S × Reply Session) → IsBound (created paths working_dir store r)
    unfolding created IsBound
    created-IsBound (s, fault m) = tt
    created-IsBound (s, value session) = λ h. absurd (false≢true h)

    create_in-IsBound : (s : S) (r : Result Text) → IsBound (create_in paths working_dir store s r)
    unfolding create_in IsBound
    create_in-IsBound s (failed e) = tt
    create_in-IsBound s (booted root) = created-IsBound (store.create_session root s)

    listed-IsBound :
        (session : Session) (s : S) (r : Reply (List StoredMessage))
        → SameRepo session.repo_root
        → IsBound (listed paths working_dir store session s r)
    unfolding listed IsBound
    listed-IsBound session s (fault m) h = tt
    listed-IsBound session s (value messages) h = λ _. h

    bound-IsBound :
        (thread_id : Text) (session : Session) (s : S) (r : Scope.Result (Unit {0}))
        → ensure_root_immutable paths session.repo_root repo_root ≡ r
        → IsBound (bound paths working_dir store thread_id session s r)
    unfolding bound IsBound ensure_root_immutable
    bound-IsBound thread_id session s (Scope.err e) h = tt
    bound-IsBound thread_id session s (Scope.ok u) h =
        listed-IsBound session s (store.list_messages thread_id s)
          (ensure-SameRepo session.repo_root (eq (trim repo_root) []) given h)

    resumed_in-IsBound :
        (thread_id : Text) (r : S × Reply Session)
        → IsBound (resumed_in paths working_dir store thread_id repo_root r)
    unfolding resumed_in IsBound
    resumed_in-IsBound thread_id (s, fault m) = tt
    resumed_in-IsBound thread_id (s, value session) =
        bound-IsBound thread_id session s (ensure_root_immutable paths session.repo_root repo_root)
          refl

    IsBound-if :
        (thread_id : Text) (s : S) (c : Bool)
        → IsBound (
            if c
            then create_in paths working_dir store s (resolve_repo_root paths working_dir repo_root)
            else resumed_in paths working_dir store
                (trim thread_id)
                repo_root
                (store.resume_session (trim thread_id) s))
    IsBound-if thread_id s true =
        create_in-IsBound s (resolve_repo_root paths working_dir repo_root)
    IsBound-if thread_id s false =
        resumed_in-IsBound (trim thread_id) (store.resume_session (trim thread_id) s)

    IsBound-booted :
        (r : S × Result SessionBootstrap) (b : SessionBootstrap)
        → IsBound r
        → r.1 ≡ booted b
        → b.resumed ≡ true
        → SameRepo b.session.repo_root
    unfolding IsBound
    IsBound-booted (s, failed e) b h k = absurd (ground arith)
    IsBound-booted (s, booted a) b h k =
        subst (λ x. x.resumed ≡ true → SameRepo x.session.repo_root) (booted_injective a b k) h

    -- A session stays with its repository: when `CreateOrResumeSession` resumes a thread and a
    -- repository is given, that one and the repository that the session is bound to have the same
    -- canonical root, whatever the store returns.
    pub create_or_resume_session-SameRepo :
        (thread_id : Text) (s : S) (b : SessionBootstrap)
        → (create_or_resume_session paths working_dir store thread_id repo_root s).1 ≡ booted b
        → b.resumed ≡ true
        → SameRepo b.session.repo_root
    unfolding create_or_resume_session
    create_or_resume_session-SameRepo thread_id s b =
        IsBound-booted (create_or_resume_session paths working_dir store thread_id repo_root s) b
          (IsBound-if thread_id s (eq (trim thread_id) []))
