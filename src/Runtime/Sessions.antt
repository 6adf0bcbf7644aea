-- ===== src/Runtime/Sessions.antt =====
-- internal/runtime/session_lifecycle.go, and the session and message of internal/session/model.go that
-- it reads. The store is over the states `S` of the world.
pub mod Bound
use deep_agent_cli.Base.{ℕ, Bool, true, false, List, [], map, if◌then◌else◌}
use deep_agent_cli.Text.{Text, text, eq}
use deep_agent_cli.Text.Trim.{trim}
use deep_agent_cli.Reply.{Reply, value, fault}
use deep_agent_cli.IndexSync.{Time}
use deep_agent_cli.Indexing.{IndexError, canonicalize_repo_root}
use deep_agent_cli.Indexing
use deep_agent_cli.Scope.{Paths, ScopeError, ensure_root_immutable}
use deep_agent_cli.Scope
use deep_agent_cli.Runtime.{MessageRole, system, user, assistant, tool, Message}
use deep_agent_cli.Runtime.Orchestrator.{plain_message}

pub record Session : Type 0 where
  pub thread_id : Text
  pub repo_root : Text
  pub created_at : Time

pub record StoredMessage : Type 0 where
  pub id : ℕ
  pub thread_id : Text
  pub role : Text
  pub content : Text
  pub created_at : Time

-- the operations of `SessionStore` that a start of a session calls
pub record SessionStore (S : Type 0) : Type 0 where
  pub create_session : Text → S → S × Reply Session
  pub resume_session : Text → S → S × Reply Session
  pub list_messages : Text → S → Reply (List StoredMessage)

pub record SessionBootstrap : Type 0 where
  pub session : Session
  pub messages : List StoredMessage
  pub conversation : List Message
  pub resumed : Bool

pub data BootError : Type 0 where
  store_required : BootError
  no_root : IndexError → BootError
  not_bound : ScopeError → BootError
  getwd_failed create_failed resume_failed list_failed : Text → BootError

pub data Result {ℓ} (A : Type ℓ) : Type ℓ where
  booted : A → Result A
  failed : BootError → Result A

-- the role of a stored one, in `rehydrateConversation`
unfoldable pub known_role : Text → MessageRole
known_role s =
    if eq s (text "user")
    then user
    else if eq s (text "tool")
    then tool
    else if eq s (text "system")
    then system
    else assistant

-- `rehydrateConversation`
unfoldable pub rehydrate_conversation : List StoredMessage → List Message
unfolding known_role
rehydrate_conversation messages =
    map (λ m. plain_message (known_role (trim m.role)) m.content) messages

abbrev pub root_of : Indexing.Result Text → Result Text
root_of (Indexing.done root) = booted root
root_of (Indexing.failed e) = failed (no_root e)

module _ (paths : Paths) (working_dir : Reply Text) where
  root_from : Reply Text → Result Text
  unfolding canonicalize_repo_root
  root_from (fault m) = failed (getwd_failed m)
  root_from (value dir) = root_of (canonicalize_repo_root paths.host dir)

  -- `resolveRepoRoot`
  unfoldable pub resolve_repo_root : Text → Result Text
  unfolding root_from
  resolve_repo_root repo_root =
      root_from (if eq (trim repo_root) [] then working_dir else value (trim repo_root))

  module _ {S : Type 0} (store : SessionStore S) where
    created : S × Reply Session → S × Result SessionBootstrap
    created (s, fault m) = (s, failed (create_failed m))
    created (s, value session) = (
      s,
      booted (record { session = session; messages = []; conversation = []; resumed = false }),
    )

    create_in : S → Result Text → S × Result SessionBootstrap
    unfolding created
    create_in s (failed e) = (s, failed e)
    create_in s (booted root) = created (store.create_session root s)

    listed : Session → S → Reply (List StoredMessage) → S × Result SessionBootstrap
    unfolding rehydrate_conversation
    listed session s (fault m) = (s, failed (list_failed m))
    listed session s (value messages) = (
      s,
      booted (record {
        session = session;
        messages = messages;
        conversation = rehydrate_conversation messages;
        resumed = true;
      }),
    )

    bound : Text → Session → S → Scope.Result (Unit {0}) → S × Result SessionBootstrap
    unfolding listed
    bound thread_id session s (Scope.err e) = (s, failed (not_bound e))
    bound thread_id session s (Scope.ok u) = listed session s (store.list_messages thread_id s)

    resumed_in : Text → Text → S × Reply Session → S × Result SessionBootstrap
    unfolding bound ensure_root_immutable
    resumed_in thread_id repo_root (s, fault m) = (s, failed (resume_failed m))
    resumed_in thread_id repo_root (s, value session) =
        bound thread_id session s (ensure_root_immutable paths session.repo_root repo_root)

    -- `CreateOrResumeSession`, of a thread and a root, with a store
    unfoldable pub create_or_resume_session : Text → Text → S → S × Result SessionBootstrap
    unfolding create_in resumed_in resolve_repo_root
    create_or_resume_session thread_id repo_root s =
        if eq (trim thread_id) []
        then create_in s (resolve_repo_root repo_root)
        else resumed_in (trim thread_id) repo_root (store.resume_session (trim thread_id) s)
