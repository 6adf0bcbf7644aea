-- ===== src/Examples/Sessions.antt =====
-- A store with one session, which is resumed.
use deep_agent_cli.Base.{◌≡◌, refl, true, false, [], ◌∷◌}
use deep_agent_cli.Text.{text, eq}
use deep_agent_cli.Text.Trim.{trim}
use deep_agent_cli.FilePath.{clean}
use deep_agent_cli.Reply.{value, fault}
use deep_agent_cli.Runtime.{user}
use deep_agent_cli.Runtime.Orchestrator.{plain_message}
use deep_agent_cli.Runtime.Sessions.{
  Session, StoredMessage, SessionStore, SessionBootstrap, booted, create_or_resume_session,
}
use deep_agent_cli.Runtime.Sessions.Bound.{SameRepo, create_or_resume_session-SameRepo}
use deep_agent_cli.Examples.Scopes.{plain_paths}

abbrev kept_session : Session
kept_session = record { thread_id = text "t"; repo_root = text "/r"; created_at = 1 }

abbrev kept_message : StoredMessage
kept_message = record {
  id = 1;
  thread_id = text "t";
  role = text "user";
  content = text "go";
  created_at = 2;
}

abbrev sessions : SessionStore (Unit {0})
sessions = record {
  create_session = λ root s. (s, fault (text "full"));
  resume_session = λ t s. (s, value kept_session);
  list_messages = λ t s. value (kept_message ∷ []);
}

abbrev resumption : SessionBootstrap
resumption = record {
  session = kept_session;
  messages = kept_message ∷ [];
  conversation = plain_message user (text "go") ∷ [];
  resumed = true;
}

root_given : eq (trim (text "/r/")) [] ≡ false
unfolding eq trim
root_given = refl

resumption_test :
    (create_or_resume_session plain_paths
      (fault (text "none"))
      sessions
      (text "t")
      (text "/r/")
      tt).1
    ≡ booted resumption
unfolding create_or_resume_session eq trim clean
resumption_test = refl

create_or_resume_session-SameRepo_example : SameRepo plain_paths (text "/r/") (text "/r")
create_or_resume_session-SameRepo_example =
    create_or_resume_session-SameRepo plain_paths (text "/r/") (fault (text "none")) sessions
      root_given (text "t") tt resumption resumption_test refl
