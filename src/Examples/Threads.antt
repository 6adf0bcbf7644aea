-- ===== src/Examples/Threads.antt =====
-- A store that is the log of one thread, and a runner that answers.
use deep_agent_cli.Base.{◌≡◌, refl, sym, ap, false, some, [], ◌∷◌, ◌++◌, arith}
use deep_agent_cli.Text.{Text, text}
use deep_agent_cli.Reply.{Reply, value, fault}
use deep_agent_cli.Base.Int.{pos}
use deep_agent_cli.Runtime.{interactive, complete, user, assistant, TurnInput, TurnOutput}
use deep_agent_cli.Runtime.Orchestrator.{no_usage, plain_message}
use deep_agent_cli.Runtime.Persistence.{Append, run_persistent_turn}
use deep_agent_cli.Runtime.Persistence.Logged.{Log, LogLaws, LoggedIn, run_persistent_turn-Logged}

abbrev add_entry : Append Log
add_entry thread_id role content s = (s ++ ((role, content) ∷ []), value tt)

abbrev answer : TurnOutput
answer = record {
  session_id = text "s";
  request_id = text "q";
  assistant_text = text "hi";
  messages = plain_message user (text "go") ∷ plain_message assistant (text "hi") ∷ [];
  tool_calls = [];
  tool_results = [];
  stop_reason = complete;
  usage = no_usage;
}

abbrev replies : TurnInput → Log → Log × Reply TurnOutput
replies input s = (s, value answer)

abbrev question : TurnInput
question = record {
  session_id = text "s";
  request_id = text "q";
  user_message = text "go";
  conversation = [];
  config = record {
    mode = interactive;
    model = [];
    system_prompt = [];
    max_turns = pos 1;
    max_tool_iterations = pos 3;
    verbose = false;
  };
}

not_a_fault : (m : Text) → ¬ (value (tt {0}) ≡ fault m)
not_a_fault m h = absurd (ground arith)

replies-LogLaws : LogLaws add_entry replies (λ s. s) (text "s")
replies-LogLaws = record {
  adds = λ role content s s' u h. sym (ap (λ x. x.0) h);
  drops = λ role content s s' m h. absurd (not_a_fault m (ap (λ x. x.1) h));
  keeps = λ input s. refl;
}

run_persistent_turn-Logged_example :
    LoggedIn add_entry replies
      (λ s. s)
      question
      replies-LogLaws
      []
      (run_persistent_turn (record { store = some add_entry; runner = some replies }) question [])
run_persistent_turn-Logged_example =
    run_persistent_turn-Logged add_entry replies (λ s. s) question replies-LogLaws []
