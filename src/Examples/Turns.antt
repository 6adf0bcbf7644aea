-- ===== src/Examples/Turns.antt =====
-- A turn of internal/runtime/orchestrator.go whose provider first asks for a tool and then answers;
-- the state of the environment is the number of requests so far.
use deep_agent_cli.Base.{
  ℕ, zero, suc, ◌≤◌, ◌≡◌, refl, subst, false, Option, none, some, [], ◌∷◌, arith,
}
use deep_agent_cli.Base.Int.{pos}
use deep_agent_cli.Text.{Text, text, eq}
use deep_agent_cli.Reply.{Reply, value}
use deep_agent_cli.Runtime.{
  interactive, StopReason, assistant, ToolCall, ToolResult, TurnInput, ProviderRequest,
  ProviderResponse,
}
use deep_agent_cli.Runtime.Orchestrator.{
  Environment, ok, run_turn, append_conversation, dispatch_tool_calls, dispatched, plain_message,
  no_usage,
}
use deep_agent_cli.Runtime.Orchestrator.Conversation.{IsOutcome, run_turn-IsOutcome}
use deep_agent_cli.Runtime.Orchestrator.Dispatch.{AnswersAll, dispatch_tool_calls-AnswersAll}
use deep_agent_cli.Runtime.Orchestrator.Bound.{Meters, run_turn-spent}

abbrev call : ToolCall
call = record { id = text "1"; name = text "ls"; arguments = [] }

abbrev response : ℕ → ProviderResponse
response zero = record {
  assistant_message = plain_message assistant [];
  tool_calls = call ∷ [];
  stop_reason = StopReason.other [];
  usage = no_usage;
}
response (suc n) = record {
  assistant_message = plain_message assistant (text "hi");
  tool_calls = [];
  stop_reason = StopReason.other [];
  usage = no_usage;
}

abbrev ask : ProviderRequest → ℕ → Reply ProviderResponse × ℕ
ask request n = (value (response n), suc n)

abbrev result : ToolResult
result = record { call_id = []; name = []; output = text "f"; is_error = false }

abbrev dispatch : ToolCall → ℕ → (ToolResult × Option Text) × ℕ
dispatch c n = ((result, none), n)

abbrev env : Environment ℕ
env = record {
  context_error = λ n. (none, n);
  provider = some ask;
  registry = none;
  dispatcher = some dispatch;
  retrieve = λ t n. (value none, n);
}

abbrev input : TurnInput
input = record {
  session_id = text "s";
  request_id = text "q";
  user_message = text "go";
  conversation = [];
  config = record {
    mode = interactive;
    model = [];
    system_prompt = text "be brief";
    max_turns = pos 1;
    max_tool_iterations = pos 3;
    verbose = false;
  };
}

turn_test : (run_turn env input 0).0.0.assistant_text ≡ text "hi"
unfolding run_turn eq
turn_test = refl

run_turn-IsOutcome_example :
    IsOutcome env (append_conversation [] (text "be brief") (text "go")) (run_turn env input 0).0
run_turn-IsOutcome_example = run_turn-IsOutcome env input 0

abbrev CountsAsks : Option (ProviderRequest → ℕ → Reply ProviderResponse × ℕ) → Type 0
CountsAsks none = Unit
CountsAsks (some a) = (r : ProviderRequest) (n : ℕ) → (a r n).1 ≤ suc n

abbrev KeepsCount : Option (ToolCall → ℕ → (ToolResult × Option Text) × ℕ) → Type 0
KeepsCount none = Unit
KeepsCount (some d) = (c : ToolCall) (n : ℕ) → (d c n).1 ≤ n

dispatching :
    (d : ToolCall → ℕ → (ToolResult × Option Text) × ℕ)
    → some dispatch ≡ some d
    → (c : ToolCall) (n : ℕ) → (d c n).1 ≤ n
dispatching d e = subst KeepsCount e (λ c n. omega arith)

asking :
    (a : ProviderRequest → ℕ → Reply ProviderResponse × ℕ)
    → some ask ≡ some a
    → (r : ProviderRequest) (n : ℕ) → (a r n).1 ≤ suc n
asking a e = subst CountsAsks e (λ r n. omega arith)

abbrev meters : Meters env (λ n. n)
meters = record {
  waiting = λ n. omega arith;
  retrieving = λ t n. omega arith;
  asking = asking;
  listing = λ l e n. absurd (ground arith);
  dispatching = dispatching;
}

run_turn-spent_example : (run_turn env input 0).1 ≤ 3
run_turn-spent_example = run_turn-spent env (λ n. n) meters input 0

dispatch_test : (dispatch_tool_calls env (call ∷ []) 0).0 ≡ ok (dispatched call (result, none) ∷ [])
unfolding dispatch_tool_calls
dispatch_test = refl

dispatch_tool_calls-AnswersAll_example :
    (d : ToolCall → ℕ → (ToolResult × Option Text) × ℕ) × (env.dispatcher ≡ some d)
    × AnswersAll env d 0 (call ∷ []) (dispatched call (result, none) ∷ [])
dispatch_tool_calls-AnswersAll_example =
    dispatch_tool_calls-AnswersAll env (call ∷ []) 0 (dispatched call (result, none) ∷ [])
      dispatch_test
