-- ===== src/Runtime/Orchestrator.antt =====
-- internal/runtime/orchestrator.go: one turn of the agent, from the user's message to an answer.
-- The provider, the registry, the dispatcher, the retriever and the context are an environment with
-- a state of its own: a call may change the state, and so may the passing of time at `cancelled`.
pub mod Conversation
pub mod Dispatch
pub mod Bound
use deep_agent_cli.Base.{
  ℕ, zero, suc, ◌-◌, Bool, true, false, not, ◌&&◌, ◌||◌, Option, none, some, List, [], ◌∷◌, ◌++◌,
  map, if◌then◌else◌,
}
use deep_agent_cli.Base.Int.{ℤ, pos, negsuc}
use deep_agent_cli.Reply.{Reply, value, fault}
use deep_agent_cli.Text.{Text, text, eq}
use deep_agent_cli.Text.Trim.{trim}
use deep_agent_cli.Runtime.{
  StopReason, complete, tool_calls, max_turns, cancelled, MessageRole, system, user, assistant,
  tool, ToolCall, Message, ToolResult, Usage, ToolDefinition, ExecutionConfig, TurnInput,
  TurnOutput, ProviderRequest, ProviderResponse,
}

-- `none` stands for a nil dependency. `retrieve` is `BuildRetrievalContext`: a message, or nothing
-- to add.
pub record Environment (S : Type 0) : Type 0 where
  pub context_error : S → Option Text × S
  pub provider : Option (ProviderRequest → S → Reply ProviderResponse × S)
  pub registry : Option (S → Reply (List ToolDefinition) × S)
  pub dispatcher : Option (ToolCall → S → (ToolResult × Option Text) × S)
  pub retrieve : Text → S → Reply (Option Text) × S

pub data TurnError : Type 0 where
  context_done list_tools complete_turn retrieval : Text → TurnError
  no_dispatcher : TurnError

abbrev pub plain_message : MessageRole → Text → Message
plain_message role content = record {
  role = role;
  content = content;
  tool_call_id = [];
  tool_name = [];
  tool_calls = none;
}

abbrev pub is_system : MessageRole → Bool
is_system system = true
is_system _ = false

abbrev pub is_user : MessageRole → Bool
is_user user = true
is_user _ = false

unfoldable pub has_system_message : List Message → Bool
has_system_message [] = false
has_system_message (m ∷ ms) = is_system m.role || has_system_message ms

unfoldable pub append_conversation : List Message → Text → Text → List Message
unfolding has_system_message
append_conversation existing system_prompt user_message =
    (if not (eq system_prompt []) && not (has_system_message existing)
      then existing ++ (plain_message system system_prompt ∷ [])
      else existing)
    ++ (plain_message user user_message ∷ [])

unfoldable pub fallback_assistant_message : Text → Text
fallback_assistant_message user_message =
    if eq (trim user_message) []
    then text "No input provided."
    else text "Echo: " ++ trim user_message

abbrev pub no_usage : Usage
no_usage = record { input_tokens = 0; output_tokens = 0; total_tokens = 0 }

abbrev pub no_output : TurnOutput
no_output = record {
  session_id = [];
  request_id = [];
  assistant_text = [];
  messages = [];
  tool_calls = [];
  tool_results = [];
  stop_reason = StopReason.other [];
  usage = no_usage;
}

-- `TurnOutput{SessionID: input.SessionID, RequestID: input.RequestID}`
abbrev pub output_for : TurnInput → TurnOutput
output_for input = record no_output { session_id = input.session_id; request_id = input.request_id }

unfoldable pub fallback_turn_output : TurnInput → List Message → TurnOutput
unfolding fallback_assistant_message
fallback_turn_output input conversation =
    let reply = fallback_assistant_message input.user_message in
    record (output_for input) {
      assistant_text = reply;
      messages = conversation ++ (plain_message assistant reply ∷ []);
      stop_reason = complete;
    }

-- the insertion before the last message, if that is the user's
pub insert_before_user : List Message → Message → List Message
insert_before_user [] m = []
insert_before_user (x ∷ []) m = if is_user x.role then m ∷ x ∷ [] else x ∷ []
insert_before_user (x ∷ y ∷ rest) m = x ∷ insert_before_user (y ∷ rest) m

unfoldable pub inject_retrieval_message : List Message → Text → List Message
unfolding insert_before_user
inject_retrieval_message [] retrieved = plain_message system retrieved ∷ []
inject_retrieval_message (m ∷ ms) retrieved =
    insert_before_user (m ∷ ms) (plain_message system retrieved)

abbrev pub or_else : Text → Text → Text
or_else own fallback = if eq own [] then fallback else own

unfoldable pub normalize_tool_result : ToolResult → ToolCall → Text → Bool → ToolResult
normalize_tool_result result call fallback_output is_error = record {
  call_id = or_else result.call_id call.id;
  name = or_else result.name call.name;
  output = or_else result.output fallback_output;
  is_error = is_error;
}

unfoldable pub tool_result_content : ToolResult → Text
tool_result_content result =
    if not (eq result.output [])
    then result.output
    else if result.is_error
    then text "tool execution failed"
    else []

-- the message that carries a result back to the provider
unfoldable pub tool_message : ToolResult → Message
unfolding tool_result_content
tool_message result = record {
  role = tool;
  content = tool_result_content result;
  tool_call_id = result.call_id;
  tool_name = result.name;
  tool_calls = none;
}

abbrev role_or_assistant : MessageRole → MessageRole
role_or_assistant (MessageRole.other []) = assistant
role_or_assistant r = r

abbrev reason_or : StopReason → StopReason → StopReason
reason_or fallback (StopReason.other []) = fallback
reason_or fallback r = r

abbrev calls_or : List ToolCall → Option (List ToolCall) → Option (List ToolCall)
calls_or [] own = own
calls_or (c ∷ cs) none = some (c ∷ cs)
calls_or (c ∷ cs) (some own) = some own

abbrev default_reason : List ToolCall → StopReason
default_reason [] = complete
default_reason (c ∷ cs) = tool_calls

-- the defaults that `completeTurn` fills in
unfoldable pub normalize_response : ProviderResponse → ProviderResponse
normalize_response r = record r {
  assistant_message = record r.assistant_message {
    role = role_or_assistant r.assistant_message.role;
    tool_calls = calls_or r.tool_calls r.assistant_message.tool_calls;
  };
  stop_reason = reason_or (default_reason r.tool_calls) r.stop_reason;
}

-- A result, or the error that ends the turn, with the state of the environment.
pub data Result (A : Type 0) : Type 0 where
  ok : A → Result A
  err : TurnError → Result A

-- one call of the dispatcher: its error becomes a result that says so
unfoldable pub dispatched : ToolCall → ToolResult × Option Text → ToolResult
unfolding normalize_tool_result
dispatched call (result, none) = normalize_tool_result result call result.output result.is_error
dispatched call (result, some message) = normalize_tool_result result call message true

module _ {S : Type 0} (env : Environment S) where
  -- the loop of `dispatchToolCalls`
  unfoldable pub dispatch_all :
      (ToolCall → S → (ToolResult × Option Text) × S)
      → List ToolCall
      → List ToolResult
      → S
      → Result (List ToolResult) × S
  unfolding dispatched
  dispatch_all dispatch [] results s = (ok results, s)
  dispatch_all dispatch (call ∷ calls) results s =
      let (done, s₁) = env.context_error s in
      let (reply, s₂) = dispatch call s₁ in
      let rest = dispatch_all dispatch calls (results ++ (dispatched call reply ∷ [])) s₂ in
      elim done [ some message ↦ (err (context_done message), s₁) | none ↦ rest ]

  unfoldable pub dispatch_tool_calls : List ToolCall → S → Result (List ToolResult) × S
  unfolding dispatch_all
  dispatch_tool_calls calls s = elim env.dispatcher [
    | none ↦ (err no_dispatcher, s)
    | some dispatch ↦ dispatch_all dispatch calls [] s
  ]

  unfoldable pub provider_conversation : TurnInput → List Message → S → Result (List Message) × S
  unfolding inject_retrieval_message
  provider_conversation input conversation s =
      let (reply, s') = env.retrieve input.user_message s in
      elim reply [
        | fault message ↦ (err (retrieval message), s')
        | value none ↦ (ok conversation, s')
        | value (some retrieved) ↦ (ok (inject_retrieval_message conversation retrieved), s')
      ]

  abbrev replied : Reply ProviderResponse → Result ProviderResponse
  replied (fault message) = err (complete_turn message)
  replied (value response) = ok (normalize_response response)

  unfoldable pub ask_provider :
      (ProviderRequest → S → Reply ProviderResponse × S)
      → TurnInput
      → List ToolDefinition
      → Result (List Message)
      → S
      → Result ProviderResponse × S
  unfolding normalize_response
  ask_provider ask input tools (err e) s = (err e, s)
  ask_provider ask input tools (ok sent) s =
      let (reply, s') = ask (record { input = input; conversation = sent; tools = tools }) s in
      (replied reply, s')

  unfoldable pub complete_turn_with :
      (ProviderRequest → S → Reply ProviderResponse × S)
      → TurnInput
      → List Message
      → List ToolDefinition
      → S
      → Result ProviderResponse × S
  unfolding provider_conversation ask_provider
  complete_turn_with ask input conversation tools s =
      let (prepared, s') = provider_conversation input conversation s in
      ask_provider ask input tools prepared s'

  -- what one response adds to the output, before the next tool calls
  abbrev pub with_response : TurnOutput → List Message → ProviderResponse → TurnOutput
  with_response output conversation response = record output {
    assistant_text = response.assistant_message.content;
    messages = conversation ++ (response.assistant_message ∷ []);
    tool_calls = output.tool_calls ++ response.tool_calls;
    stop_reason = response.stop_reason;
    usage = response.usage;
  }

  abbrev pub with_results : TurnOutput → List Message → List ToolResult → TurnOutput
  with_results output conversation results = record output {
    tool_results = output.tool_results ++ results;
    messages = conversation ++ map tool_message results;
  }

  abbrev pub Outcome : Type 0
  Outcome = (TurnOutput × Option TurnError) × S

  -- Behind a response that calls tools: at the last iteration the turn stops, else the calls are
  -- dispatched and `next` goes on.
  abbrev pub Next : Type 0
  Next = TurnOutput → List Message → S → Outcome

  abbrev pub after_dispatch :
      Next → TurnOutput → List Message → Result (List ToolResult) → S → Outcome
  after_dispatch next output conversation (err e) s = ((no_output, some e), s)
  after_dispatch next output conversation (ok results) s =
      next (with_results output conversation results) (conversation ++ map tool_message results) s

  unfoldable pub continue_turn :
      Option Next → TurnOutput → List Message → List ToolCall → S → Outcome
  unfolding dispatch_tool_calls tool_message
  continue_turn next output conversation [] s = ((output, none), s)
  continue_turn none output conversation (call ∷ calls) s =
      ((record output { stop_reason = max_turns }, none), s)
  continue_turn (some next) output conversation (call ∷ calls) s =
      let (results, s') = dispatch_tool_calls (call ∷ calls) s in
      after_dispatch next output conversation results s'

  abbrev pub after_reply :
      Option Next → TurnOutput → List Message → Result ProviderResponse → S → Outcome
  after_reply next output conversation (err e) s = ((no_output, some e), s)
  after_reply next output conversation (ok response) s =
      continue_turn next (with_response output conversation response)
        (conversation ++ (response.assistant_message ∷ [])) response.tool_calls s

  -- one round of the loop of `RunTurn`
  unfoldable pub iterate :
      (ProviderRequest → S → Reply ProviderResponse × S)
      → TurnInput
      → List ToolDefinition
      → Option Next
      → TurnOutput
      → List Message
      → S
      → Outcome
  unfolding complete_turn_with continue_turn
  iterate ask input tools next output conversation s =
      let (done, s₁) = env.context_error s in
      let (replied, s₂) = complete_turn_with ask input conversation tools s₁ in
      elim done [
        | some message ↦ (
          (
            record output { messages = conversation; stop_reason = cancelled },
            some (context_done message),
          ),
          s₁,
        )
        | none ↦ after_reply next output conversation replied s₂
      ]

  -- The loop of `RunTurn`; `rest` is the number of iterations that may follow this one.
  unfoldable pub run_iterations :
      (ProviderRequest → S → Reply ProviderResponse × S)
      → TurnInput
      → List ToolDefinition
      → ℕ
      → TurnOutput
      → List Message
      → S
      → Outcome
  unfolding iterate
  run_iterations ask input tools zero output conversation s =
      iterate ask input tools none output conversation s
  run_iterations ask input tools (suc rest) output conversation s =
      iterate ask input tools (some (λ o c s'. run_iterations ask input tools rest o c s')) output
        conversation s

  -- the iterations after the first that the configuration allows: a limit below 1 is 1
  abbrev pub further_iterations : ℤ → ℕ
  further_iterations (pos n) = n - 1
  further_iterations (negsuc n) = 0

  abbrev listed : Reply (List ToolDefinition) → Result (List ToolDefinition)
  listed (fault message) = err (list_tools message)
  listed (value tools) = ok tools

  unfoldable pub list_tools_of : S → Result (List ToolDefinition) × S
  list_tools_of s = elim env.registry [
    | none ↦ (ok [], s)
    | some list ↦ let (reply, s') = list s in (listed reply, s')
  ]

  pub run_with :
      (ProviderRequest → S → Reply ProviderResponse × S)
      → TurnInput
      → List Message
      → Result (List ToolDefinition)
      → S
      → Outcome
  unfolding run_iterations
  run_with ask input conversation (err e) s = ((no_output, some e), s)
  run_with ask input conversation (ok tools) s =
      run_iterations ask input tools (further_iterations input.config.max_tool_iterations)
        (output_for input) conversation s

  pub run_provider :
      Option (ProviderRequest → S → Reply ProviderResponse × S)
      → TurnInput
      → List Message
      → S
      → Outcome
  unfolding fallback_turn_output list_tools_of run_with
  run_provider none input conversation s = ((fallback_turn_output input conversation, none), s)
  run_provider (some ask) input conversation s =
      let (tools, s') = list_tools_of s in run_with ask input conversation tools s'

  -- `RunTurn`
  unfoldable pub run_turn : TurnInput → S → Outcome
  unfolding append_conversation run_provider
  run_turn input s =
      let conversation =
        append_conversation input.conversation input.config.system_prompt input.user_message in
      let (done, s') = env.context_error s in
      elim done [
        | some message ↦ (
          (
            record (output_for input) { messages = conversation; stop_reason = cancelled },
            some (context_done message),
          ),
          s',
        )
        | none ↦ run_provider env.provider input conversation s'
      ]
