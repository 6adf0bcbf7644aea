-- ===== src/Runtime/Orchestrator/Bound.antt =====
-- How often a turn asks the provider.
use deep_agent_cli.Base.{
  ℕ, zero, suc, ◌+◌, ◌≤◌, ◌≡◌, refl, inl, inr, Option, none, some, List, [], ◌∷◌, ◌++◌, arith,
  Option-cases,
}
use deep_agent_cli.Text.{Text}
use deep_agent_cli.Reply.{Reply}
use deep_agent_cli.Runtime.{
  ToolCall, Message, ToolResult, ToolDefinition, TurnInput, TurnOutput, ProviderRequest,
  ProviderResponse,
}
use deep_agent_cli.Runtime.Orchestrator
use deep_agent_cli.Runtime.Orchestrator.{
  Environment, TurnError, Result, ok, err, dispatch_all, dispatch_tool_calls, after_reply,
  after_dispatch, continue_turn, iterate, run_iterations, run_with, run_provider, run_turn,
  complete_turn_with, ask_provider, list_tools_of, provider_conversation, with_response,
  with_results, further_iterations,
}

-- A meter of the environment that only a call of the provider moves, by one at most, such as the
-- number of those calls.
pub record Meters {S : Type 0} (env : Environment S) (spent : S → ℕ) : Type 0 where
  pub waiting : (s : S) → spent (env.context_error s).1 ≤ spent s
  pub retrieving : (t : Text) (s : S) → spent (env.retrieve t s).1 ≤ spent s
  pub asking :
      (ask : ProviderRequest → S → Reply ProviderResponse × S)
      → env.provider ≡ some ask
      → (r : ProviderRequest) (s : S) → spent (ask r s).1 ≤ suc (spent s)
  pub listing :
      (list : S → Reply (List ToolDefinition) × S)
      → env.registry ≡ some list
      → (s : S) → spent (list s).1 ≤ spent s
  pub dispatching :
      (dispatch : ToolCall → S → (ToolResult × Option Text) × S)
      → env.dispatcher ≡ some dispatch
      → (c : ToolCall) (s : S) → spent (dispatch c s).1 ≤ spent s

module _ {S : Type 0} (env : Environment S) (spent : S → ℕ) (m : Meters env spent) where
  dispatch_all-spent :
      (dispatch : ToolCall → S → (ToolResult × Option Text) × S)
      → env.dispatcher ≡ some dispatch
      → (calls : List ToolCall) (results : List ToolResult) (s : S)
      → spent (dispatch_all env dispatch calls results s).1 ≤ spent s
  unfolding dispatch_all
  dispatch_all-spent dispatch d [] results s = omega arith
  dispatch_all-spent dispatch d (call ∷ calls) results s =
      let s₁ = (env.context_error s).1 in
      let reply = dispatch call s₁ in
      let more = results ++ (Orchestrator.dispatched call reply.0 ∷ []) in
      elim (Option-cases (env.context_error s).0) [
        | inr (t, e) ↦ rw (e, dispatch_all) (m.waiting s)
        | inl e ↦
            rw (e, dispatch_all)
              (omega (
                arith,
                m.waiting s,
                m.dispatching dispatch d call s₁,
                dispatch_all-spent dispatch d calls more reply.1,
              ))
      ]

  dispatch_tool_calls-spent :
      (calls : List ToolCall) (s : S) → spent (dispatch_tool_calls env calls s).1 ≤ spent s
  unfolding dispatch_tool_calls
  dispatch_tool_calls-spent calls s = elim (Option-cases env.dispatcher) [
    | inl e ↦ rw (e, dispatch_tool_calls) (omega arith)
    | inr (dispatch, e) ↦ rw (e, dispatch_tool_calls) (dispatch_all-spent dispatch e calls [] s)
  ]

  provider_conversation-spent :
      (input : TurnInput) (c : List Message) (s : S)
      → spent (provider_conversation env input c s).1 ≤ spent s
  unfolding provider_conversation
  provider_conversation-spent input c s = ground (arith, m.retrieving input.user_message s)

  module _ (ask : ProviderRequest → S → Reply ProviderResponse × S)
      (asks : env.provider ≡ some ask) where
    ask_provider-spent :
        (input : TurnInput) (tools : List ToolDefinition) (r : Result (List Message)) (s : S)
        → spent (ask_provider env ask input tools r s).1 ≤ suc (spent s)
    unfolding ask_provider
    ask_provider-spent input tools (err e) s = omega arith
    ask_provider-spent input tools (ok sent) s =
        m.asking ask asks (record { input = input; conversation = sent; tools = tools }) s

    complete_turn_with-spent :
        (input : TurnInput) (c : List Message) (tools : List ToolDefinition) (s : S)
        → spent (complete_turn_with env ask input c tools s).1 ≤ suc (spent s)
    unfolding complete_turn_with
    complete_turn_with-spent input c tools s =
        let r = provider_conversation env input c s in
        omega (arith, ask_provider-spent input tools r.0 r.1, provider_conversation-spent input c s)

    -- The calls that may still follow: `k` of them.
    abbrev SpendsAtMost : ℕ → Option (Orchestrator.Next env) → Type 0
    SpendsAtMost k none = Unit
    SpendsAtMost k (some next) =
        (o : TurnOutput) (c : List Message) (s : S) → spent (next o c s).1 ≤ spent s + k

    after_dispatch-spent :
        (k : ℕ) (next : Orchestrator.Next env) (o : TurnOutput) (c : List Message)
        (r : Result (List ToolResult)) (s : S)
        → SpendsAtMost k (some next)
        → spent (after_dispatch env next o c r s).1 ≤ spent s + k
    after_dispatch-spent k next o c (err e) s h = omega arith
    after_dispatch-spent k next o c (ok results) s h = h _ _ s

    continue_turn-spent :
        (k : ℕ) (next : Option (Orchestrator.Next env)) (o : TurnOutput) (c : List Message)
        (calls : List ToolCall) (s : S)
        → SpendsAtMost k next
        → spent (continue_turn env next o c calls s).1 ≤ spent s + k
    unfolding continue_turn
    continue_turn-spent k next o c [] s h = omega arith
    continue_turn-spent k none o c (call ∷ calls) s h = omega arith
    continue_turn-spent k (some next) o c (call ∷ calls) s h =
        let r = dispatch_tool_calls env (call ∷ calls) s in
        omega (
          arith,
          after_dispatch-spent k next o c r.0 r.1 h,
          dispatch_tool_calls-spent (call ∷ calls) s,
        )

    after_reply-spent :
        (k : ℕ) (next : Option (Orchestrator.Next env)) (o : TurnOutput) (c : List Message)
        (r : Result ProviderResponse) (s : S)
        → SpendsAtMost k next
        → spent (after_reply env next o c r s).1 ≤ spent s + k
    after_reply-spent k next o c (err e) s h = omega arith
    after_reply-spent k next o c (ok response) s h =
        continue_turn-spent k next (with_response env o c response)
          (c ++ (response.assistant_message ∷ [])) response.tool_calls s h

    module _ (input : TurnInput) (tools : List ToolDefinition) where
      iterate-spent :
          (k : ℕ) (next : Option (Orchestrator.Next env)) (o : TurnOutput) (c : List Message)
          (s : S)
          → SpendsAtMost k next
          → spent (iterate env ask input tools next o c s).1 ≤ spent s + suc k
      unfolding iterate
      iterate-spent k next o c s h =
          let s₁ = (env.context_error s).1 in
          let r = complete_turn_with env ask input c tools s₁ in
          elim (Option-cases (env.context_error s).0) [
            | inr (t, e) ↦ rw (e, iterate) (omega (arith, m.waiting s))
            | inl e ↦
                rw (e, iterate)
                  (omega (
                    arith,
                    m.waiting s,
                    complete_turn_with-spent input c tools s₁,
                    after_reply-spent k next o c r.0 r.1 h,
                  ))
          ]

      run_iterations-spent :
          (rest : ℕ) (o : TurnOutput) (c : List Message) (s : S)
          → spent (run_iterations env ask input tools rest o c s).1 ≤ spent s + suc rest
      unfolding run_iterations
      run_iterations-spent zero o c s = iterate-spent 0 none o c s tt
      run_iterations-spent (suc rest) o c s =
          iterate-spent (suc rest)
            (some (λ o' c' s'. run_iterations env ask input tools rest o' c' s')) o c s
            (λ o' c' s'. run_iterations-spent rest o' c' s')

    run_with-spent :
        (input : TurnInput) (c : List Message) (r : Result (List ToolDefinition)) (s : S)
        → spent (run_with env ask input c r s).1
          ≤ spent s + suc (further_iterations env input.config.max_tool_iterations)
    unfolding run_with
    run_with-spent input c (err e) s = omega arith
    run_with-spent input c (ok tools) s = run_iterations-spent input tools _ _ c s

  list_tools_of-spent : (s : S) → spent (list_tools_of env s).1 ≤ spent s
  unfolding list_tools_of
  list_tools_of-spent s = elim (Option-cases env.registry) [
    | inl e ↦ rw (e, list_tools_of) (omega arith)
    | inr (list, e) ↦ rw (e, list_tools_of) (m.listing list e s)
  ]

  run_provider-spent :
      (provider : Option (ProviderRequest → S → Reply ProviderResponse × S))
      → env.provider ≡ provider
      → (input : TurnInput) (c : List Message) (s : S)
      → spent (run_provider env provider input c s).1
        ≤ spent s + suc (further_iterations env input.config.max_tool_iterations)
  unfolding run_provider
  run_provider-spent none e input c s = omega arith
  run_provider-spent (some ask) e input c s =
      let r = list_tools_of env s in
      omega (arith, run_with-spent ask e input c r.0 r.1, list_tools_of-spent s)

  -- A turn moves the meter by no more than the number of iterations that the configuration allows,
  -- which is 1 for a limit below 1: it asks the provider at most so often, whatever is answered.
  pub run_turn-spent :
      (input : TurnInput) (s : S)
      → spent (run_turn env input s).1
        ≤ spent s + suc (further_iterations env input.config.max_tool_iterations)
  unfolding run_turn
  run_turn-spent input s =
      let s₁ = (env.context_error s).1 in
      elim (Option-cases (env.context_error s).0) [
        | inr (t, e) ↦ rw (e, run_turn) (omega (arith, m.waiting s))
        | inl e ↦
            rw (e, run_turn)
              (omega (arith, m.waiting s, run_provider-spent env.provider refl input _ s₁))
      ]
