-- ===== src/Runtime/Orchestrator/Conversation.antt =====
-- What a turn makes of the conversation.
use deep_agent_cli.Base.{
  ℕ, zero, suc, ◌≡◌, refl, sym, ap, ◌∙◌, subst, ◌⊎◌, inl, inr, Option, none, some, List, [], ◌∷◌,
  ◌++◌, map, append-nil, append_assoc, Option-cases,
}
use deep_agent_cli.Runtime.{
  max_turns, cancelled, ToolCall, Message, ToolResult, ToolDefinition, TurnInput, TurnOutput,
  ProviderRequest, ProviderResponse,
}
use deep_agent_cli.Reply.{Reply}
use deep_agent_cli.Runtime.Orchestrator
use deep_agent_cli.Runtime.Orchestrator.Dispatch.{
  Answered, Answered-append, dispatch_tool_calls-Answered,
}
use deep_agent_cli.Runtime.Orchestrator.{
  Environment, TurnError, context_done, no_output, output_for, Result, ok, err, dispatched,
  dispatch_all, dispatch_tool_calls, append_conversation, fallback_turn_output, tool_message,
  after_reply, after_dispatch, continue_turn, iterate, run_iterations, run_with, run_provider,
  run_turn, complete_turn_with, list_tools_of, with_response, with_results, further_iterations,
}

-- The messages are those of the conversation, some further ones, and last the answer, whose text
-- the output repeats.
abbrev pub Answers : List Message → TurnOutput → Type 0
Answers conversation o =
    (between : List Message) × (answer : Message) × (o.messages
      ≡ conversation ++ (between ++ (answer ∷ [])))
    × (o.assistant_text ≡ answer.content)

module _ {S : Type 0} (env : Environment S) where
  -- Every tool call has its result.
  abbrev pub Settled : TurnOutput → Type 0
  Settled o = Answered env o.tool_calls o.tool_results

  -- What a turn that began with the conversation may return: without an error, an answer, with every
  -- tool call answered unless the iterations ran out; with an error, nothing at all, or, when the
  -- context is done, the conversation as far as it went.
  abbrev pub IsOutcome : List Message → TurnOutput × Option TurnError → Type 0
  IsOutcome conversation (o, none) =
      Answers conversation o × (Settled o ⊎ (o.stop_reason ≡ max_turns))
  IsOutcome conversation (o, some e) =
      (o ≡ no_output)
      ⊎ ((o.stop_reason ≡ cancelled)
          × ((more : List Message) × (o.messages ≡ conversation ++ more)))

  -- A longer conversation serves for a shorter one.
  IsOutcome-longer :
      (conversation more : List Message) (r : TurnOutput × Option TurnError)
      → IsOutcome (conversation ++ more) r
      → IsOutcome conversation r
  IsOutcome-longer conversation more (o, none) ((between, answer, e, t), b) = (
    (
      more ++ between,
      answer,
      e
          ∙ append_assoc conversation more (between ++ (answer ∷ []))
          ∙ ap (λ l. conversation ++ l) (sym (append_assoc more between (answer ∷ []))),
      t,
    ),
    b,
  )
  IsOutcome-longer conversation more (o, some e) (inl n) = inl n
  IsOutcome-longer conversation more (o, some e) (inr (c, (rest, q))) =
      inr (c, (more ++ rest, q ∙ append_assoc conversation more rest))

  abbrev NextIsOutcome : Option (Orchestrator.Next env) → Type 0
  NextIsOutcome none = Unit
  NextIsOutcome (some next) =
      (o : TurnOutput) (c : List Message) (s : S) → Settled o → IsOutcome c (next o c s).0

  module _ (o : TurnOutput) (c : List Message) (response : ProviderResponse)
      (settled : Settled o) where
    abbrev answered : List Message
    answered = c ++ (response.assistant_message ∷ [])

    abbrev after : TurnOutput
    after = with_response env o c response

    after_dispatch-IsOutcome :
        (next : Orchestrator.Next env) (r : Result (List ToolResult)) (s : S)
        → ((x : TurnOutput) (d : List Message) (t : S) → Settled x → IsOutcome d (next x d t).0)
        → ((done : List ToolResult) → r ≡ ok done → Answered env response.tool_calls done)
        → IsOutcome c (after_dispatch env next after answered r s).0
    after_dispatch-IsOutcome next (err e) s h f = inl refl
    after_dispatch-IsOutcome next (ok results) s h f =
        let more = (response.assistant_message ∷ []) ++ map tool_message results in
        let long = answered ++ map tool_message results in
        let out = next (with_results env after answered results) long s in
        IsOutcome-longer c more out.0 (
          subst (λ d. IsOutcome d out.0)
            (append_assoc c (response.assistant_message ∷ []) (map tool_message results))
            (h (with_results env after answered results) long s (
              Answered-append env o.tool_calls response.tool_calls o.tool_results results settled
                (f results refl))))

    answers : Answers c after
    answers = ([], response.assistant_message, refl, refl)

    continue_turn-IsOutcome :
        (next : Option (Orchestrator.Next env)) (calls : List ToolCall) (s : S)
        → NextIsOutcome next
        → response.tool_calls ≡ calls
        → IsOutcome c (continue_turn env next after answered calls s).0
    unfolding continue_turn
    continue_turn-IsOutcome next [] s h e = (
      answers,
      inl (
          subst (λ l. Answered env l o.tool_results)
            (sym (ap (λ l. o.tool_calls ++ l) e ∙ append-nil o.tool_calls)) settled),
    )
    continue_turn-IsOutcome none (call ∷ calls) s h e = (answers, inr refl)
    continue_turn-IsOutcome (some next) (call ∷ calls) s h e =
        let r = dispatch_tool_calls env (call ∷ calls) s in
        after_dispatch-IsOutcome next r.0 r.1 h (λ done q.
          subst (λ l. Answered env l done) (sym e)
            (dispatch_tool_calls-Answered env (call ∷ calls) s done q))

  after_reply-IsOutcome :
      (next : Option (Orchestrator.Next env)) (o : TurnOutput) (c : List Message)
      (r : Result ProviderResponse) (s : S)
      → NextIsOutcome next
      → Settled o
      → IsOutcome c (after_reply env next o c r s).0
  after_reply-IsOutcome next o c (err e) s h b = inl refl
  after_reply-IsOutcome next o c (ok response) s h b =
      continue_turn-IsOutcome o c response b next response.tool_calls s h refl

  module _ (ask : ProviderRequest → S → Reply ProviderResponse × S) (input : TurnInput)
      (tools : List ToolDefinition) where
    iterate-IsOutcome :
        (next : Option (Orchestrator.Next env)) (o : TurnOutput) (c : List Message) (s : S)
        → NextIsOutcome next
        → Settled o
        → IsOutcome c (iterate env ask input tools next o c s).0
    unfolding iterate
    iterate-IsOutcome next o c s h b = elim (Option-cases (env.context_error s).0) [
      | inr (m, e) ↦
          let s₁ = (env.context_error s).1 in
          let q : iterate env ask input tools next o c s
              ≡ ((record o { messages = c; stop_reason = cancelled }, some (context_done m)), s₁) =
            rw (e, iterate) refl in
          subst (λ x. IsOutcome c x.0) (sym q) (inr (refl, ([], sym (append-nil c))))
      | inl e ↦
          let s₁ = (env.context_error s).1 in
          let r = complete_turn_with env ask input c tools s₁ in
          let q : iterate env ask input tools next o c s ≡ after_reply env next o c r.0 r.1 =
            rw (e, iterate) refl in
          subst (λ x. IsOutcome c x.0) (sym q) (after_reply-IsOutcome next o c r.0 r.1 h b)
    ]

    run_iterations-IsOutcome :
        (rest : ℕ) (o : TurnOutput) (c : List Message) (s : S)
        → Settled o
        → IsOutcome c (run_iterations env ask input tools rest o c s).0
    unfolding run_iterations
    run_iterations-IsOutcome zero o c s b = iterate-IsOutcome none o c s tt b
    run_iterations-IsOutcome (suc rest) o c s b =
        iterate-IsOutcome (some (λ o' c' s'. run_iterations env ask input tools rest o' c' s')) o c
          s (λ o' c' s' b'. run_iterations-IsOutcome rest o' c' s' b') b

  run_with-IsOutcome :
      (ask : ProviderRequest → S → Reply ProviderResponse × S) (input : TurnInput)
      (c : List Message) (r : Result (List ToolDefinition)) (s : S)
      → IsOutcome c (run_with env ask input c r s).0
  unfolding run_with
  run_with-IsOutcome ask input c (err e) s = inl refl
  run_with-IsOutcome ask input c (ok tools) s =
      run_iterations-IsOutcome ask input tools
        (further_iterations env input.config.max_tool_iterations) (output_for input) c s tt

  run_provider-IsOutcome :
      (provider : Option (ProviderRequest → S → Reply ProviderResponse × S)) (input : TurnInput)
      (c : List Message) (s : S)
      → IsOutcome c (run_provider env provider input c s).0
  unfolding run_provider
  run_provider-IsOutcome none input c s = (([], _, refl, refl), inl tt)
  run_provider-IsOutcome (some ask) input c s =
      let r = list_tools_of env s in run_with-IsOutcome ask input c r.0 r.1

  -- A turn that ends without an error extends the conversation it began with, the user's message
  -- included, by further messages and last the answer, whose text is the output's; and, unless the
  -- stop reason is max_turns, the results and the tool calls correspond one to one and in
  -- order, each result answering its call with what the dispatcher returned for that call. A turn that
  -- ends with an error returns nothing, or, cancelled, what the conversation had become.
  pub run_turn-IsOutcome :
      (input : TurnInput) (s : S)
      → IsOutcome
          (append_conversation input.conversation input.config.system_prompt input.user_message)
          (run_turn env input s).0
  unfolding run_turn
  run_turn-IsOutcome input s =
      let c =
        append_conversation input.conversation input.config.system_prompt input.user_message in
      elim (Option-cases (env.context_error s).0) [
        | inr (m, e) ↦
            let o = record (output_for input) { messages = c; stop_reason = cancelled } in
            let q : run_turn env input s ≡ ((o, some (context_done m)), (env.context_error s).1) =
              rw (e, run_turn) refl in
            subst (λ x. IsOutcome c x.0) (sym q) (inr (refl, ([], sym (append-nil c))))
        | inl e ↦
            let s₁ = (env.context_error s).1 in
            let q : run_turn env input s ≡ run_provider env env.provider input c s₁ =
              rw (e, run_turn) refl in
            subst (λ x. IsOutcome c x.0) (sym q) (run_provider-IsOutcome env.provider input c s₁)
      ]
