-- ===== src/Runtime/Orchestrator/Dispatch.antt =====
-- Tool results answer their calls, and the conversation's edits keep what was there.
use deep_agent_cli.Base.{
  ℕ, ◌+◌, ◌≤◌, ◌<◌, ◌≡◌, refl, sym, ◌∙◌, subst, inl, inr, true, false, not, ◌&&◌, false≢true,
  Option, none, some, List, [], ◌∷◌, ◌++◌, append-nil, append_assoc, arith, if◌then◌else◌,
  Bool-cases, Option-cases,
}
use deep_agent_cli.Text.{Text, eq, eq_iff}
use deep_agent_cli.Runtime.{system, user, ToolCall, Message, ToolResult}
use deep_agent_cli.Runtime.Orchestrator.{
  Environment, ok, dispatched, dispatch_all, dispatch_tool_calls, append_conversation,
  has_system_message, is_system, is_user, inject_retrieval_message, plain_message,
  insert_before_user, or_else,
}

-- The result answers the call: it bears the call's identifier and name, or those that the
-- dispatcher set; a reported error is marked, and its message is the output if there is no other.
abbrev pub AnswersCall : ToolCall → ToolResult × Option Text → ToolResult → Type 0
AnswersCall call (given, failure) r =
    (r.call_id ≡ or_else given.call_id call.id)
    × (r.name ≡ or_else given.name call.name)
    × ((m : Text) → failure ≡ some m → (r.is_error ≡ true) × (r.output ≡ or_else given.output m))
    × (failure ≡ none → (r.is_error ≡ given.is_error) × (r.output ≡ given.output))

dispatched-AnswersCall :
    (call : ToolCall) (reply : ToolResult × Option Text)
    → AnswersCall call reply (dispatched call reply)
unfolding dispatched
dispatched-AnswersCall call (given, none) =
    (refl, refl, λ m e. absurd (ground arith), λ e. (refl, ground (arith, eq_iff given.output [])))
dispatched-AnswersCall call (given, some m) =
    (refl, refl, λ k e. (refl, ground arith), λ e. absurd (ground arith))

module _ {S : Type 0} (env : Environment S) where
  -- One result for each call, in order, when the dispatcher is asked in turn from a state on: each
  -- answers its call with what the dispatcher returned for it, behind a test of the context.
  abbrev pub AnswersAll :
      (ToolCall → S → (ToolResult × Option Text) × S) → S → List ToolCall → List ToolResult → Type 0
  AnswersAll dispatch s [] [] = Unit
  AnswersAll dispatch s [] (r ∷ rs) = ⊥
  AnswersAll dispatch s (c ∷ cs) [] = ⊥
  AnswersAll dispatch s (c ∷ cs) (r ∷ rs) =
      AnswersCall c (dispatch c (env.context_error s).1).0 r
      × AnswersAll dispatch (dispatch c (env.context_error s).1).1 cs rs

  -- One result for each call, in order, each answering its call with what the dispatcher returned for
  -- it in some state.
  abbrev pub Answered : List ToolCall → List ToolResult → Type 0
  Answered [] [] = Unit
  Answered [] (r ∷ rs) = ⊥
  Answered (c ∷ cs) [] = ⊥
  Answered (c ∷ cs) (r ∷ rs) =
      ((dispatch : ToolCall → S → (ToolResult × Option Text) × S) × (t : S) × (env.dispatcher
          ≡ some dispatch)
        × AnswersCall c (dispatch c t).0 r)
      × Answered cs rs

  pub Answered-append :
      (cs ds : List ToolCall) (rs qs : List ToolResult)
      → Answered cs rs
      → Answered ds qs
      → Answered (cs ++ ds) (rs ++ qs)
  Answered-append [] ds [] qs h k = k
  Answered-append [] ds (r ∷ rs) qs h k = absurd h
  Answered-append (c ∷ cs) ds [] qs h k = absurd h
  Answered-append (c ∷ cs) ds (r ∷ rs) qs h k = (h.0, Answered-append cs ds rs qs h.1 k)

  AnswersAll-Answered :
      (dispatch : ToolCall → S → (ToolResult × Option Text) × S)
      → env.dispatcher ≡ some dispatch
      → (s : S) (cs : List ToolCall) (rs : List ToolResult) → AnswersAll dispatch s cs rs
      → Answered cs rs
  AnswersAll-Answered dispatch e s [] [] h = tt
  AnswersAll-Answered dispatch e s [] (r ∷ rs) h = h
  AnswersAll-Answered dispatch e s (c ∷ cs) [] h = h
  AnswersAll-Answered dispatch e s (c ∷ cs) (r ∷ rs) h =
      let s₁ = (env.context_error s).1 in
      ((dispatch, s₁, e, h.0), AnswersAll-Answered dispatch e (dispatch c s₁).1 cs rs h.1)

  dispatch_all-AnswersAll :
      (dispatch : ToolCall → S → (ToolResult × Option Text) × S) (calls : List ToolCall)
      (results : List ToolResult) (s : S) (done : List ToolResult)
      → (dispatch_all env dispatch calls results s).0 ≡ ok done
      → (new : List ToolResult) × (done ≡ results ++ new) × AnswersAll dispatch s calls new
  unfolding dispatch_all
  dispatch_all-AnswersAll dispatch [] results s done h =
      ([], ground (arith, append-nil results), tt)
  dispatch_all-AnswersAll dispatch (call ∷ calls) results s done h =
      elim (Option-cases (env.context_error s).0) [
        | inr (m, e) ↦ absurd (ground arith)
        | inl e ↦
            let reply = dispatch call (env.context_error s).1 in
            let r = dispatched call reply.0 in
            let (new, q, a) =
              dispatch_all-AnswersAll dispatch calls (results ++ (r ∷ [])) reply.1 done
                (rw (e, dispatch_all) at h) in
            (
              r ∷ new,
              q ∙ append_assoc results (r ∷ []) new,
              (dispatched-AnswersCall call reply.0, a),
            )
      ]

  -- Whenever a round of tool calls is not cut off, there is a dispatcher, which is asked once for each
  -- call, in the order of the calls and from state to state, and the round yields one result for each
  -- call, in that order. Each bears the call's identifier and name, or those that the dispatcher set,
  -- and the dispatcher's output; if the dispatcher reported an error, the result is marked as one, and
  -- its output is the error's message where the dispatcher gave none.
  pub dispatch_tool_calls-AnswersAll :
      (calls : List ToolCall) (s : S) (results : List ToolResult)
      → (dispatch_tool_calls env calls s).0 ≡ ok results
      → (dispatch : ToolCall → S → (ToolResult × Option Text) × S) × (env.dispatcher
          ≡ some dispatch)
        × AnswersAll dispatch s calls results
  unfolding dispatch_tool_calls
  dispatch_tool_calls-AnswersAll calls s results h = elim (Option-cases env.dispatcher) [
    | inl e ↦ absurd (ground arith)
    | inr (dispatch, e) ↦
        let (new, q, a) = dispatch_all-AnswersAll dispatch calls [] s results (rw e at h) in
        (dispatch, e, subst (AnswersAll dispatch s calls) (sym q) a)
  ]

  pub dispatch_tool_calls-Answered :
      (calls : List ToolCall) (s : S) (results : List ToolResult)
      → (dispatch_tool_calls env calls s).0 ≡ ok results
      → Answered calls results
  dispatch_tool_calls-Answered calls s results h =
      let (dispatch, e, a) = dispatch_tool_calls-AnswersAll calls s results h in
      AnswersAll-Answered dispatch e s calls results a

-- How many system messages there are.
unfoldable pub count_system : List Message → ℕ
count_system [] = 0
count_system (m ∷ ms) = (if is_system m.role then 1 else 0) + count_system ms

count_system-append :
    (xs ys : List Message) → count_system (xs ++ ys) ≡ count_system xs + count_system ys
unfolding count_system
count_system-append [] ys = omega arith
count_system-append (x ∷ xs) ys = omega (arith, count_system-append xs ys)

has_system_message-count : (ms : List Message) → has_system_message ms ≡ false → count_system ms ≡ 0
unfolding has_system_message count_system
has_system_message-count [] h = refl
has_system_message-count (m ∷ ms) h = ground (arith, has_system_message-count ms)

has_system_message-pos : (ms : List Message) → has_system_message ms ≡ true → 0 < count_system ms
unfolding has_system_message count_system
has_system_message-pos [] h = absurd (false≢true h)
has_system_message-pos (m ∷ ms) h = ground (arith, has_system_message-pos ms)

-- What a conversation is like when a turn begins.
pub record Begins (existing : List Message) (prompt message : Text) (c : List Message)
    : Type 0 where
  pub keeps : (more : List Message) × (c ≡ existing ++ (more ++ (plain_message user message ∷ [])))
  pub at_most_one : count_system c ≤ 1
  pub prompted : eq prompt [] ≡ false → count_system c ≡ 1

-- Beginning a turn keeps the messages so far and ends with the user's message. If there was at most
-- one system message, there still is, and exactly one if a system prompt is configured.
pub append_conversation-Begins :
    (existing : List Message) (prompt message : Text)
    → count_system existing ≤ 1
    → Begins existing prompt message (append_conversation existing prompt message)
unfolding append_conversation count_system
append_conversation-Begins existing prompt message h =
    let asked = plain_message user message ∷ [] in
    let told = plain_message system prompt ∷ [] in
    elim (Bool-cases (not (eq prompt []) && not (has_system_message existing))) [
      | inl e ↦ rw e (record {
        keeps = (told, append_assoc existing told asked);
        at_most_one = ground (
          arith,
          count_system-append (existing ++ told) asked,
          count_system-append existing told,
          has_system_message-count existing,
        );
        prompted = λ p. ground (
          arith,
          count_system-append (existing ++ told) asked,
          count_system-append existing told,
          has_system_message-count existing,
        );
      })
      | inr e ↦ rw e (record {
        keeps = ([], refl);
        at_most_one = omega (arith, count_system-append existing asked);
        prompted = λ p.
            ground (arith, count_system-append existing asked, has_system_message-pos existing);
      })
    ]

insert_before_user_append :
    (before : List Message) (asked m : Message)
    → insert_before_user (before ++ (asked ∷ [])) m
      ≡ (if is_user asked.role then before ++ (m ∷ asked ∷ []) else before ++ (asked ∷ []))
unfolding insert_before_user
insert_before_user_append [] asked m = refl
insert_before_user_append (x ∷ []) asked m = ground arith
insert_before_user_append (x ∷ y ∷ rest) asked m =
    ground (arith, insert_before_user_append (y ∷ rest) asked m)

-- Retrieved evidence goes in as a system message directly before the user's message that ends the
-- conversation; a conversation that ends with any other message is left as it is.
pub inject_retrieval_message_lem :
    (before : List Message) (asked : Message) (retrieved : Text)
    → inject_retrieval_message (before ++ (asked ∷ [])) retrieved ≡ (
        if is_user asked.role
        then before ++ (plain_message system retrieved ∷ asked ∷ [])
        else before ++ (asked ∷ []))
unfolding inject_retrieval_message
inject_retrieval_message_lem [] asked retrieved =
    insert_before_user_append [] asked (plain_message system retrieved)
inject_retrieval_message_lem (x ∷ before) asked retrieved =
    insert_before_user_append (x ∷ before) asked (plain_message system retrieved)
