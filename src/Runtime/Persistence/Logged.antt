-- ===== src/Runtime/Persistence/Logged.antt =====
-- What a turn of internal/runtime/message_persistence.go leaves in the log of its thread.
use deep_agent_cli.Base.{
  ◌≡◌, refl, sym, ap, ◌∙◌, subst, Bool, true, false, some, List, [], ◌∷◌, ◌++◌, if◌then◌else◌,
}
use deep_agent_cli.Text.{Text, text, eq}
use deep_agent_cli.Text.Trim.{trim}
use deep_agent_cli.Reply.{Reply, value, fault}
use deep_agent_cli.Runtime.{MessageRole, user, Message, TurnInput, TurnOutput}
use deep_agent_cli.Runtime.Persistence.{
  PersistError, Result, done, failed, session_id_required, role_required, run_failed, role_text,
  Append, final_assistant_message, appended, persist_turn, answered, finished, ran, asked,
  run_parts, run_persistent_turn,
}

-- A role and a content.
abbrev pub Log : Type 0
Log = List (Text × Text)

-- The log of a thread: an append that succeeds adds one entry at its end, one that fails adds none, and
-- the runner does not touch it.
pub record LogLaws {S : Type 0} (append : Append S) (runner : TurnInput → S → S × Reply TurnOutput)
    (log : S → Log) (thread_id : Text) : Type 0 where
  pub adds :
      (role content : Text) (s s' : S) (u : Unit {0})
      → append thread_id role content s ≡ (s', value u)
      → log s' ≡ log s ++ ((role, content) ∷ [])
  pub drops :
      (role content : Text) (s s' : S) (m : Text)
      → append thread_id role content s ≡ (s', fault m)
      → log s' ≡ log s
  pub keeps : (input : TurnInput) (s : S) → log (runner input s).0 ≡ log s

-- The log after a turn, and its result: nothing was stored, or the user's message alone, or the user's
-- message, behind which the runner ran, and the answer of the runner's output, which is the result.
pub data Logged {S : Type 0} (runner : TurnInput → S → S × Reply TurnOutput) (log : S → Log)
    (input : TurnInput) (before after : Log) : Result TurnOutput → Type 0 where
  rejected : (e : PersistError) → after ≡ before → Logged runner log input before after (failed e)
  unanswered :
      (e : PersistError)
      → after ≡ before ++ ((text "user", input.user_message) ∷ [])
      → Logged runner log input before after (failed e)
  stored :
      (s s' : S) (output : TurnOutput) (m : Message)
      → log s ≡ before ++ ((text "user", input.user_message) ∷ [])
      → runner input s ≡ (s', value output)
      → final_assistant_message output ≡ done m
      → after
        ≡ (before ++ ((text "user", input.user_message) ∷ []))
          ++ ((trim (role_text m.role), m.content) ∷ [])
      → Logged runner log input before after (done output)

module _ {S : Type 0} (append : Append S) (runner : TurnInput → S → S × Reply TurnOutput)
    (log : S → Log) (input : TurnInput) (laws : LogLaws append runner log input.session_id) where
  -- What an attempt to store a message did.
  IsAppended : Log → Text → Text → S × Result (Unit {0}) → Type 0
  IsAppended before role content (s', done u) = log s' ≡ before ++ ((role, content) ∷ [])
  IsAppended before role content (s', failed e) = log s' ≡ before

  appended-IsAppended :
      (s : S) (role content : Text) (r : S × Reply (Unit {0}))
      → append input.session_id role content s ≡ r
      → IsAppended (log s) role content (appended r)
  unfolding appended IsAppended
  appended-IsAppended s role content (s', value u) h = laws.adds role content s s' u h
  appended-IsAppended s role content (s', fault m) h = laws.drops role content s s' m h

  persist-if :
      (s : S) (role content : Text) (c : Bool)
      → IsAppended (log s) role content (
          if c
          then (s, failed role_required)
          else appended (append input.session_id role content s))
  unfolding IsAppended
  persist-if s role content true = refl
  persist-if s role content false =
      appended-IsAppended s role content (append input.session_id role content s) refl

  persist_turn-IsAppended :
      (s : S) (role : MessageRole) (content : Text)
      → IsAppended
          (log s)
          (trim (role_text role))
          content
          (persist_turn append input.session_id role content s)
  unfolding persist_turn
  persist_turn-IsAppended s role content =
      persist-if s (trim (role_text role)) content (eq (trim (role_text role)) [])

  unfoldable pub LoggedIn : Log → S × Result TurnOutput → Type 0
  LoggedIn before (s', r) = Logged runner log input before (log s') r

  abbrev with_user : Log → Log
  with_user before = before ++ ((text "user", input.user_message) ∷ [])

  module _ (before : Log) (s s' : S) (output : TurnOutput) (asked_of : log s ≡ with_user before)
      (is_output : runner input s ≡ (s', value output)) where
    answered-Logged :
        (m : Message)
        → final_assistant_message output ≡ done m
        → (r : S × Result (Unit {0}))
        → IsAppended (with_user before) (trim (role_text m.role)) m.content r
        → LoggedIn before (answered output r)
    unfolding answered IsAppended LoggedIn
    answered-Logged m e (t, done u) h = stored s s' output m asked_of is_output e h
    answered-Logged m e (t, failed f) h = unanswered f h

    finished-Logged :
        log s' ≡ with_user before
        → (f : Result Message) → final_assistant_message output ≡ f
        → LoggedIn before (finished append input output s' f)
    unfolding finished LoggedIn
    finished-Logged h (failed e) k = unanswered e h
    finished-Logged h (done m) k =
        answered-Logged m k (persist_turn append input.session_id m.role m.content s') (
          subst
            (λ b.
              IsAppended b (trim (role_text m.role)) m.content
                (persist_turn append input.session_id m.role m.content s'))
            h (persist_turn-IsAppended s' m.role m.content))

  ran-Logged :
      (before : Log) (s : S)
      → log s ≡ with_user before
      → (r : S × Reply TurnOutput) → runner input s ≡ r
      → LoggedIn before (ran append input r)
  unfolding ran LoggedIn
  ran-Logged before s h (s', fault m) e =
      unanswered (run_failed m) (sym (ap (λ r. log r.0) e) ∙ laws.keeps input s ∙ h)
  ran-Logged before s h (s', value output) e =
      finished-Logged before s s' output h e (sym (ap (λ r. log r.0) e) ∙ laws.keeps input s ∙ h)
        (final_assistant_message output) refl

  asked-Logged :
      (before : Log) (r : S × Result (Unit {0}))
      → IsAppended before (text "user") input.user_message r
      → LoggedIn before (asked append runner input r)
  unfolding asked IsAppended LoggedIn
  asked-Logged before (s, failed e) h = rejected e h
  asked-Logged before (s, done u) h = ran-Logged before s h (runner input s) refl

  user_trimmed : trim (text "user") ≡ text "user"
  unfolding trim
  user_trimmed = refl

  run-if :
      (s : S) (c : Bool)
      → LoggedIn (log s) (
          if c
          then (s, failed session_id_required)
          else asked append runner input
              (persist_turn append input.session_id user input.user_message s))
  unfolding LoggedIn
  run-if s true = rejected session_id_required refl
  run-if s false =
      asked-Logged (log s) (persist_turn append input.session_id user input.user_message s) (
        subst
          (λ r.
            IsAppended (log s) r input.user_message
              (persist_turn append input.session_id user input.user_message s))
          user_trimmed (persist_turn-IsAppended s user input.user_message))

  -- A turn that is stored, over any store that logs and any runner that does not. When it succeeds,
  -- the runner was called with the input once the log had gained the user's message, the result is the
  -- output of that call, and the log has then gained the final assistant message of that output. When
  -- it fails, the log has gained the user's message alone or nothing.
  pub run_persistent_turn-Logged :
      (s : S)
      → LoggedIn
          (log s)
          (run_persistent_turn (record { store = some append; runner = some runner }) input s)
  unfolding run_persistent_turn run_parts
  run_persistent_turn-Logged s = run-if s (eq (trim input.session_id) [])
