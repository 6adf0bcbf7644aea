-- ===== src/Runtime/Persistence.antt =====
-- internal/runtime/message_persistence.go: a turn whose messages are stored, the user's before it runs
-- and the assistant's before it is shown. The store and the runner are over the states `S` of the world.
pub mod Logged
use deep_agent_cli.Base.{Bool, true, false, not, Option, none, some, List, [], ◌∷◌, if◌then◌else◌}
use deep_agent_cli.Text.{Text, text, eq}
use deep_agent_cli.Text.Trim.{trim}
use deep_agent_cli.Reply.{Reply, value, fault}
use deep_agent_cli.Runtime.{
  MessageRole, system, user, assistant, tool, Message, TurnInput, TurnOutput,
}
use deep_agent_cli.Runtime.Orchestrator.{plain_message}

pub data PersistError : Type 0 where
  runner_required store_required session_id_required role_required assistant_missing : PersistError
  append_failed run_failed : Text → PersistError

pub data Result {ℓ} (A : Type ℓ) : Type ℓ where
  done : A → Result A
  failed : PersistError → Result A

-- `string(role)`
abbrev pub role_text : MessageRole → Text
role_text system = text "system"
role_text user = text "user"
role_text assistant = text "assistant"
role_text tool = text "tool"
role_text (MessageRole.other s) = s

-- `AppendMessage` of a thread, with a role and a content
abbrev pub Append : Type 0 → Type 0
Append S = Text → Text → Text → S → S × Reply (Unit {0})

-- `PersistentTurnRunner`; `none` stands for nil.
pub record PersistentTurnRunner (S : Type 0) : Type 0 where
  pub store : Option (Append S)
  pub runner : Option (TurnInput → S → S × Reply TurnOutput)

unfoldable pub is_assistant : MessageRole → Bool
is_assistant assistant = true
is_assistant _ = false

-- the last message of the assistant, in the loop of `finalAssistantMessage`
unfoldable pub last_assistant : List Message → Option Message
unfolding is_assistant
last_assistant [] = none
last_assistant (m ∷ ms) = elim (last_assistant ms) [
  | some l ↦ some l
  | none ↦ if is_assistant m.role then some m else none
]

abbrev pub or_text : Text → Option Message → Result Message
or_text answer (some m) = done m
or_text answer none =
    if not (eq (trim answer) [])
    then done (plain_message assistant answer)
    else failed assistant_missing

-- `finalAssistantMessage`
unfoldable pub final_assistant_message : TurnOutput → Result Message
unfolding last_assistant
final_assistant_message output = or_text output.assistant_text (last_assistant output.messages)

module _ {S : Type 0} where
  appended : S × Reply (Unit {0}) → S × Result (Unit {0})
  appended (s, value u) = (s, done tt)
  appended (s, fault m) = (s, failed (append_failed m))

  -- `PersistTurn`, of a store
  unfoldable pub persist_turn : Append S → Text → MessageRole → Text → S → S × Result (Unit {0})
  unfolding appended
  persist_turn append thread_id role content s =
      if eq (trim (role_text role)) []
      then (s, failed role_required)
      else appended (append thread_id (trim (role_text role)) content s)

  answered : TurnOutput → S × Result (Unit {0}) → S × Result TurnOutput
  answered output (s, done u) = (s, done output)
  answered output (s, failed e) = (s, failed e)

  finished : Append S → TurnInput → TurnOutput → S → Result Message → S × Result TurnOutput
  unfolding answered persist_turn
  finished append input output s (failed e) = (s, failed e)
  finished append input output s (done m) =
      answered output (persist_turn append input.session_id m.role m.content s)

  ran : Append S → TurnInput → S × Reply TurnOutput → S × Result TurnOutput
  unfolding finished final_assistant_message
  ran append input (s, fault m) = (s, failed (run_failed m))
  ran append input (s, value output) =
      finished append input output s (final_assistant_message output)

  asked :
      Append S
      → (TurnInput → S → S × Reply TurnOutput)
      → TurnInput
      → S × Result (Unit {0})
      → S × Result TurnOutput
  unfolding ran
  asked append runner input (s, failed e) = (s, failed e)
  asked append runner input (s, done u) = ran append input (runner input s)

  run_parts :
      Option (TurnInput → S → S × Reply TurnOutput)
      → Option (Append S)
      → TurnInput
      → S
      → S × Result TurnOutput
  unfolding asked persist_turn
  run_parts none store input s = (s, failed runner_required)
  run_parts (some runner) none input s = (s, failed store_required)
  run_parts (some runner) (some append) input s =
      if eq (trim input.session_id) []
      then (s, failed session_id_required)
      else asked append runner input
          (persist_turn append input.session_id user input.user_message s)

  -- `RunTurn`
  unfoldable pub run_persistent_turn :
      PersistentTurnRunner S → TurnInput → S → S × Result TurnOutput
  unfolding run_parts
  run_persistent_turn r input s = run_parts r.runner r.store input s
