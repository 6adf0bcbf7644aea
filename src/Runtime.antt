-- ===== src/Runtime.antt =====
-- internal/runtime/types.go: the messages of a conversation and the input and output of a turn.
-- A tool's schema and handler are not part of a definition here: the turn only passes them on.
pub mod Orchestrator
pub mod Persistence
pub mod Sessions
use deep_agent_cli.Base.{ℕ, Bool, Option, List}
use deep_agent_cli.Base.Int.{ℤ}
use deep_agent_cli.Text.{Text}

pub data ExecutionMode : Type 0 where
  interactive one_shot : ExecutionMode
  other : Text → ExecutionMode

pub data StopReason : Type 0 where
  complete tool_calls max_turns cancelled incomplete : StopReason
  other : Text → StopReason

pub data MessageRole : Type 0 where
  system user assistant tool : MessageRole
  other : Text → MessageRole

pub record ToolCall : Type 0 where
  pub id : Text
  pub name : Text
  pub arguments : Text

-- `tool_calls` is `none` where the slice is nil.
pub record Message : Type 0 where
  pub role : MessageRole
  pub content : Text
  pub tool_call_id : Text
  pub tool_name : Text
  pub tool_calls : Option (List ToolCall)

pub record ToolResult : Type 0 where
  pub call_id : Text
  pub name : Text
  pub output : Text
  pub is_error : Bool

pub record Usage : Type 0 where
  pub input_tokens : ℕ
  pub output_tokens : ℕ
  pub total_tokens : ℕ

pub record ToolDefinition : Type 0 where
  pub name : Text
  pub description : Text
  pub handler_name : Text

pub record ExecutionConfig : Type 0 where
  pub mode : ExecutionMode
  pub model : Text
  pub system_prompt : Text
  pub max_turns : ℤ
  pub max_tool_iterations : ℤ
  pub verbose : Bool

pub record TurnInput : Type 0 where
  pub session_id : Text
  pub request_id : Text
  pub user_message : Text
  pub conversation : List Message
  pub config : ExecutionConfig

pub record TurnOutput : Type 0 where
  pub session_id : Text
  pub request_id : Text
  pub assistant_text : Text
  pub messages : List Message
  pub tool_calls : List ToolCall
  pub tool_results : List ToolResult
  pub stop_reason : StopReason
  pub usage : Usage

pub record ProviderRequest : Type 0 where
  pub input : TurnInput
  pub conversation : List Message
  pub tools : List ToolDefinition

pub record ProviderResponse : Type 0 where
  pub assistant_message : Message
  pub tool_calls : List ToolCall
  pub stop_reason : StopReason
  pub usage : Usage
