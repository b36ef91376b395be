-- ===== src/Assistant.antt =====
-- src/state/aiStore.ts: the conversations with the AI assistant, one for each host. `drawn` is the
-- number of identifiers drawn so far from the platform's supply.
pub mod Actions
pub mod Wire
pub mod Frame
pub mod Machine
use connect_hub.Base.{
  ℕ, String, Bool, true, false, ◌&&◌, List, [], ◌∷◌, map, Option, none, some, if◌then◌else◌,
  is_some, get_or_else, maybe, get_last?, Dict, insert, delete,
}
use connect_hub.Bridge.{ExecOutput, AiProvider, ToolCall, AiMessageInput}

pub data Role : Type 0 where
  user assistant tool_result : Role

pub record AiMessage : Type 0 where
  pub id : String
  pub role : Role
  pub text : Option String
  pub tool_call : Option ToolCall
  pub exec_output : Option ExecOutput
  pub ran_in_terminal : Bool
  pub skipped : Bool
  pub needs_confirmation : Option String

pub data AiMode : Type 0 where
  ask autonomous : AiMode

abbrev pub is_autonomous : AiMode → Bool
is_autonomous ask = false
is_autonomous autonomous = true

pub record AiConversation : Type 0 where
  pub messages : List AiMessage
  pub mode : AiMode
  pub provider : Option AiProvider
  pub running : Bool
  pub stop_requested : Bool
  pub iteration_count : ℕ
  pub error : Option String

abbrev pub empty_conversation : AiConversation
empty_conversation = record {
  messages = [];
  mode = ask;
  provider = none;
  running = false;
  stop_requested = false;
  iteration_count = 0;
  error = none;
}

pub record AiState : Type 0 where
  pub conversations : Dict AiConversation
  pub drawn : ℕ

abbrev pub max_autonomous_iterations : ℕ
max_autonomous_iterations = 25

unfoldable pub get_conversation : AiState → String → AiConversation
get_conversation s host_id = get_or_else (s.conversations host_id) empty_conversation

unfoldable pub update : AiState → String → (AiConversation → AiConversation) → AiState
update s host_id f = record s {
  conversations =
      insert host_id (f (get_or_else (s.conversations host_id) empty_conversation)) s.conversations;
}

abbrev pub is_assistant : Role → Bool
is_assistant assistant = true
is_assistant _ = false

unfoldable pub has_pending_tool_call : List AiMessage → Bool
has_pending_tool_call messages =
    maybe false (λ (last : AiMessage). is_assistant last.role && is_some last.tool_call)
      (get_last? messages)

abbrev no_output : String → ExecOutput
no_output stdout = record { stdout = stdout; stderr = ""; exit_status = none; truncated = false }

-- What the provider is told that a command gave.
told_output : AiMessage → ExecOutput
told_output m =
    if m.ran_in_terminal
    then no_output
        "(Sent to the user's live terminal session to run interactively - output isn't captured here. Ask the user what happened if you need to know.)"
    else if m.skipped
    then no_output "(The user chose not to run this command.)"
    else get_or_else m.exec_output (no_output "")

to_message_input_as : Role → AiMessage → AiMessageInput
unfolding told_output
to_message_input_as user m = AiMessageInput.user (get_or_else m.text "")
to_message_input_as tool_result m =
    AiMessageInput.tool_result (maybe "" (λ (c : ToolCall). c.command) m.tool_call) (told_output m)
to_message_input_as assistant m = AiMessageInput.assistant m.text m.tool_call

unfoldable pub to_message_inputs : List AiMessage → List AiMessageInput
unfolding to_message_input_as
to_message_inputs messages = map (λ (m : AiMessage). to_message_input_as m.role m) messages
