-- ===== src/Assistant/Actions.antt =====
-- src/state/aiStore.ts: the actions, cut at their `await`s. The code between two awaits runs without
-- interruption; what waits is a task, with the variables that its rest uses, and the rest is a
-- function of the answer. What the sessions store says of a live terminal is the argument `live`.
use connect_hub.Base.{
  ℕ, suc, String, Bool, true, false, not, ◌&&◌, ◌||◌, List, [], ◌∷◌, ◌++◌, map, Option, none, some,
  ◌==◌, if◌then◌else◌, is_some, get_or_else, maybe, find, ltb, delete,
}
use Prim.Native.String
use connect_hub.Bridge.{
  Host, AiProvider, ToolCall, AiMessageInput, AiTurnResult, text, tool_call, AiCommandExecResult,
  ran, needs_confirmation, Response, ok, failed,
}
use connect_hub.Assistant.{
  Role, AiMessage, AiMode, is_autonomous, AiConversation, AiState, max_autonomous_iterations,
  get_conversation, update, has_pending_tool_call, to_message_inputs,
}

-- What `vpnStore.ensureVpnUp` comes back with; it does not throw.
pub record VpnGateResult : Type 0 where
  pub is_ok : Bool
  pub message : Option String

-- A call that an action awaits, with its arguments, and the local variables of the rest.
pub data Task : Type 0 where
  chat : Host → AiProvider → List AiMessageInput → Task
  check : Host → String → ToolCall → String → Task
  write : Host → ToolCall → String → String → Task
  vpn : Host → String → ToolCall → AiProvider → Bool → Task
  exec : Host → String → ToolCall → AiProvider → Bool → Task

abbrev pub blank : String → Role → AiMessage
blank id role = record {
  id = id;
  role = role;
  text = none;
  tool_call = none;
  exec_output = none;
  ran_in_terminal = false;
  skipped = false;
  needs_confirmation = none;
}

-- The text that runs a command in a terminal: the command and a carriage return.
abbrev pub typed : ToolCall → String
typed c = String.◌++◌ c.command "\r"

-- The shapes of update that the actions share.
abbrev pub stopped : AiConversation → AiConversation
stopped c = record c { running = false }

abbrev pub stopped_with : String → AiConversation → AiConversation
stopped_with e c = record c { running = false; error = some e }

abbrev pub appended : AiMessage → AiConversation → AiConversation
appended m c = record c { messages = c.messages ++ (m ∷ []) }

abbrev pub with_confirmation : String → Option String → List AiMessage → List AiMessage
with_confirmation message_id pattern =
    map (λ (m : AiMessage).
      if m.id == message_id then record m { needs_confirmation = pattern } else m)

pub find_message : String → List AiMessage → Option AiMessage
find_message message_id messages = find (λ (m : AiMessage). m.id == message_id) messages

module _ (uuid : ℕ → String) where
  -- `requestNextTurn` up to its `await aiChatSend(…)`.
  unfoldable pub request_next_turn : AiState → Host → AiProvider → AiState × Option Task
  request_next_turn s host provider =
      (s, some (chat host provider (to_message_inputs (get_conversation s host.id).messages)))

  -- `runCommand` up to its first await.
  unfoldable pub run_found :
      AiState
      → Host
      → String
      → Bool
      → Option String
      → Option ToolCall
      → Option AiProvider
      → AiState × Option Task
  run_found s host message_id override live none provider = (s, none)
  run_found s host message_id override live (some c) none = (s, none)
  run_found s host message_id override live (some c) (some provider) =
      let started = update s host.id (λ c. record c { running = true; error = none }) in
      (
        started,
        some (
            maybe (vpn host message_id c provider override)
              (λ (live_session_id : String).
                if live_session_id == ""
                then vpn host message_id c provider override
                else if override
                then write host c live_session_id (typed c)
                else check host message_id c live_session_id)
              live),
      )

  unfoldable pub run_command :
      AiState → Host → String → Bool → Option String → AiState × Option Task
  unfolding run_found find_message
  run_command s host message_id override live =
      let convo = get_conversation s host.id in
      let message = find_message message_id convo.messages in
      if convo.running
      then (s, none)
      else run_found s host message_id override live
          (maybe none (λ (m : AiMessage). m.tool_call) message) convo.provider

  unfoldable pub send_user_message : AiState → Host → AiProvider → String → AiState × Option Task
  unfolding request_next_turn
  send_user_message s host provider message_text =
      let convo = get_conversation s host.id in
      let message = record (blank (uuid s.drawn) Role.user) { text = some message_text } in
      let sent =
        update (record s { drawn = suc s.drawn }) host.id
          λ c. record c {
            provider = some provider;
            messages = c.messages ++ (message ∷ []);
            running = true;
            stop_requested = false;
            error = none;
          } in
      if convo.running || has_pending_tool_call convo.messages
      then (s, none)
      else request_next_turn sent host provider

  unfoldable pub propose_and_run :
      AiState → Host → String → String → Option String → AiState × Option Task
  propose_and_run s host command purpose live =
      let convo = get_conversation s host.id in
      let message_id = uuid s.drawn in
      let message = record (blank message_id Role.assistant) {
        tool_call = some (record { command = command; purpose = purpose });
      } in
      let proposed = update (record s { drawn = suc s.drawn }) host.id (appended message) in
      if convo.running || has_pending_tool_call convo.messages || not (is_some convo.provider)
      then (s, none)
      else run_command proposed host message_id false live

  unfoldable pub skip_found : AiState → String → String → Option ToolCall → AiState
  skip_found s host_id message_id none = update s host_id (λ c. c)
  skip_found s host_id message_id (some call) =
      let message = record (blank (uuid s.drawn) Role.tool_result) {
        tool_call = some call;
        skipped = true;
      } in
      update (record s { drawn = suc s.drawn }) host_id
        λ c. record c { messages = with_confirmation message_id none c.messages ++ (message ∷ []) }

  unfoldable pub skip_command : AiState → String → String → AiState
  unfolding skip_found find_message
  skip_command s host_id message_id = skip_found s host_id message_id (
      maybe none (λ (m : AiMessage). m.tool_call)
        (find_message message_id (get_conversation s host_id).messages))

  -- The rest of `requestNextTurn`, once the provider has answered.
  unfoldable pub after_chat :
      AiState → Host → Response AiTurnResult → Option String → AiState × Option Task
  after_chat s host (failed e) live = (update s host.id (stopped_with e), none)
  after_chat s host (ok (text t)) live =
      let message = record (blank (uuid s.drawn) Role.assistant) { text = some t } in
      let said = update (record s { drawn = suc s.drawn }) host.id (appended message) in
      (update said host.id stopped, none)
  after_chat s host (ok (tool_call c)) live =
      let message_id = uuid s.drawn in
      let message = record (blank message_id Role.assistant) { tool_call = some c } in
      let said = update (record s { drawn = suc s.drawn }) host.id (appended message) in
      let after_append = get_conversation said host.id in
      if is_autonomous after_append.mode && not after_append.stop_requested
      then run_command said host message_id false live
      else (update said host.id stopped, none)

  -- The rests of `runCommand`.
  unfoldable pub asked_confirmation : AiState → Host → String → String → AiState
  asked_confirmation s host message_id pattern = update s host.id λ c. record c {
    running = false;
    messages = with_confirmation message_id (some pattern) c.messages;
  }

  unfoldable pub after_check :
      AiState → Host → String → ToolCall → String → Response (Option String) → AiState × Option Task
  unfolding asked_confirmation
  after_check s host message_id c live_session_id (failed e) =
      (update s host.id (stopped_with e), none)
  after_check s host message_id c live_session_id (ok none) =
      (s, some (write host c live_session_id (typed c)))
  after_check s host message_id c live_session_id (ok (some pattern)) =
      if pattern == ""
      then (s, some (write host c live_session_id (typed c)))
      else (asked_confirmation s host message_id pattern, none)

  unfoldable pub after_write :
      AiState → Host → ToolCall → Response (Unit {0}) → AiState × Option Task
  after_write s host c (failed e) = (update s host.id (stopped_with e), none)
  after_write s host c (ok done) =
      let message = record (blank (uuid s.drawn) Role.tool_result) {
        tool_call = some c;
        ran_in_terminal = true;
      } in
      (
        update (record s { drawn = suc s.drawn }) host.id
            (λ c. record c { running = false; messages = c.messages ++ (message ∷ []) }),
        none,
      )

  unfoldable pub after_vpn :
      AiState → Host → String → ToolCall → AiProvider → Bool → VpnGateResult → AiState × Option Task
  after_vpn s host message_id c provider override gate =
      if gate.is_ok then (s, some (exec host message_id c provider override)) else (
        update s host.id (stopped_with (get_or_else gate.message "Could not connect the VPN.")),
        none,
      )

  unfoldable pub after_exec :
      AiState
      → Host
      → String
      → ToolCall
      → AiProvider
      → Response AiCommandExecResult
      → AiState × Option Task
  unfolding asked_confirmation request_next_turn
  after_exec s host message_id c provider (failed e) = (update s host.id (stopped_with e), none)
  after_exec s host message_id c provider (ok (needs_confirmation pattern)) =
      (asked_confirmation s host message_id pattern, none)
  after_exec s host message_id c provider (ok (ran output)) =
      let message = record (blank (uuid s.drawn) Role.tool_result) {
        tool_call = some c;
        exec_output = some output;
      } in
      let said = update (record s { drawn = suc s.drawn }) host.id (appended message) in
      let after_result = get_conversation said host.id in
      let counted =
        update said host.id (λ c. record c { iteration_count = suc c.iteration_count }) in
      if is_autonomous after_result.mode
        && (not after_result.stop_requested
            && ltb after_result.iteration_count max_autonomous_iterations)
      then request_next_turn counted host provider
      else (update said host.id stopped, none)

unfoldable pub set_mode : AiState → String → AiMode → AiState
set_mode s host_id mode = update s host_id (λ c. record c { mode = mode })

unfoldable pub stop : AiState → String → AiState
stop s host_id = update s host_id (λ c. record c { stop_requested = true })

unfoldable pub clear_conversation : AiState → String → AiState
clear_conversation s host_id = record s { conversations = delete host_id s.conversations }
