-- ===== src/Assistant/Machine/Cleared.antt =====
-- src/state/aiStore.ts: a conversation that is cleared while a call is awaited for it.
use connect_hub.Base.{
  ℕ, suc, ◌+◌, ◌≡◌, refl, sym, ap, ◌∙◌, subst, String, false, List, [], ◌∷◌, ◌++◌, length, none,
  some, arith, eq_iff, length-append, true,
}
use connect_hub.Bridge.{Host, AiProvider, AiMessageInput, ToolCall, ExecOutput, ok, ran}
use connect_hub.Assistant.{
  Role, AiMessage, AiConversation, AiState, empty_conversation, get_conversation,
  has_pending_tool_call, to_message_inputs, update,
}
use connect_hub.Assistant.Actions.{
  Task, chat, send_user_message, request_next_turn, after_exec, clear_conversation, blank, appended,
  stopped,
}
use connect_hub.Assistant.Frame.{get_conversation-update_self, get_conversation-clear_self}
use connect_hub.Assistant.Wire.{Complete}
use connect_hub.Assistant.Machine.{System, task_host, after, tasks_of, add_task}
use connect_hub.Assistant.Machine.Local.{tasks_of-append}
use connect_hub.Assistant.Machine.Steps.{conv_one}

-- A call to the provider more for the conversation.
one_more :
    (h : String) (ts : List Task) (t : Task)
    → task_host t ≡ h
    → length (tasks_of h (ts ++ (t ∷ []))) ≡ length (tasks_of h ts) + 1
one_more h ts t own =
    ap length (tasks_of-append h ts (t ∷ []))
    ∙ length-append (tasks_of h ts) (tasks_of h (t ∷ []))
    ∙ rw (own, (eq_iff h h).1 refl) refl

none_pending : has_pending_tool_call [] ≡ false
unfolding has_pending_tool_call
none_pending = refl

-- A result is no proposal, and none is complete at the head of what is sent.
result_rests : (m : AiMessage) → m.role ≡ Role.tool_result → has_pending_tool_call (m ∷ []) ≡ false
unfolding has_pending_tool_call
result_rests m e = rw e refl

result_incomplete :
    (m : AiMessage) (ms : List AiMessage)
    → m.role ≡ Role.tool_result
    → ¬ Complete (to_message_inputs (m ∷ ms))
unfolding to_message_inputs
result_incomplete m ms e = rw e (λ k. ground (arith, k.0))

module _ (uuid : ℕ → String) where
  -- A message sent where the conversation is at rest is put to the provider behind the others.
  send_idle :
      (s : AiState) (h : Host) (p : AiProvider) (text : String)
      → (get_conversation s h.id).running ≡ false
      → has_pending_tool_call (get_conversation s h.id).messages ≡ false
      → (m : AiMessage) × ((send_user_message uuid s h p text).1
          ≡ some (chat h p (to_message_inputs ((get_conversation s h.id).messages ++ (m ∷ [])))))
  unfolding send_user_message request_next_turn
  send_idle s h p text idle rest =
      let m : AiMessage = record (blank (uuid s.drawn) Role.user) { text = some text } in
      let f = λ (c : AiConversation). record c {
        provider = some p;
        messages = c.messages ++ (m ∷ []);
        running = true;
        stop_requested = false;
        error = none;
      } in
      (
        m,
        rw (idle, rest)
            (ap (λ (c : AiConversation). some (chat h p (to_message_inputs c.messages)))
              (conv_one s h.id (suc s.drawn) f)),
      )

  sent_one :
      (s : AiState) (ts : List Task) (h : Host) (p : AiProvider) (text : String)
      → (get_conversation s h.id).running ≡ false
      → has_pending_tool_call (get_conversation s h.id).messages ≡ false
      → length (tasks_of h.id (add_task ts (send_user_message uuid s h p text).1))
        ≡ length (tasks_of h.id ts) + 1
  sent_one s ts h p text idle rest =
      let (m, asked) = send_idle s h p text idle rest in rw asked (one_more h.id ts _ refl)

  -- Where a conversation is not running and ends on no proposal, sending a message, clearing
  -- the conversation and sending another leaves two calls more awaited for it than there
  -- were.
  pub cleared_awaits_twice :
      (x : System) (h : Host) (p q : AiProvider) (first second : String)
      → (get_conversation x.state h.id).running ≡ false
      → has_pending_tool_call (get_conversation x.state h.id).messages ≡ false
      → let sent = after x.tasks (send_user_message uuid x.state h p first) in
        let cleared = clear_conversation sent.state h.id in
        let again = after sent.tasks (send_user_message uuid cleared h q second) in
        length (tasks_of h.id again.tasks) ≡ length (tasks_of h.id x.tasks) + 2
  cleared_awaits_twice x h p q first second idle rest =
      let sent = after x.tasks (send_user_message uuid x.state h p first) in
      let conv = get_conversation-clear_self sent.state h.id in
      let once = sent_one x.state x.tasks h p first idle rest in
      let twice =
        sent_one (clear_conversation sent.state h.id) sent.tasks h q second
          (ap (λ (c : AiConversation). c.running) conv)
          (ap (λ (c : AiConversation). has_pending_tool_call c.messages) conv ∙ none_pending) in
      omega (arith, once, twice)

  -- The result is all that the conversation has.
  late_alone :
      (s : AiState) (h : Host) (message_id : String) (c : ToolCall) (p : AiProvider)
      (output : ExecOutput)
      → let late =
          (after_exec uuid (clear_conversation s h.id) h message_id c p (ok (ran output))).0 in
        ((get_conversation late h.id).running ≡ false)
        × ((get_conversation late h.id).messages
            ≡ record (blank (uuid s.drawn) Role.tool_result) {
              tool_call = some c;
              exec_output = some output;
            }
              ∷ [])
  unfolding after_exec clear_conversation
  late_alone s h message_id c p output =
      let cleared = clear_conversation s h.id in
      let m : AiMessage = record (blank (uuid s.drawn) Role.tool_result) {
        tool_call = some c;
        exec_output = some output;
      } in
      let said = update (record cleared { drawn = suc s.drawn }) h.id (appended m) in
      let conv : get_conversation said h.id ≡ appended m empty_conversation =
        conv_one cleared h.id (suc s.drawn) (appended m)
        ∙ ap (appended m) (get_conversation-clear_self s h.id) in
      let ended = get_conversation-update_self said h.id stopped ∙ ap stopped conv in
      rw (conv, ended) (refl, refl)

  -- Let a conversation be cleared while a command runs for it, whatever it held. Once the
  -- command's result has come, the next message that the user sends puts to the provider
  -- messages that are not complete: a result without its proposal.
  pub cleared_result_incomplete :
      (s : AiState) (h : Host) (message_id : String) (c : ToolCall) (p q : AiProvider)
      (output : ExecOutput) (text : String)
      → let late =
          (after_exec uuid (clear_conversation s h.id) h message_id c p (ok (ran output))).0 in
        (is : List AiMessageInput) × ((send_user_message uuid late h q text).1 ≡ some (chat h q is))
        × ¬ Complete is
  cleared_result_incomplete s h message_id c p q output text =
      let late =
        (after_exec uuid (clear_conversation s h.id) h message_id c p (ok (ran output))).0 in
      let (idle, alone) = late_alone s h message_id c p output in
      let (m, asked) =
        send_idle late h q text idle (ap has_pending_tool_call alone ∙ result_rests _ refl) in
      (
        to_message_inputs ((get_conversation late h.id).messages ++ (m ∷ [])),
        asked,
        subst (λ ms. ¬ Complete (to_message_inputs (ms ++ (m ∷ [])))) (sym alone)
            (result_incomplete _ _ refl),
      )
