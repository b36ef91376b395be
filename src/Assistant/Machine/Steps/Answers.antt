-- ===== src/Assistant/Machine/Steps/Answers.antt =====
-- What the rest of each awaited call does to its conversation.
use connect_hub.Base.{
  ℕ, suc, ◌≡◌, refl, sym, ap, ◌∙◌, String, Bool, true, false, not, ◌&&◌, [], ◌∷◌, Option, none,
  some, ◌==◌, inl, inr, Bool-cases, ltb,
}
use connect_hub.Bridge.{
  Host, AiProvider, ToolCall, AiTurnResult, text, tool_call, AiCommandExecResult, ran,
  needs_confirmation, Response, ok, failed,
}
use connect_hub.Assistant.{
  Role, AiMessage, AiConversation, AiState, get_conversation, update, has_pending_tool_call,
  is_autonomous, max_autonomous_iterations,
}
use connect_hub.Assistant.Actions.{
  Task, VpnGateResult, write, exec, blank, appended, stopped, stopped_with, after_chat, after_check,
  after_write, after_vpn, after_exec, asked_confirmation, typed,
}
use connect_hub.Assistant.Frame.{get_conversation-update_self, get_conversation-update_ne}
use connect_hub.Assistant.Wire.{Paired, Paired-concat, pending-concat, with_confirmation-Paired}
use connect_hub.Assistant.Machine.{
  Answer, chat_answer, check_answer, write_answer, vpn_answer, exec_answer, Fits, task_host,
}
use connect_hub.Assistant.Machine.Local.{Local}
use connect_hub.Assistant.Machine.Steps.{
  conv_one, frame_one, Local-one, Local-two, Local-same, request_Local, run_command_busy,
}

module _ (uuid : ℕ → String) where
  after_chat-Local :
      (s : AiState) (h : Host) (a : Response AiTurnResult) (live : Option String)
      → Paired (get_conversation s h.id).messages
      → (get_conversation s h.id).running ≡ true
      → has_pending_tool_call (get_conversation s h.id).messages ≡ false
      → Local s h.id (after_chat uuid s h a live)
  unfolding after_chat
  after_chat-Local s h (failed e) live v busy rest =
      Local-one s h.id s.drawn (stopped_with e) none tt v
  after_chat-Local s h (ok (text t)) live v busy rest =
      Local-two s h.id (suc s.drawn) _ stopped none tt (Paired-concat _ _ v (sym rest))
  after_chat-Local s h (ok (tool_call c)) live v busy rest =
      let message : AiMessage = record (blank (uuid s.drawn) Role.assistant) {
        tool_call = some c;
      } in
      let said = update (record s { drawn = suc s.drawn }) h.id (appended message) in
      let conv = conv_one s h.id (suc s.drawn) (appended message) in
      let now = get_conversation said h.id in
      elim (Bool-cases (is_autonomous now.mode && not now.stop_requested)) [
        | inl go ↦
            rw
              (
                go,
                run_command_busy uuid said h (uuid s.drawn) false live
                    (ap (λ (k : AiConversation). k.running) conv ∙ busy),
              )
              (Local-one s h.id (suc s.drawn) (appended message) none tt
                (Paired-concat _ message v (sym rest)))
        | inr wait ↦ rw wait (
            Local-two s h.id (suc s.drawn) (appended message) stopped none tt
              (Paired-concat _ message v (sym rest)))
      ]

  asked_Local :
      (s : AiState) (h : Host) (m pattern : String)
      → Paired (get_conversation s h.id).messages
      → Local s h.id (asked_confirmation uuid s h m pattern, none)
  unfolding asked_confirmation
  asked_Local s h m pattern v =
      Local-one s h.id s.drawn _ none tt (with_confirmation-Paired m (some pattern) _ v)

  after_check-Local :
      (s : AiState) (h : Host) (m : String) (c : ToolCall) (l : String)
      (a : Response (Option String))
      → Paired (get_conversation s h.id).messages
      → (get_conversation s h.id).running ≡ true
      → has_pending_tool_call (get_conversation s h.id).messages ≡ true
      → Local s h.id (after_check uuid s h m c l a)
  unfolding after_check
  after_check-Local s h m c l (failed e) v busy pending =
      Local-one s h.id s.drawn (stopped_with e) none tt v
  after_check-Local s h m c l (ok none) v busy pending =
      Local-same s h.id (some (write h c l (typed c))) refl (v, busy, pending)
  after_check-Local s h m c l (ok (some pattern)) v busy pending =
      elim (Bool-cases (pattern == "")) [
        | inl blank ↦
            rw blank (Local-same s h.id (some (write h c l (typed c))) refl (v, busy, pending))
        | inr there ↦ rw there (asked_Local s h m pattern v)
      ]

  after_write-Local :
      (s : AiState) (h : Host) (c : ToolCall) (a : Response (Unit {0}))
      → Paired (get_conversation s h.id).messages
      → has_pending_tool_call (get_conversation s h.id).messages ≡ true
      → Local s h.id (after_write uuid s h c a)
  unfolding after_write
  after_write-Local s h c (failed e) v pending = Local-one s h.id s.drawn (stopped_with e) none tt v
  after_write-Local s h c (ok d) v pending =
      Local-one s h.id (suc s.drawn) _ none tt (Paired-concat _ _ v (sym pending))

  after_vpn-Local :
      (s : AiState) (h : Host) (m : String) (c : ToolCall) (p : AiProvider) (o : Bool)
      (gate : VpnGateResult)
      → Paired (get_conversation s h.id).messages
      → (get_conversation s h.id).running ≡ true
      → has_pending_tool_call (get_conversation s h.id).messages ≡ true
      → Local s h.id (after_vpn uuid s h m c p o gate)
  unfolding after_vpn
  after_vpn-Local s h m c p o gate v busy pending = elim (Bool-cases gate.is_ok) [
    | inl up ↦ rw up (Local-same s h.id (some (exec h m c p o)) refl (v, busy, pending))
    | inr down ↦ rw down (Local-one s h.id s.drawn (stopped_with _) none tt v)
  ]

  after_exec-Local :
      (s : AiState) (h : Host) (m : String) (c : ToolCall) (p : AiProvider)
      (a : Response AiCommandExecResult)
      → Paired (get_conversation s h.id).messages
      → (get_conversation s h.id).running ≡ true
      → has_pending_tool_call (get_conversation s h.id).messages ≡ true
      → Local s h.id (after_exec uuid s h m c p a)
  unfolding after_exec
  after_exec-Local s h m c p (failed e) v busy pending =
      Local-one s h.id s.drawn (stopped_with e) none tt v
  after_exec-Local s h m c p (ok (needs_confirmation pattern)) v busy pending =
      asked_Local s h m pattern v
  after_exec-Local s h m c p (ok (ran output)) v busy pending =
      let message : AiMessage = record (blank (uuid s.drawn) Role.tool_result) {
        tool_call = some c;
        exec_output = some output;
      } in
      let f = appended message in
      let g = λ (k : AiConversation). record k { iteration_count = suc k.iteration_count } in
      let said = update (record s { drawn = suc s.drawn }) h.id f in
      let counted = update said h.id g in
      let now = get_conversation said h.id in
      let conv =
        get_conversation-update_self said h.id g ∙ ap g (conv_one s h.id (suc s.drawn) f) in
      let paired = Paired-concat (get_conversation s h.id).messages message v (sym pending) in
      elim (Bool-cases (
        is_autonomous now.mode
        && (not now.stop_requested && ltb now.iteration_count max_autonomous_iterations))) [
          | inl go ↦ rw go (
              request_Local uuid s counted h p
                (λ j e.
                  get_conversation-update_ne said h.id j g e ∙ frame_one s h.id (suc s.drawn) f j e)
                (rw conv paired)
                (rw conv (pending-concat (get_conversation s h.id).messages message))
                (ap (λ (k : AiConversation). k.running) conv ∙ busy))
          | inr wait ↦ rw wait (Local-two s h.id (suc s.drawn) f stopped none tt paired)
        ]

  -- Answering a call leaves its conversation in order.
  pub Answer-Local :
      {s : AiState} {t : Task} {r : AiState × Option Task}
      → Answer uuid s t r
      → Fits (get_conversation s (task_host t)) (t ∷ [])
      → Local s (task_host t) r
  Answer-Local {s} (chat_answer h p is a live) (v, busy, (rest, complete)) =
      after_chat-Local s h a live v busy rest
  Answer-Local {s} (check_answer h m c l a) (v, busy, pending) =
      after_check-Local s h m c l a v busy pending
  Answer-Local {s} (write_answer h c l t a) (v, busy, pending) = after_write-Local s h c a v pending
  Answer-Local {s} (vpn_answer h m c p o a) (v, busy, pending) =
      after_vpn-Local s h m c p o a v busy pending
  Answer-Local {s} (exec_answer h m c p o a) (v, busy, pending) =
      after_exec-Local s h m c p a v busy pending
