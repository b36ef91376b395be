-- ===== src/Assistant/Machine/Steps.antt =====
-- What each action does to its conversation.
pub mod Answers
use connect_hub.Base.{
  ℕ, suc, ◌≡◌, refl, sym, ap, ◌∙◌, subst, String, Bool, true, false, not, ◌&&◌, ◌||◌, List, [], ◌∷◌,
  ◌++◌, Option, none, some, arith, ◌==◌, if◌then◌else◌, is_some, maybe, ◌⊎◌, inl, inr, Bool-cases,
  Option-cases,
}
use connect_hub.Bridge.{Host, AiProvider, ToolCall}
use connect_hub.Assistant.{
  Role, AiMessage, AiConversation, AiState, get_conversation, update, has_pending_tool_call,
  to_message_inputs,
}
use connect_hub.Assistant.Actions.{
  Task, chat, check, write, vpn, blank, appended, with_confirmation, request_next_turn, run_found,
  run_command, send_user_message, propose_and_run, skip_found, skip_command,
}
use connect_hub.Assistant.Frame.{get_conversation-update_self, get_conversation-update_ne}
use connect_hub.Assistant.Wire.{
  Paired, Paired-concat, pending-concat, with_confirmation-Paired, pending-with_confirmation,
  to_message_inputs-Complete,
}
use connect_hub.Assistant.Machine.{System, Fits, Inv, Phase, tasks_of, add_task}
use connect_hub.Assistant.Machine.Local.{Local, IsFor}

module _ (s : AiState) (h : String) where
  pub conv_one :
      (n : ℕ) (f : AiConversation → AiConversation)
      → get_conversation (update (record s { drawn = n }) h f) h ≡ f (get_conversation s h)
  unfolding get_conversation
  conv_one n f = get_conversation-update_self (record s { drawn = n }) h f

  pub frame_one :
      (n : ℕ) (f : AiConversation → AiConversation) (j : String)
      → (h == j) ≡ false
      → get_conversation (update (record s { drawn = n }) h f) j ≡ get_conversation s j
  unfolding get_conversation
  frame_one n f j e = get_conversation-update_ne (record s { drawn = n }) h j f e

  -- One update, or two.
  pub Local-one :
      (n : ℕ) (f : AiConversation → AiConversation) (o : Option Task)
      → IsFor h o
      → Fits (f (get_conversation s h)) (add_task [] o)
      → Local s h (update (record s { drawn = n }) h f, o)
  Local-one n f o own fits = record {
    frame = frame_one n f;
    own = own;
    fits = rw (conv_one n f) fits;
  }

  pub Local-two :
      (n : ℕ) (f g : AiConversation → AiConversation) (o : Option Task)
      → IsFor h o
      → Fits (g (f (get_conversation s h))) (add_task [] o)
      → Local s h (update (update (record s { drawn = n }) h f) h g, o)
  Local-two n f g o own fits = record {
    frame = λ j e.
        get_conversation-update_ne (update (record s { drawn = n }) h f) h j g e
        ∙ frame_one n f j e;
    own = own;
    fits =
        rw (get_conversation-update_self (update (record s { drawn = n }) h f) h g, conv_one n f)
          fits;
  }

  pub Local-same :
      (o : Option Task) → IsFor h o → Fits (get_conversation s h) (add_task [] o) → Local s h (s, o)
  Local-same o own fits = record { frame = λ j e. refl; own = own; fits = fits }

  pub Local-trans :
      (n : ℕ) (f : AiConversation → AiConversation) (r : AiState × Option Task)
      → Local (update (record s { drawn = n }) h f) h r
      → Local s h r
  Local-trans n f r l = record {
    frame = λ j e. l.frame j e ∙ frame_one n f j e;
    own = l.own;
    fits = l.fits;
  }

-- A call to the provider from a state whose conversation is complete and running.
pub request_Local :
    (uuid : ℕ → String) (s t : AiState) (h : Host) (p : AiProvider)
    → ((j : String) → (h.id == j) ≡ false → get_conversation t j ≡ get_conversation s j)
    → Paired (get_conversation t h.id).messages
    → has_pending_tool_call (get_conversation t h.id).messages ≡ false
    → (get_conversation t h.id).running ≡ true
    → Local s h.id (request_next_turn uuid t h p)
unfolding request_next_turn
request_Local uuid s t h p frame v rest busy = record {
  frame = frame;
  own = refl;
  fits = (v, busy, (rest, to_message_inputs-Complete (get_conversation t h.id).messages v rest));
}

module _ (uuid : ℕ → String) where
  pub run_command_busy :
      (s : AiState) (h : Host) (m : String) (o : Bool) (live : Option String)
      → (get_conversation s h.id).running ≡ true
      → run_command uuid s h m o live ≡ (s, none)
  unfolding run_command
  run_command_busy s h m o live e = rw e

  run_found-Local :
      (s : AiState) (h : Host) (m : String) (o : Bool) (live : Option String)
      (call : Option ToolCall) (p : Option AiProvider)
      → Paired (get_conversation s h.id).messages
      → has_pending_tool_call (get_conversation s h.id).messages ≡ true
      → Local s h.id (run_found uuid s h m o live call p)
  unfolding run_found
  run_found-Local s h m o live none p v e = Local-same s h.id none tt v
  run_found-Local s h m o live (some c) none v e = Local-same s h.id none tt v
  run_found-Local s h m o none (some c) (some p) v e =
      Local-one s h.id s.drawn _ (some (vpn h m c p o)) refl (v, refl, e)
  run_found-Local s h m o (some l) (some c) (some p) v e = elim (Bool-cases (l == "")) [
    | inl blank ↦ rw blank (Local-one s h.id s.drawn _ (some (vpn h m c p o)) refl (v, refl, e))
    | inr there ↦ rw there (live_Local o)
  ]
    where
      live_Local :
          (o : Bool)
          → Local s h.id (
            update s h.id (λ c. record c { running = true; error = none }),
            some (if o then write h c l (connect_hub.Assistant.Actions.typed c) else check h m c l),
          )
      live_Local true = Local-one s h.id s.drawn _ (some (write h c l _)) refl (v, refl, e)
      live_Local false = Local-one s h.id s.drawn _ (some (check h m c l)) refl (v, refl, e)

  pub run_command-Local :
      (s : AiState) (h : Host) (m : String) (o : Bool) (live : Option String)
      → Paired (get_conversation s h.id).messages
      → has_pending_tool_call (get_conversation s h.id).messages ≡ true
      → (get_conversation s h.id).running ≡ false
      → Local s h.id (run_command uuid s h m o live)
  unfolding run_command
  run_command-Local s h m o live v e idle = rw idle (run_found-Local s h m o live _ _ v e)

  -- A user's action is refused while the conversation is running, or starts from rest.
  abbrev pub FromRest : AiState → String → AiState × Option Task → Type 0
  FromRest s h r = (r ≡ (s, none)) ⊎ (((get_conversation s h).running ≡ false) × Local s h r)

  pub run_command-FromRest :
      (s : AiState) (h : Host) (m : String) (o : Bool) (live : Option String)
      → Paired (get_conversation s h.id).messages
      → has_pending_tool_call (get_conversation s h.id).messages ≡ true
      → FromRest s h.id (run_command uuid s h m o live)
  run_command-FromRest s h m o live v e = elim (Bool-cases (get_conversation s h.id).running) [
    | inl busy ↦ inl (run_command_busy s h m o live busy)
    | inr idle ↦ inr (idle, run_command-Local s h m o live v e idle)
  ]

  pub send_user_message-FromRest :
      (s : AiState) (h : Host) (p : AiProvider) (text : String)
      → Paired (get_conversation s h.id).messages
      → FromRest s h.id (send_user_message uuid s h p text)
  unfolding send_user_message
  send_user_message-FromRest s h p text v =
      let c = get_conversation s h.id in
      elim (Bool-cases c.running) [
        | inl busy ↦ inl (rw busy)
        | inr idle ↦ elim (Bool-cases (has_pending_tool_call c.messages)) [
          | inl pending ↦ inl (rw (idle, pending))
          | inr rest ↦
              let message : AiMessage = record (blank (uuid s.drawn) Role.user) {
                text = some text;
              } in
              let f = λ (c : AiConversation). record c {
                provider = some p;
                messages = c.messages ++ (message ∷ []);
                running = true;
                stop_requested = false;
                error = none;
              } in
              let sent = update (record s { drawn = suc s.drawn }) h.id f in
              let conv = conv_one s h.id (suc s.drawn) f in
              inr (
                idle,
                rw (idle, rest)
                    (request_Local uuid s sent h p (frame_one s h.id (suc s.drawn) f)
                      (rw conv (Paired-concat c.messages message v (sym rest)))
                      (rw conv (pending-concat c.messages message))
                      (ap (λ (k : AiConversation). k.running) conv)),
              )
        ]
      ]

  pub propose_and_run-FromRest :
      (s : AiState) (h : Host) (command purpose : String) (live : Option String)
      → Paired (get_conversation s h.id).messages
      → FromRest s h.id (propose_and_run uuid s h command purpose live)
  unfolding propose_and_run
  propose_and_run-FromRest s h command purpose live v =
      let c = get_conversation s h.id in
      let refused = (c.running || has_pending_tool_call c.messages) || not (is_some c.provider) in
      elim (Bool-cases refused) [
        | inl no_run ↦ inl (rw no_run)
        | inr fine ↦
            let message : AiMessage = record (blank (uuid s.drawn) Role.assistant) {
              tool_call = some (record { command = command; purpose = purpose });
            } in
            let proposed = update (record s { drawn = suc s.drawn }) h.id (appended message) in
            let conv = conv_one s h.id (suc s.drawn) (appended message) in
            let idle : c.running ≡ false = ground arith in
            let rest : has_pending_tool_call c.messages ≡ false = ground arith in
            inr (
              idle,
              rw fine (
                  Local-trans s h.id (suc s.drawn) (appended message) _ (
                    run_command-Local proposed h (uuid s.drawn) false live
                      (rw conv (Paired-concat c.messages message v (sym rest)))
                      (rw conv (pending-concat c.messages message))
                      (ap (λ (k : AiConversation). k.running) conv ∙ idle))),
            )
      ]

  pub skip_found-Local :
      (s : AiState) (h m : String) (call : Option ToolCall)
      → Paired (get_conversation s h).messages
      → has_pending_tool_call (get_conversation s h).messages ≡ true
      → Local s h (skip_found uuid s h m call, none)
  unfolding skip_found
  skip_found-Local s h m none v pending = Local-one s h s.drawn (λ c. c) none tt v
  skip_found-Local s h m (some call) v pending =
      let ms = (get_conversation s h).messages in
      Local-one s h (suc s.drawn) _ none tt (
        Paired-concat (with_confirmation m none ms) _ (with_confirmation-Paired m none ms v)
          (sym (pending-with_confirmation m none ms v ∙ pending)))
