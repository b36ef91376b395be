-- ===== src/Assistant/Machine/Stalled.antt =====
-- A conversation in autonomous mode whose provider proposes a command.
use connect_hub.Base.{
  ℕ, suc, ◌≡◌, refl, sym, ap, ◌∙◌, subst, String, true, false, List, [], ◌∷◌, ◌++◌, Option, none,
  some, arith, ◌==◌, eq_iff, if◌then◌else◌, Bool-cases, inl, inr,
}
use connect_hub.Bridge.{Host, AiProvider, AiMessageInput, ToolCall, ok, tool_call}
use connect_hub.Assistant.{
  Role, AiMessage, AiConversation, AiState, get_conversation, has_pending_tool_call, is_autonomous,
  update,
}
use connect_hub.Assistant.Actions.{
  Task, chat, skip_command, set_mode, stop, after_chat, blank, appended,
}
use connect_hub.Assistant.Frame.{
  get_conversation-update_self, get_conversation-update_ne, get_conversation-clear_ne,
}
use connect_hub.Assistant.Wire.{pending-concat}
use connect_hub.Assistant.Machine.{
  System, task_host, after, tasks_of, Inv, Step, sends, runs, proposes, skips, switches, stops,
  answers, clears, Reach, here, next, chat_answer, ClearsAt, EachClear, AtRest, IsOther,
}
use connect_hub.Assistant.Machine.Local.{
  Local, answered-Fits, answered_idle, tasks_of-append, tasks_of-add_other,
}
use connect_hub.Assistant.Machine.Steps.{
  FromRest, run_command-FromRest, send_user_message-FromRest, propose_and_run-FromRest,
  skip_found-Local, conv_one, run_command_busy,
}
use connect_hub.Assistant.Machine.Steps.Answers.{Answer-Local}
use connect_hub.Assistant.Machine.Safety.{paired, Step-Fits, Reach-Fits}

-- A conversation that is running, with a proposed command at its end, while no call is awaited
-- for it.
abbrev pub Stalled : String → System → Type 0
Stalled h x =
    ((get_conversation x.state h).running ≡ true)
    × (has_pending_tool_call (get_conversation x.state h).messages ≡ true)
    × (tasks_of h x.tasks ≡ [])

not_last : (xs ys : List Task) (t : Task) → ¬ (xs ++ (t ∷ ys) ≡ [])
not_last [] ys t e = ground (arith, e)
not_last (x ∷ xs) ys t e = ground (arith, e)

module _ (uuid : ℕ → String) (x : System) (v : Inv x) (h : String) (b : Stalled h x) where
  by_action :
      (k : String) (r : AiState × Option Task)
      → FromRest uuid x.state k r
      → Stalled h (after x.tasks r)
  by_action k r (inl e) = subst (λ q. Stalled h (after x.tasks q)) (sym e) b
  by_action k r (inr (rest, l)) = elim (Bool-cases (k == h)) [
    | inl same ↦
        let e : k ≡ h = (eq_iff k h).0 same in
        let idle = subst (λ j. (get_conversation x.state j).running ≡ false) e rest in
        let busy = b.0 in ground (arith, idle, busy)
    | inr other ↦ rw (l.frame h other, tasks_of-add_other k h x.tasks r.1 l.own other) b
  ]

  by_update :
      (k : String) (f : AiConversation → AiConversation)
      → ((c : AiConversation) → (f c).messages ≡ c.messages)
      → ((c : AiConversation) → (f c).running ≡ c.running)
      → Stalled h (record x { state = update x.state k f })
  by_update k f m r = elim (Bool-cases (k == h)) [
    | inl same ↦
        subst (λ j. Stalled j x → Stalled j (record x { state = update x.state k f }))
          ((eq_iff k h).0 same)
          (λ w.
            rw
              (
                get_conversation-update_self x.state k f,
                m (get_conversation x.state k),
                r (get_conversation x.state k),
              )
              w)
          b
    | inr other ↦ rw (get_conversation-update_ne x.state k h f other) b
  ]

  by_answer :
      (before behind : List Task) (t : Task) (r : AiState × Option Task)
      → x.tasks ≡ before ++ (t ∷ behind)
      → Local x.state (task_host t) r
      → Stalled h (after (before ++ behind) r)
  by_answer before behind t r e l =
      let none_left : tasks_of h before ++ tasks_of h (t ∷ behind) ≡ [] =
        sym (tasks_of-append h before (t ∷ behind)) ∙ ap (tasks_of h) (sym e) ∙ b.2 in
      elim (Bool-cases (task_host t == h)) [
        | inl same ↦ absurd (
            not_last (tasks_of h before) (tasks_of h behind) t (
              subst
                (λ u.
                  tasks_of h before ++ (if u then t ∷ tasks_of h behind else tasks_of h behind)
                  ≡ [])
                same none_left))
        | inr other ↦
            let left : tasks_of h (before ++ behind) ≡ [] =
              tasks_of-append h before behind
              ∙ subst
                  (λ u.
                    tasks_of h before ++ (if u then t ∷ tasks_of h behind else tasks_of h behind)
                    ≡ [])
                  other none_left in
            rw
              (
                l.frame h other,
                tasks_of-add_other (task_host t) h (before ++ behind) r.1 l.own other,
                left,
              )
              (b.0, b.1, refl)
      ]

  Step-Stalled : {y : System} (st : Step uuid x y) → ClearsAt (IsOther h) st → Stalled h y
  unfolding skip_command set_mode stop
  Step-Stalled (sends k p text) other =
      by_action k.id _ (send_user_message-FromRest uuid x.state k p text (paired uuid x v k.id))
  Step-Stalled (runs k m override live pending) other =
      by_action k.id _
        (run_command-FromRest uuid x.state k m override live (paired uuid x v k.id) pending)
  Step-Stalled (proposes k command purpose live) other =
      by_action k.id _
        (propose_and_run-FromRest uuid x.state k command purpose live (paired uuid x v k.id))
  Step-Stalled (skips k m rest pending) other =
      by_action k (skip_command uuid x.state k m, none)
        (inr (rest, skip_found-Local uuid x.state k m _ (paired uuid x v k) pending))
  Step-Stalled (switches k mode) other = by_update k _ (λ c. refl) (λ c. refl)
  Step-Stalled (stops k) other = by_update k _ (λ c. refl) (λ c. refl)
  Step-Stalled (clears k) other = rw (get_conversation-clear_ne x.state k h other) b
  Step-Stalled (answers before behind t {r} e a) other =
      let w : Inv (record { state = x.state; tasks = before ++ (t ∷ behind) }) =
        subst (λ ts. Inv (record { state = x.state; tasks = ts })) e v in
      by_answer before behind t r e (Answer-Local uuid a (answered-Fits x.state before behind t w))

module _ (uuid : ℕ → String) where
  -- A conversation that has stalled stays so until it is cleared, whatever else the user does and
  -- whatever is answered.
  Reach-Stalled :
      (h : String) {x y : System}
      → Inv x
      → Stalled h x
      → (r : Reach uuid x y) → EachClear AtRest r
      → EachClear (IsOther h) r
      → Stalled h y
  Reach-Stalled h v b here calm uncleared = b
  Reach-Stalled h {x} v b (next {x = y} r st) (calm, _) (uncleared, other) =
      Step-Stalled uuid y (Reach-Fits uuid x v r calm) h (Reach-Stalled h v b r calm uncleared) st
        other

  -- The proposal is appended, and running it is refused, since the conversation is running.
  proposal_refused :
      (s : AiState) (h : Host) (c : ToolCall) (live : Option String)
      → (get_conversation s h.id).running ≡ true
      → is_autonomous (get_conversation s h.id).mode ≡ true
      → (get_conversation s h.id).stop_requested ≡ false
      → after_chat uuid s h (ok (tool_call c)) live ≡ (
        update
            (record s { drawn = suc s.drawn })
            h.id
            (appended (record (blank (uuid s.drawn) Role.assistant) { tool_call = some c })),
        none,
      )
  unfolding after_chat
  proposal_refused s h c live busy auto go =
      let message : AiMessage = record (blank (uuid s.drawn) Role.assistant) {
        tool_call = some c;
      } in
      let said = update (record s { drawn = suc s.drawn }) h.id (appended message) in
      let conv = conv_one s h.id (suc s.drawn) (appended message) in
      let mode : is_autonomous (get_conversation said h.id).mode ≡ true =
        ap (λ (k : AiConversation). is_autonomous k.mode) conv ∙ auto in
      let wanted : (get_conversation said h.id).stop_requested ≡ false =
        ap (λ (k : AiConversation). k.stop_requested) conv ∙ go in
      rw (mode, wanted)
        (run_command_busy uuid said h (uuid s.drawn) false live
          (ap (λ (k : AiConversation). k.running) conv ∙ busy))

  proposed-Stalled :
      (s : AiState) (before behind : List Task) (h : Host) (p : AiProvider)
      (is : List AiMessageInput) (c : ToolCall) (live : Option String)
      → Inv (record { state = s; tasks = before ++ (chat h p is ∷ behind) })
      → is_autonomous (get_conversation s h.id).mode ≡ true
      → (get_conversation s h.id).stop_requested ≡ false
      → Stalled h.id (after (before ++ behind) (after_chat uuid s h (ok (tool_call c)) live))
  proposed-Stalled s before behind h p is c live v auto go =
      let message : AiMessage = record (blank (uuid s.drawn) Role.assistant) {
        tool_call = some c;
      } in
      let conv = conv_one s h.id (suc s.drawn) (appended message) in
      let fits = answered-Fits s before behind (chat h p is) v in
      rw (proposal_refused s h c live fits.1 auto go) (
        ap (λ (k : AiConversation). k.running) conv ∙ fits.1,
        ap (λ (k : AiConversation). has_pending_tool_call k.messages) conv
            ∙ pending-concat (get_conversation s h.id).messages message,
        answered_idle s before behind (chat h p is) v,
      )

  -- Let no conversation be cleared while a call is awaited for it. In a state reached from a
  -- start in order, let the provider answer an awaited call with a command, in a conversation
  -- in autonomous mode whose user has not asked to stop. From then on until that conversation
  -- is cleared, whatever else the user does through the panel and whatever is answered, it is
  -- running, ends on the proposed command, and no call is awaited for it.
  pub proposed-stalls :
      (start : System) {x z : System}
      → Inv start
      → (r : Reach uuid start x) → EachClear AtRest r
      → (before behind : List Task) (h : Host) (p : AiProvider) (is : List AiMessageInput)
        (c : ToolCall) (live : Option String)
      → x.tasks ≡ before ++ (chat h p is ∷ behind)
      → is_autonomous (get_conversation x.state h.id).mode ≡ true
      → (get_conversation x.state h.id).stop_requested ≡ false
      → (later : Reach uuid
          (after (before ++ behind) (after_chat uuid x.state h (ok (tool_call c)) live))
          z)
      → EachClear AtRest later
      → EachClear (IsOther h.id) later
      → Stalled h.id z
  proposed-stalls start {x} v r calm before behind h p is c live e auto go later calm' uncleared =
      let w : Inv (record { state = x.state; tasks = before ++ (chat h p is ∷ behind) }) =
        subst (λ ts. Inv (record { state = x.state; tasks = ts })) e
          (Reach-Fits uuid start v r calm) in
      Reach-Stalled h.id
        (Step-Fits uuid x (Reach-Fits uuid start v r calm)
          (answers before behind (chat h p is) e (chat_answer h p is (ok (tool_call c)) live)) tt)
        (proposed-Stalled x.state before behind h p is c live w auto go) later calm' uncleared
