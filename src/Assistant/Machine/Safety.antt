-- ===== src/Assistant/Machine/Safety.antt =====
-- The invariant of the assistant at every step, and what the provider is sent.
use connect_hub.Base.{
  ℕ, ◌≡◌, refl, sym, ap, subst, String, false, List, [], ◌∷◌, ◌++◌, length, ◌≤◌, Option, none,
  arith, ◌==◌, eq_iff, Bool-cases, inl, inr,
}
use connect_hub.Bridge.{Host, AiProvider, AiMessageInput}
use connect_hub.Assistant.{AiConversation, AiState, get_conversation}
use connect_hub.Assistant.Actions.{Task, chat, skip_command, set_mode, stop, clear_conversation}
use connect_hub.Assistant.Frame.{
  get_conversation-update_self, get_conversation-update_ne, get_conversation-clear_self,
  get_conversation-clear_ne,
}
use connect_hub.Assistant.Wire.{Paired, Complete}
use connect_hub.Assistant.Machine.{
  System, after, tasks_of, Fits, Inv, Step, sends, runs, proposes, skips, switches, stops, answers,
  clears, Reach, here, next, ClearsAt, EachClear, AtRest,
}
use connect_hub.Assistant.Machine.Local.{Local-Inv, answered-Fits, answered_Inv}
use connect_hub.Assistant.Machine.Steps.{
  FromRest, run_command-FromRest, send_user_message-FromRest, propose_and_run-FromRest,
  skip_found-Local,
}
use connect_hub.Assistant.Machine.Steps.Answers.{Answer-Local}

Fits-Paired : (c : AiConversation) (ts : List Task) → Fits c ts → Paired c.messages
Fits-Paired c [] f = f
Fits-Paired c (t ∷ []) f = f.0
Fits-Paired c (t ∷ u ∷ ts) f = absurd f

idle : (c : AiConversation) (ts : List Task) → Fits c ts → c.running ≡ false → ts ≡ []
idle c [] f e = refl
idle c (t ∷ []) f e = ground (arith, f.1)
idle c (t ∷ u ∷ ts) f e = absurd f

-- Another mode or a request to stop changes nothing that the invariant speaks of.
quiet-Fits :
    (c d : AiConversation) (ts : List Task)
    → d.messages ≡ c.messages
    → d.running ≡ c.running
    → Fits c ts
    → Fits d ts
quiet-Fits c d [] m r f = rw m f
quiet-Fits c d (t ∷ []) m r f = rw (m, r) f
quiet-Fits c d (t ∷ u ∷ ts) m r f = absurd f

module _ (uuid : ℕ → String) (x : System) (v : Inv x) where
  FromRest-Inv :
      (h : String) (r : AiState × Option Task) → FromRest uuid x.state h r → Inv (after x.tasks r)
  FromRest-Inv h r (inl e) = subst (λ q. Inv (after x.tasks q)) (sym e) v
  FromRest-Inv h r (inr (rest, l)) =
      Local-Inv x.state h r l x.tasks v
        (idle (get_conversation x.state h) (tasks_of h x.tasks) (v h) rest)

  quiet_update-Inv :
      (s : AiState) (h : String)
      → ((j : String) → (h == j) ≡ false → get_conversation s j ≡ get_conversation x.state j)
      → (get_conversation s h).messages ≡ (get_conversation x.state h).messages
      → (get_conversation s h).running ≡ (get_conversation x.state h).running
      → Inv (record x { state = s })
  quiet_update-Inv s h frame m r j = elim (Bool-cases (h == j)) [
    | inr other ↦ rw (frame j other) (v j)
    | inl same ↦
        subst (λ k. Fits (get_conversation s k) (tasks_of k x.tasks)) ((eq_iff h j).0 same)
          (quiet-Fits (get_conversation x.state h) (get_conversation s h) (tasks_of h x.tasks) m r
            (v h))
  ]

  clear-Inv : (h : String) → AtRest x h → Inv (record x { state = clear_conversation x.state h })
  clear-Inv h rest j = elim (Bool-cases (h == j)) [
    | inr other ↦ rw (get_conversation-clear_ne x.state h j other) (v j)
    | inl same ↦
        subst (λ k. Fits (get_conversation (clear_conversation x.state h) k) (tasks_of k x.tasks))
          ((eq_iff h j).0 same) (rw (rest, get_conversation-clear_self x.state h) tt)
  ]

  pub paired : (h : String) → Paired (get_conversation x.state h).messages
  paired h = Fits-Paired (get_conversation x.state h) (tasks_of h x.tasks) (v h)

  -- Every step keeps the invariant, unless it clears a conversation that awaits a call.
  pub Step-Fits : {y : System} (st : Step uuid x y) → ClearsAt AtRest st → Inv y
  unfolding skip_command set_mode stop
  Step-Fits (sends h p text) at_rest =
      FromRest-Inv h.id _ (send_user_message-FromRest uuid x.state h p text (paired h.id))
  Step-Fits (runs h m override live pending) at_rest =
      FromRest-Inv h.id _
        (run_command-FromRest uuid x.state h m override live (paired h.id) pending)
  Step-Fits (proposes h command purpose live) at_rest =
      FromRest-Inv h.id _
        (propose_and_run-FromRest uuid x.state h command purpose live (paired h.id))
  Step-Fits (skips h m rest pending) at_rest =
      FromRest-Inv h (skip_command uuid x.state h m, none)
        (inr (rest, skip_found-Local uuid x.state h m _ (paired h) pending))
  Step-Fits (switches h mode) at_rest =
      quiet_update-Inv (set_mode x.state h mode) h
        (λ j e. get_conversation-update_ne x.state h j _ e)
        (ap (λ (k : AiConversation). k.messages) (get_conversation-update_self x.state h _))
        (ap (λ (k : AiConversation). k.running) (get_conversation-update_self x.state h _))
  Step-Fits (stops h) at_rest =
      quiet_update-Inv (stop x.state h) h (λ j e. get_conversation-update_ne x.state h j _ e)
        (ap (λ (k : AiConversation). k.messages) (get_conversation-update_self x.state h _))
        (ap (λ (k : AiConversation). k.running) (get_conversation-update_self x.state h _))
  Step-Fits (clears h) rest = clear-Inv h rest
  Step-Fits (answers before behind t {r} e a) at_rest =
      let w : Inv (record { state = x.state; tasks = before ++ (t ∷ behind) }) =
        subst (λ ts. Inv (record { state = x.state; tasks = ts })) e v in
      answered_Inv x.state before behind t w r
        (Answer-Local uuid a (answered-Fits x.state before behind t w))

-- Whatever the user does through the panel, in any number of conversations, and in whatever
-- order the awaited calls are answered, from a start in order, so long as no conversation is
-- cleared while a call is awaited for it: in each conversation every result stands directly
-- behind its proposal and every proposal but the last is followed by its result; at most one
-- call is awaited for a conversation, and while one is, it is running; a call to the provider
-- is awaited where no proposal is pending and with complete messages, and any other call where
-- one is.
pub Reach-Fits :
    (uuid : ℕ → String) (start : System) {x : System}
    → Inv start
    → (r : Reach uuid start x) → EachClear AtRest r
    → Inv x
Reach-Fits uuid start v here calm = v
Reach-Fits uuid start v (next {x} r st) (calm, at_rest) =
    Step-Fits uuid x (Reach-Fits uuid start v r calm) st at_rest

-- Let no conversation be cleared while a call is awaited for it. Every call to the provider
-- that is awaited in a state reached from a start in order carries messages in which each
-- proposed command is followed at once by its result, and each result stands directly behind
-- its proposal.
pub awaited_chat-Complete :
    (uuid : ℕ → String) (start : System) {x : System}
    → Inv start
    → (r : Reach uuid start x) → EachClear AtRest r
    → (before behind : List Task) (h : Host) (p : AiProvider) (is : List AiMessageInput)
    → x.tasks ≡ before ++ (chat h p is ∷ behind)
    → Complete is
awaited_chat-Complete uuid start {x} v r calm before behind h p is e =
    (answered-Fits x.state before behind (chat h p is) (
      subst (λ ts. Inv (record { state = x.state; tasks = ts })) e
        (Reach-Fits uuid start v r calm))).2.1

one_at_most : (c : AiConversation) (ts : List Task) → Fits c ts → length ts ≤ 1
one_at_most c [] f = omega arith
one_at_most c (t ∷ []) f = omega arith
one_at_most c (t ∷ u ∷ ts) f = absurd f

-- In a state reached from a start in order, where no conversation was cleared while a call was
-- awaited for it, at most one call is awaited for each host's conversation.
pub length-tasks_of :
    (uuid : ℕ → String) (start : System) {x : System}
    → Inv start
    → (r : Reach uuid start x) → EachClear AtRest r
    → (h : String) → length (tasks_of h x.tasks) ≤ 1
length-tasks_of uuid start {x} v r calm h =
    one_at_most (get_conversation x.state h) (tasks_of h x.tasks) (Reach-Fits uuid start v r calm h)
