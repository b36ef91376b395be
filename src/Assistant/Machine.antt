-- ===== src/Assistant/Machine.antt =====
-- The assistant while calls of the backend are under way: any number of conversations, and the
-- calls awaited, which are answered in any order. The user acts through the panel, which offers Run
-- and Skip on a proposal at the end of a conversation only, and Skip not while it is running; its
-- Clear button is there while a call is awaited, too (src/components/panels/AiAssistantDrawer.tsx).
pub mod Local
pub mod Steps
pub mod Safety
pub mod Stalled
pub mod Cleared
use connect_hub.Base.{
  ℕ, ◌≡◌, refl, String, Bool, true, false, ◌&&◌, List, [], ◌∷◌, ◌++◌, Option, none, some, ◌==◌,
  if◌then◌else◌, filter,
}
use connect_hub.Bridge.{
  Host, AiProvider, ToolCall, AiMessageInput, AiTurnResult, AiCommandExecResult, Response,
}
use connect_hub.Assistant.{AiMode, AiConversation, AiState, get_conversation, has_pending_tool_call}
use connect_hub.Assistant.Actions.{
  VpnGateResult, Task, chat, check, write, vpn, exec, run_command, send_user_message,
  propose_and_run, skip_command, after_chat, after_check, after_write, after_vpn, after_exec,
  set_mode, stop, clear_conversation,
}
use connect_hub.Assistant.Wire.{Paired, Complete}

pub record System : Type 0 where
  pub state : AiState
  pub tasks : List Task

abbrev pub task_host : Task → String
task_host (chat h p is) = h.id
task_host (check h m c l) = h.id
task_host (write h c l t) = h.id
task_host (vpn h m c p o) = h.id
task_host (exec h m c p o) = h.id

abbrev pub add_task : List Task → Option Task → List Task
add_task ts none = ts
add_task ts (some t) = ts ++ (t ∷ [])

abbrev pub after : List Task → AiState × Option Task → System
after ts r = record { state = r.0; tasks = add_task ts r.1 }

-- What the rest of each task does with an answer.
pub data Answer (uuid : ℕ → String) (s : AiState) : Task → AiState × Option Task → Type 0 where
  chat_answer :
      (h : Host) (p : AiProvider) (is : List AiMessageInput) (a : Response AiTurnResult)
      (live : Option String)
      → Answer uuid s (chat h p is) (after_chat uuid s h a live)
  check_answer :
      (h : Host) (m : String) (c : ToolCall) (l : String) (a : Response (Option String))
      → Answer uuid s (check h m c l) (after_check uuid s h m c l a)
  write_answer :
      (h : Host) (c : ToolCall) (l t : String) (a : Response (Unit {0}))
      → Answer uuid s (write h c l t) (after_write uuid s h c a)
  vpn_answer :
      (h : Host) (m : String) (c : ToolCall) (p : AiProvider) (o : Bool) (a : VpnGateResult)
      → Answer uuid s (vpn h m c p o) (after_vpn uuid s h m c p o a)
  exec_answer :
      (h : Host) (m : String) (c : ToolCall) (p : AiProvider) (o : Bool)
      (a : Response AiCommandExecResult)
      → Answer uuid s (exec h m c p o) (after_exec uuid s h m c p a)

pub data Step (uuid : ℕ → String) (x : System) : System → Type 0 where
  sends :
      (h : Host) (p : AiProvider) (text : String)
      → Step uuid x (after x.tasks (send_user_message uuid x.state h p text))
  runs :
      (h : Host) (message_id : String) (override : Bool) (live : Option String)
      → has_pending_tool_call (get_conversation x.state h.id).messages ≡ true
      → Step uuid x (after x.tasks (run_command uuid x.state h message_id override live))
  proposes :
      (h : Host) (command purpose : String) (live : Option String)
      → Step uuid x (after x.tasks (propose_and_run uuid x.state h command purpose live))
  skips :
      (h message_id : String)
      → (get_conversation x.state h).running ≡ false
      → has_pending_tool_call (get_conversation x.state h).messages ≡ true
      → Step uuid x (record x { state = skip_command uuid x.state h message_id })
  switches :
      (h : String) (mode : AiMode) → Step uuid x (record x { state = set_mode x.state h mode })
  stops : (h : String) → Step uuid x (record x { state = stop x.state h })
  clears : (h : String) → Step uuid x (record x { state = clear_conversation x.state h })
  answers :
      (before behind : List Task) (t : Task) {r : AiState × Option Task}
      → x.tasks ≡ before ++ (t ∷ behind)
      → Answer uuid x.state t r
      → Step uuid x (after (before ++ behind) r)

pub data Reach (uuid : ℕ → String) (start : System) : System → Type 0 where
  here : Reach uuid start start
  next : {x y : System} → Reach uuid start x → Step uuid x y → Reach uuid start y

abbrev pub tasks_of : String → List Task → List Task
tasks_of h ts = filter (λ (t : Task). task_host t == h) ts

-- What holds wherever a run clears a conversation.
abbrev pub ClearsAt :
    {uuid : ℕ → String} → (System → String → Type 0) → {x y : System} → Step uuid x y → Type 0
ClearsAt P {x} (clears h) = P x h
ClearsAt P _ = Unit {0}

abbrev pub EachClear :
    {uuid : ℕ → String} → (System → String → Type 0) → {x y : System} → Reach uuid x y → Type 0
EachClear P here = Unit {0}
EachClear P (next r st) = EachClear P r × ClearsAt P st

-- No call is awaited for the conversation.
abbrev pub AtRest : System → String → Type 0
AtRest x h = tasks_of h x.tasks ≡ []

-- Another conversation than this one.
abbrev pub IsOther : String → System → String → Type 0
IsOther h x k = (k == h) ≡ false

-- A call to the provider carries a complete conversation, and no proposal is pending; every other
-- call is on behalf of the proposal at the end.
abbrev pub Phase : Bool → Task → Type 0
Phase pending (chat h p is) = (pending ≡ false) × Complete is
Phase pending (check h m c l) = pending ≡ true
Phase pending (write h c l t) = pending ≡ true
Phase pending (vpn h m c p o) = pending ≡ true
Phase pending (exec h m c p o) = pending ≡ true

-- A conversation and the calls awaited for it: at most one, and while there is one it is running.
abbrev pub Fits : AiConversation → List Task → Type 0
Fits c [] = Paired c.messages
Fits c (t ∷ []) =
    Paired c.messages × (c.running ≡ true) × Phase (has_pending_tool_call c.messages) t
Fits c (t ∷ u ∷ ts) = ⊥

abbrev pub Inv : System → Type 0
Inv x = (h : String) → Fits (get_conversation x.state h) (tasks_of h x.tasks)
