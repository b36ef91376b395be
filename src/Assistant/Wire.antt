-- ===== src/Assistant/Wire.antt =====
-- What a provider accepts: every proposed command is followed at once by its result, and every
-- result stands directly behind its proposal.
use connect_hub.Base.{
  ◌≡◌, refl, sym, ◌∙◌, Bool, true, false, ◌&&◌, List, [], ◌∷◌, ◌++◌, Option, String, is_some,
  get_last?-concat, ◌==◌, Bool-cases, inl, inr,
}
use connect_hub.Bridge.{AiMessageInput}
use connect_hub.Assistant.{
  Role, user, assistant, tool_result, AiMessage, is_assistant, has_pending_tool_call,
  to_message_input_as, to_message_inputs,
}
use connect_hub.Assistant.Actions.{with_confirmation}

abbrev pub is_result : Role → Bool
is_result tool_result = true
is_result _ = false

-- Whether a message proposes a command.
abbrev pub proposes : AiMessage → Bool
proposes m = is_assistant m.role && is_some m.tool_call

-- Whether the messages are paired, if a proposal stands directly before them, or none does.
abbrev pub PairedFrom : Bool → List AiMessage → Type 0
PairedFrom pending [] = Unit {0}
PairedFrom pending (m ∷ ms) = (is_result m.role ≡ pending) × PairedFrom (proposes m) ms

-- Whether a proposal stands at the end.
abbrev pub ends_from : Bool → List AiMessage → Bool
ends_from pending [] = pending
ends_from pending (m ∷ ms) = ends_from (proposes m) ms

abbrev pub Paired : List AiMessage → Type 0
Paired ms = PairedFrom false ms

pub ends_from-last : (ms : List AiMessage) → ends_from false ms ≡ has_pending_tool_call ms
unfolding has_pending_tool_call
ends_from-last [] = refl
ends_from-last (m ∷ []) = refl
ends_from-last (m ∷ n ∷ ms) = ends_from-last (n ∷ ms)

pub PairedFrom-concat :
    (pending : Bool) (ms : List AiMessage) (m : AiMessage)
    → PairedFrom pending ms
    → is_result m.role ≡ ends_from pending ms
    → PairedFrom pending (ms ++ (m ∷ []))
PairedFrom-concat pending [] m h e = (e, tt)
PairedFrom-concat pending (n ∷ ms) m (h, hs) e = (h, PairedFrom-concat (proposes n) ms m hs e)

-- Appending a result to a proposal, or anything else where none is pending.
pub Paired-concat :
    (ms : List AiMessage) (m : AiMessage)
    → Paired ms
    → is_result m.role ≡ has_pending_tool_call ms
    → Paired (ms ++ (m ∷ []))
Paired-concat ms m h e = PairedFrom-concat false ms m h (e ∙ sym (ends_from-last ms))

pub pending-concat :
    (ms : List AiMessage) (m : AiMessage) → has_pending_tool_call (ms ++ (m ∷ [])) ≡ proposes m
unfolding has_pending_tool_call
pending-concat ms m = rw (get_last?-concat ms m)

-- Marking a proposal for confirmation changes neither.
confirm_from :
    (pending : Bool) (id : String) (p : Option String) (ms : List AiMessage)
    → PairedFrom pending ms
    → PairedFrom pending (with_confirmation id p ms)
      × (ends_from pending (with_confirmation id p ms) ≡ ends_from pending ms)
confirm_from pending id p [] h = (tt, refl)
confirm_from pending id p (m ∷ ms) (h, hs) =
    let (rest, same) = confirm_from (proposes m) id p ms hs in
    elim (Bool-cases (m.id == id)) [
      | inl here ↦ rw here ((h, rest), same)
      | inr there ↦ rw there ((h, rest), same)
    ]

pub with_confirmation-Paired :
    (id : String) (p : Option String) (ms : List AiMessage)
    → Paired ms
    → Paired (with_confirmation id p ms)
with_confirmation-Paired id p ms h = (confirm_from false id p ms h).0

pub pending-with_confirmation :
    (id : String) (p : Option String) (ms : List AiMessage)
    → Paired ms
    → has_pending_tool_call (with_confirmation id p ms) ≡ has_pending_tool_call ms
pending-with_confirmation id p ms h =
    sym (ends_from-last (with_confirmation id p ms))
    ∙ (confirm_from false id p ms h).1
    ∙ ends_from-last ms

-- The same of what is sent: no result without a proposal before it, no proposal without a result.
abbrev pub CompleteFrom : Bool → List AiMessageInput → Type 0
CompleteFrom pending [] = pending ≡ false
CompleteFrom pending (AiMessageInput.user t ∷ is) = (pending ≡ false) × CompleteFrom false is
CompleteFrom pending (AiMessageInput.assistant t c ∷ is) =
    (pending ≡ false) × CompleteFrom (is_some c) is
CompleteFrom pending (AiMessageInput.tool_result c o ∷ is) =
    (pending ≡ true) × CompleteFrom false is

abbrev pub Complete : List AiMessageInput → Type 0
Complete is = CompleteFrom false is

complete_as :
    (r : Role) (m : AiMessage) (pending : Bool) (is : List AiMessageInput)
    → is_result r ≡ pending
    → CompleteFrom (is_assistant r && is_some m.tool_call) is
    → CompleteFrom pending (to_message_input_as r m ∷ is)
unfolding to_message_input_as
complete_as user m pending is e h = (sym e, h)
complete_as assistant m pending is e h = (sym e, h)
complete_as tool_result m pending is e h = (sym e, h)

complete_from :
    (pending : Bool) (ms : List AiMessage)
    → PairedFrom pending ms
    → ends_from pending ms ≡ false
    → CompleteFrom pending (to_message_inputs ms)
unfolding to_message_inputs
complete_from pending [] h e = e
complete_from pending (m ∷ ms) (h, hs) e =
    complete_as m.role m pending (to_message_inputs ms) h (complete_from (proposes m) ms hs e)

-- Paired messages with no proposal pending are accepted.
pub to_message_inputs-Complete :
    (ms : List AiMessage)
    → Paired ms
    → has_pending_tool_call ms ≡ false
    → Complete (to_message_inputs ms)
to_message_inputs-Complete ms h e = complete_from false ms h (ends_from-last ms ∙ e)
