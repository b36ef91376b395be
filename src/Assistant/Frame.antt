-- ===== src/Assistant/Frame.antt =====
-- Reading a conversation back after an update.
use connect_hub.Base.{ℕ, ◌≡◌, refl, String, false, ◌==◌, eq_iff}
use connect_hub.Assistant.{AiConversation, AiState, empty_conversation, get_conversation, update}
use connect_hub.Assistant.Actions.{clear_conversation}

pub get_conversation-update_self :
    (s : AiState) (h : String) (f : AiConversation → AiConversation)
    → get_conversation (update s h f) h ≡ f (get_conversation s h)
unfolding get_conversation update
get_conversation-update_self s h f = rw ((eq_iff h h).1 refl)

pub get_conversation-update_ne :
    (s : AiState) (h j : String) (f : AiConversation → AiConversation)
    → (h == j) ≡ false
    → get_conversation (update s h f) j ≡ get_conversation s j
unfolding get_conversation update
get_conversation-update_ne s h j f e = rw e

pub get_conversation-drawn :
    (s : AiState) (n : ℕ) (h : String)
    → get_conversation (record s { drawn = n }) h ≡ get_conversation s h
unfolding get_conversation
get_conversation-drawn s n h = refl

pub get_conversation-clear_self :
    (s : AiState) (h : String) → get_conversation (clear_conversation s h) h ≡ empty_conversation
unfolding get_conversation clear_conversation
get_conversation-clear_self s h = rw ((eq_iff h h).1 refl)

pub get_conversation-clear_ne :
    (s : AiState) (h j : String)
    → (h == j) ≡ false
    → get_conversation (clear_conversation s h) j ≡ get_conversation s j
unfolding get_conversation clear_conversation
get_conversation-clear_ne s h j e = rw e
