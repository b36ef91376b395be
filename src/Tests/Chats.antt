-- ===== src/Tests/Chats.antt =====
-- src/state/aiStore.ts: a conversation in autonomous mode, whose provider is asked.
use connect_hub.Base.{
  ◌≡◌, refl, true, false, none, some, List, [], ◌∷◌, ◌++◌, length, ◌≤◌, ◌+◌, empty,
}
use connect_hub.Bridge.{anthropic, AiMessageInput, ToolCall, ok, tool_call, ran, ExecOutput}
use connect_hub.Uuid.{counting}
use connect_hub.Assistant.{
  autonomous, Role, AiMessage, is_autonomous, get_conversation, update, has_pending_tool_call,
  to_message_inputs,
}
use connect_hub.Assistant.Actions.{
  chat, run_command, send_user_message, request_next_turn, set_mode, after_chat, after_exec,
  clear_conversation, blank,
}
use connect_hub.Assistant.Wire.{Complete, Paired, to_message_inputs-Complete}
use connect_hub.Assistant.Machine.{
  System, sends, switches, clears, after, Inv, tasks_of, Reach, here, next, EachClear, AtRest,
}
use connect_hub.Assistant.Machine.Cleared.{cleared_awaits_twice, cleared_result_incomplete}
use connect_hub.Assistant.Machine.Safety.{Reach-Fits, awaited_chat-Complete, length-tasks_of}
use connect_hub.Assistant.Machine.Stalled.{Stalled, proposed-stalls}
use connect_hub.Tests.{web}

abbrev begun : System
begun = record { state = record { conversations = empty; drawn = 0 }; tasks = [] }

begun-Inv : Inv begun
unfolding get_conversation
begun-Inv h = tt

abbrev emptied : System
emptied = record begun { state = clear_conversation begun.state "web" }

abbrev freed : System
freed = record emptied { state = set_mode emptied.state "web" autonomous }

abbrev asked : System
asked = after freed.tasks (send_user_message counting freed.state web anthropic "List the disks")

abbrev asked-Reach : Reach counting begun asked
asked-Reach =
    next (next (next here (clears "web")) (switches "web" autonomous))
      (sends web anthropic "List the disks")

asked_calm : EachClear AtRest asked-Reach
asked_calm = (((tt, refl), tt), tt)

Reach-Fits_example : Inv asked
Reach-Fits_example = Reach-Fits counting begun begun-Inv asked-Reach asked_calm

length-tasks_of_example : length (tasks_of "web" asked.tasks) ≤ 1
length-tasks_of_example = length-tasks_of counting begun begun-Inv asked-Reach asked_calm "web"

abbrev question : List AiMessageInput
question = AiMessageInput.user "List the disks" ∷ []

asked_one : asked.tasks ≡ [] ++ (chat web anthropic question ∷ [])
unfolding send_user_message set_mode clear_conversation request_next_turn update get_conversation
    has_pending_tool_call to_message_inputs
asked_one = refl

awaited_chat-Complete_example : Complete question
awaited_chat-Complete_example =
    awaited_chat-Complete counting begun begun-Inv asked-Reach asked_calm [] [] web anthropic
      question asked_one

abbrev list_disks : ToolCall
list_disks = record { command = "lsblk"; purpose = "list the disks" }

asked_autonomous : is_autonomous (get_conversation asked.state "web").mode ≡ true
unfolding send_user_message set_mode clear_conversation request_next_turn update get_conversation
    has_pending_tool_call
asked_autonomous = refl

asked_unstopped : (get_conversation asked.state "web").stop_requested ≡ false
unfolding send_user_message set_mode clear_conversation request_next_turn update get_conversation
    has_pending_tool_call
asked_unstopped = refl

abbrev proposed : System
proposed = after [] (after_chat counting asked.state web (ok (tool_call list_disks)) none)

-- The user asks again, and clears the conversation of another host.
abbrev again : System
again = after proposed.tasks (send_user_message counting proposed.state web anthropic "Go on")

abbrev tidied : System
tidied = record again { state = clear_conversation again.state "db" }

abbrev tidied-Reach : Reach counting proposed tidied
tidied-Reach = next (next here (sends web anthropic "Go on")) (clears "db")

db_rests : tasks_of "db" again.tasks ≡ []
unfolding send_user_message set_mode clear_conversation request_next_turn update get_conversation
    has_pending_tool_call after_chat run_command
db_rests = refl

proposed-stalls_example : Stalled "web" tidied
proposed-stalls_example =
    proposed-stalls counting begun begun-Inv asked-Reach asked_calm [] [] web anthropic question
      list_disks none asked_one asked_autonomous asked_unstopped tidied-Reach ((tt, tt), db_rests)
      ((tt, tt), refl)

-- Clear between two messages, and between a command and its result.
begun_rests : has_pending_tool_call (get_conversation begun.state "web").messages ≡ false
unfolding get_conversation has_pending_tool_call
begun_rests = refl

begun_idle : (get_conversation begun.state "web").running ≡ false
unfolding get_conversation
begun_idle = refl

cleared_awaits_twice_example :
    let sent =
      after begun.tasks (send_user_message counting begun.state web anthropic "List the disks") in
    let cleared = clear_conversation sent.state "web" in
    let again =
      after sent.tasks (send_user_message counting cleared web anthropic "List the users") in
    length (tasks_of "web" again.tasks) ≡ length (tasks_of "web" begun.tasks) + 2
cleared_awaits_twice_example =
    cleared_awaits_twice counting begun web anthropic anthropic "List the disks" "List the users"
      begun_idle begun_rests

abbrev listing : ExecOutput
listing = record { stdout = "sda"; stderr = ""; exit_status = some 0; truncated = false }

cleared_result_incomplete_example :
    let late =
      (after_exec counting
        (clear_conversation asked.state "web")
        web
        "2"
        list_disks
        anthropic
        (ok (ran listing))).0 in
    (is : List AiMessageInput) × ((send_user_message counting late web anthropic "Thanks").1
      ≡ some (chat web anthropic is))
    × ¬ Complete is
cleared_result_incomplete_example =
    cleared_result_incomplete counting asked.state web "2" list_disks anthropic anthropic listing
      "Thanks"

-- A question, a proposal and its result.
abbrev talk : List AiMessage
talk =
    record (blank "1" Role.user) { text = some "List the disks" }
    ∷ record (blank "2" Role.assistant) { tool_call = some list_disks }
    ∷ record (blank "3" Role.tool_result) { tool_call = some list_disks; skipped = true }
    ∷ []

talk-Paired : Paired talk
talk-Paired = (refl, (refl, (refl, tt)))

talk_rests : has_pending_tool_call talk ≡ false
unfolding has_pending_tool_call
talk_rests = refl

to_message_inputs-Complete_example : Complete (to_message_inputs talk)
to_message_inputs-Complete_example = to_message_inputs-Complete talk talk-Paired talk_rests
