-- ===== src/Tests/Tabs.antt =====
-- src/state/sessionsStore.ts: terminal tabs, opened and split.
use connect_hub.Base.{
  ◌≡◌, refl, false, none, some, ◌∷◌, ◌++◌, arith, ◌⊎◌, find, ◌==◌, ltb, if◌then◌else◌, occurs,
  get_elem?, take, drop, pos, length,
}
use mathlib.Core.List.{Perm}
use connect_hub.Number.Hundredths.{Hundredths, hundredths, Hundredths-IsOrdered}
use connect_hub.Uuid.{counting, counting-IsUuid}
use connect_hub.PaneTree.{row, split, leaf, split_leaf, count_leaves, find_leaf}
use connect_hub.Sessions.{
  SessionKind, OpenSession, SessionsState, initial, open_session, close_session,
}
use connect_hub.Sessions.Panes.{split_pane, close_pane}
use connect_hub.Sessions.Panes.Undo.{close_pane-split_pane, split_pane_result}
use connect_hub.Sessions.Invariant.{Inv, tab_ids, tab_panes, all_panes}
use connect_hub.Sessions.Reach.{Reach, start, next, opened, divided, Reach-Inv}
use connect_hub.Sessions.Reorder.{
  remove_at, reorder_sessions, reorder_sessions-perm, reorder_sessions_forward,
  reorder_sessions_back,
}
use connect_hub.Sessions.Closing.{close_session_forgets}
use connect_hub.Tests.{web, db}

abbrev State : Type 0
State = SessionsState Hundredths

-- A terminal tab "a" with its pane "aa", the pane split, and a file tab and a terminal tab beside it.
abbrev one : State
one = (open_session counting initial web SessionKind.terminal).0

abbrev divided_one : State
divided_one = (split_pane counting one "a" "aa" row (some db)).0

abbrev two : State
two = (open_session counting divided_one web SessionKind.sftp).0

abbrev three_tabs : State
three_tabs = (open_session counting two db SessionKind.terminal).0

three_tabs-Reach : Reach counting three_tabs
three_tabs-Reach =
    next
      (next (next (next start (opened web SessionKind.terminal)) (divided "a" "aa" row (some db)))
        (opened web SessionKind.sftp))
      (opened db SessionKind.terminal)

Reach-Inv_example : Inv counting three_tabs
Reach-Inv_example = Reach-Inv counting counting-IsUuid Hundredths-IsOrdered three_tabs-Reach

three_tabs-Inv : Inv counting three_tabs
three_tabs-Inv = Reach-Inv counting counting-IsUuid Hundredths-IsOrdered three_tabs-Reach

close_pane-split_pane_example :
    (close_pane
      (split_pane counting three_tabs "a" "aa" row none).0
      "a"
      (counting three_tabs.drawn)).open_sessions
    ≡ three_tabs.open_sessions
close_pane-split_pane_example = close_pane-split_pane three_tabs "a" "aa" row none three_tabs-Inv

split_pane_result_example :
    let r = split_pane counting three_tabs "a" "aa" row none in
    ((r.1 ≡ none) × (r.0.open_sessions ≡ three_tabs.open_sessions))
    ⊎ ((r.1 ≡ some (counting three_tabs.drawn))
        × (occurs (counting three_tabs.drawn) (all_panes three_tabs.open_sessions) ≡ 0)
        × (occurs (counting three_tabs.drawn) (all_panes r.0.open_sessions) ≡ 1))
split_pane_result_example = split_pane_result three_tabs "a" "aa" row none three_tabs-Inv

abbrev first_tab : OpenSession Hundredths
first_tab = record {
  tab_id = "a";
  kind = SessionKind.terminal;
  host = web;
  layout = some (
      split "aaaa" row (some 50) (leaf (record { pane_id = "aa"; host = web }))
        (leaf (record { pane_id = "aaa"; host = db })));
  broadcast_enabled = false;
}

abbrev last_tab : OpenSession Hundredths
last_tab = record {
  tab_id = "aaaaaa";
  kind = SessionKind.terminal;
  host = db;
  layout = some (leaf (record { pane_id = "aaaaaaa"; host = db }));
  broadcast_enabled = false;
}

first_found :
    find (λ (o : OpenSession Hundredths). o.tab_id == "a") three_tabs.open_sessions ≡ some first_tab
unfolding open_session split_pane split_leaf count_leaves find_leaf
first_found = refl

three_there : length three_tabs.open_sessions ≡ 3
unfolding open_session split_pane split_leaf count_leaves find_leaf
three_there = refl

first_there : get_elem? three_tabs.open_sessions 0 ≡ some first_tab
unfolding open_session split_pane split_leaf count_leaves find_leaf
first_there = refl

last_there : get_elem? three_tabs.open_sessions 2 ≡ some last_tab
unfolding open_session split_pane split_leaf count_leaves find_leaf
last_there = refl

close_session_forgets_example :
    let t = close_session three_tabs "a" in
    let gone = ltb 0 (occurs "aa" (tab_panes first_tab)) in
    (occurs "a" (tab_ids t.open_sessions) ≡ 0)
    × (t.statuses "aa" ≡ (if gone then none else three_tabs.statuses "aa"))
    × (t.session_ids "aa" ≡ (if gone then none else three_tabs.session_ids "aa"))
close_session_forgets_example = close_session_forgets three_tabs "a" first_tab "aa" first_found

reorder_sessions-perm_example :
    Perm (reorder_sessions three_tabs (pos 0) (pos 2)).open_sessions three_tabs.open_sessions
reorder_sessions-perm_example = reorder_sessions-perm three_tabs (pos 0) (pos 2)

reorder_sessions_forward_example :
    (reorder_sessions three_tabs (pos 0) (pos 2)).open_sessions
    ≡ remove_at 0 (take 2 three_tabs.open_sessions) ++ (first_tab ∷ drop 2 three_tabs.open_sessions)
reorder_sessions_forward_example =
    reorder_sessions_forward three_tabs 0 1 first_tab (omega arith) (omega (arith, three_there))
      first_there

reorder_sessions_back_example :
    (reorder_sessions three_tabs (pos 2) (pos 0)).open_sessions
    ≡ take 0 three_tabs.open_sessions ++ (last_tab ∷ remove_at 2 (drop 0 three_tabs.open_sessions))
reorder_sessions_back_example =
    reorder_sessions_back three_tabs 0 2 last_tab (omega arith) (omega (arith, three_there))
      last_there
