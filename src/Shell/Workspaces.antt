-- ===== src/Shell/Workspaces.antt =====
-- src/pages/AppShell.tsx: saving the open tabs as a workspace, and opening a workspace
-- (`handleSaveCurrentLayout`, `handleOpenWorkspace`). `stringify` and `parse` are the platform's JSON
-- on saved layouts, `parse` without a result where it throws; `gate` is what the VPN's gate answers
-- for each host. Opening is one function, nothing else happening while it awaits.
pub mod Connecting
pub mod Opening
pub mod RoundTrip
use connect_hub.Base.{
  ℕ, zero, suc, ◌-◌, String, Bool, true, false, List, [], ◌∷◌, Option, none, some, if◌then◌else◌,
  maybe, head?, ◌==◌, is_truthy, ◌⊎◌, inl, inr, leb, sort_by, or_else, get_or_else,
}
use connect_hub.Number.{Number}
use connect_hub.Bridge.{Host, WorkspaceTab, WorkspaceTabInput}
use connect_hub.PaneTree.{PaneLeaf, PaneNode, row, collect_leaves, count_leaves}
use connect_hub.PaneTree.Saved.{SerializedPaneNode, serialize_layout, deserialize_layout}
use connect_hub.Assistant.Actions.{VpnGateResult}
use connect_hub.Sessions.{SessionKind, terminal, sftp, OpenSession}
use connect_hub.Sessions.Panes.{set_layout}
use connect_hub.Shell.{Shell, find_host}
use connect_hub.Shell.Tabs.{
  begin_gate, end_gate, terminal_of, handle_split_pane, layout_of, after_gate, after_split_gate,
  connect,
}

abbrev pub kind_name : SessionKind → String
kind_name terminal = "terminal"
kind_name sftp = "sftp"

module _ {W : Type 0} (stringify : SerializedPaneNode W → String) where
  -- The layout of a terminal tab.
  abbrev pub terminal_layout : OpenSession W → Option (PaneNode W)
  terminal_layout o = of o.kind
    where
      of : SessionKind → Option (PaneNode W)
      of terminal = o.layout
      of sftp = none

  unfoldable pub saved_tab : ℕ → OpenSession W → WorkspaceTabInput
  saved_tab i o = record {
    host_id = o.host.id;
    kind = kind_name o.kind;
    pane_count = maybe 1 count_leaves (terminal_layout o);
    layout_json = maybe none (λ t. some (stringify (serialize_layout t))) (terminal_layout o);
    sort_order = i;
  }

  unfoldable pub saved_tabs : ℕ → List (OpenSession W) → List WorkspaceTabInput
  unfolding saved_tab
  saved_tabs i [] = []
  saved_tabs i (o ∷ os) = saved_tab i o ∷ saved_tabs (suc i) os

-- `new Map(hosts.map((h) => [h.id, h]))`: of two entries with one key the later counts.
unfoldable pub host_map : List Host → String → Option Host
host_map [] id = none
host_map (h ∷ hs) id = or_else (host_map hs id) (if h.id == id then some h else none)

-- The hosts of some panes, one for each identifier: at the first one's place, the last one.
put_host : Host → List Host → List Host
put_host h [] = h ∷ []
put_host h (g ∷ gs) = if g.id == h.id then h ∷ gs else g ∷ put_host h gs

unfoldable pub distinct_hosts : List PaneLeaf → List Host → List Host
unfolding put_host
distinct_hosts [] put = put
distinct_hosts (l ∷ ls) put = distinct_hosts ls (put_host l.host put)

module _ {W : Type 0} ⦃num : Number W⦄ (uuid : ℕ → String)
    (parse : String → Option (SerializedPaneNode W)) (gate : Host → VpnGateResult)
    (all_hosts : List Host) where
  -- The gates of a restored layout's other hosts, whose answers only show.
  unfoldable pub gate_others : Shell W → Host → List Host → Shell W
  gate_others s host [] = s
  gate_others s host (h ∷ hs) =
      gate_others (if h.id == host.id then s else (end_gate (begin_gate s h) h (gate h)).0) host hs

  unfoldable pub restore_tab : Shell W → Host → String → PaneNode W × ℕ → Shell W
  unfolding gate_others
  restore_tab s host tab_id (t, drawn) =
      let s1 = record s { sessions = record s.sessions { drawn = drawn } } in
      let s2 = gate_others s1 host (distinct_hosts (collect_leaves t) []) in
      record s2 { sessions = set_layout s2.sessions tab_id t }

  split_first : Shell W → String → PaneLeaf → Shell W
  split_first s tab_id l = answered (handle_split_pane s tab_id l.pane_id none)
    where
      answered : Shell W × (VpnGateResult ⊎ Host) → Shell W
      answered (s', inl refusal) = s'
      answered (s', inr target) =
          (after_split_gate uuid s' tab_id l.pane_id row none target (gate target)).0

  -- Splits the first pane so many times, for a tab saved without its layout.
  unfoldable pub fill_panes : ℕ → Shell W → String → Shell W
  unfolding split_first
  fill_panes zero s tab_id = s
  fill_panes (suc n) s tab_id =
      maybe s (λ l. fill_panes n (split_first s tab_id l) tab_id)
        (maybe none (λ t. head? (collect_leaves t)) (layout_of s.sessions.open_sessions tab_id))

  -- The layout of a saved tab, and the number drawn then; nothing where its JSON does not parse.
  unfoldable pub parse_layout : ℕ → Option String → Option (Option (PaneNode W) × ℕ)
  parse_layout drawn json =
      if is_truthy json
      then maybe none (λ raw. some (deserialize_layout uuid (host_map all_hosts) drawn raw))
          (parse (get_or_else json ""))
      else some (none, drawn)

  unfoldable pub refill_parsed :
      Shell W → Host → WorkspaceTab → String → Option (Option (PaneNode W) × ℕ) → Shell W × Bool
  refill_parsed s host tab tab_id none = (s, false)
  refill_parsed s host tab tab_id (some (some t, drawn)) =
      (restore_tab s host tab_id (t, drawn), true)
  refill_parsed s host tab tab_id (some (none, drawn)) =
      let s1 = record s { sessions = record s.sessions { drawn = drawn } } in
      (fill_panes (tab.pane_count - 1) s1 tab_id, true)

  -- A saved terminal tab, once the tab that it goes to is open; false where the loop is left by
  -- the error of `JSON.parse`.
  unfoldable pub refill : Shell W → Host → WorkspaceTab → String → Shell W × Bool
  unfolding refill_parsed
  refill s host tab tab_id =
      refill_parsed s host tab tab_id (parse_layout s.sessions.drawn tab.layout_json)

  unfoldable pub open_found : Shell W → WorkspaceTab → Host → Shell W × Bool
  unfolding refill
  open_found s tab host =
      if tab.kind == "sftp"
      then (after_gate uuid (begin_gate s host) host sftp (gate host), true)
      else let s1 = connect uuid s host (gate host) in
        maybe (s1, true) (λ (o : OpenSession W). refill s1 host tab o.tab_id)
          (terminal_of s1.sessions.open_sessions host)

  unfoldable pub open_saved_tab : Shell W → WorkspaceTab → Shell W × Bool
  unfolding open_found
  open_saved_tab s tab = maybe (s, true) (open_found s tab) (find_host all_hosts tab.host_id)

  unfoldable pub open_saved_tabs : Shell W → List WorkspaceTab → Shell W × Bool
  unfolding open_saved_tab
  open_saved_tabs s [] = (s, true)
  open_saved_tabs s (tab ∷ tabs) =
      let opened = open_saved_tab s tab in
      let rest = open_saved_tabs opened.0 tabs in if opened.1 then rest else opened

  unfoldable pub handle_open_workspace : Shell W → List WorkspaceTab → Shell W × Bool
  handle_open_workspace s tabs =
      open_saved_tabs s (sort_by (λ (a b : WorkspaceTab). leb a.sort_order b.sort_order) tabs)
