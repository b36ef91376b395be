-- ===== src/Shell/Workspaces/RoundTrip.antt =====
-- src/pages/AppShell.tsx: saving the open tabs, opening what was saved, and saving again.
use connect_hub.Base.{
  ℕ, suc, ◌+◌, ◌≤◌, ◌≡◌, refl, sym, ap, ◌∙◌, String, Bool, true, List, [], ◌∷◌, ◌++◌, append_assoc,
  append-nil, map, Option, none, some, arith, occurs, eq_refl, All, leb, sort_by-sorted, IsSorted,
}
use connect_hub.Number.{Number}
use connect_hub.Uuid.{IsUuid, hit-uuid}
use connect_hub.Bridge.{Host, WorkspaceTab, WorkspaceTabInput}
use connect_hub.PaneTree.{PaneNode}
use connect_hub.PaneTree.Saved.{SerializedPaneNode}
use connect_hub.Assistant.Actions.{VpnGateResult}
use connect_hub.Sessions.{SessionKind, terminal, sftp, OpenSession}
use connect_hub.Sessions.Invariant.{tab_ids}
use connect_hub.Sessions.Invariant.Lists.{tab_ids-append}
use connect_hub.Shell.{Shell, find_host}
use connect_hub.Shell.Tabs.Twice.{terminals, terminals-append}
use connect_hub.Shell.Workspaces.{
  open_found, open_saved_tab, open_saved_tabs, handle_open_workspace, saved_tab, saved_tabs,
}
use connect_hub.Shell.Workspaces.Opening.{OpenedAs, Reopens, listed, opened_sftp, opened_terminal}

-- A tab's own host is known, and the tab can be opened again.
abbrev pub IsKnown :
    {W : Type 0}
    → (SerializedPaneNode W → String)
    → (String → Option (SerializedPaneNode W))
    → List Host
    → OpenSession W
    → Type 0
IsKnown stringify parse all_hosts o =
    (find_host all_hosts o.host.id ≡ some o.host)
    × Reopens stringify parse all_hosts o.kind o.layout

-- What the backend lists of a workspace, in order.
abbrev pub listing : (ℕ → String) → String → List WorkspaceTabInput → List WorkspaceTab
listing ids workspace_id tabs =
    map (λ (i : WorkspaceTabInput). listed (ids i.sort_order) workspace_id i) tabs

abbrev pub in_order : WorkspaceTab → WorkspaceTab → Bool
in_order a b = leb a.sort_order b.sort_order

module _ {W : Type 0} (stringify : SerializedPaneNode W → String) (ids : ℕ → String)
    (workspace_id : String) where
  saved_behind :
      (i j : ℕ) (x : WorkspaceTab) (os : List (OpenSession W))
      → x.sort_order ≡ i
      → i ≤ j
      → All
          (λ (y : WorkspaceTab). in_order x y ≡ true)
          (listing ids workspace_id (saved_tabs stringify j os))
  unfolding saved_tabs saved_tab
  saved_behind i j x [] e below = tt
  saved_behind i j x (o ∷ os) e below =
      (ground (arith, e, below), saved_behind i (suc j) x os e (omega arith))

  saved-IsSorted :
      (i : ℕ) (os : List (OpenSession W))
      → IsSorted in_order (listing ids workspace_id (saved_tabs stringify i os))
  unfolding saved_tabs saved_tab
  saved-IsSorted i [] = tt
  saved-IsSorted i (o ∷ os) = (
    saved_behind i (suc i) (listed (ids i) workspace_id (saved_tab stringify i o)) os refl
        (omega arith),
    saved-IsSorted (suc i) os,
  )

module _ {W : Type 0} ⦃num : Number W⦄ (uuid : ℕ → String)
    (stringify : SerializedPaneNode W → String) (parse : String → Option (SerializedPaneNode W))
    (gate : Host → VpnGateResult) (all_hosts : List Host) (ids : ℕ → String) (workspace_id : String)
    (u : IsUuid uuid) (up : (h : Host) → (gate h).is_ok ≡ true) where
  -- No identifier still to be drawn is a tab's.
  abbrev Fresh : Shell W → Type 0
  Fresh s = (k : ℕ) → s.sessions.drawn ≤ k → occurs (uuid k) (tab_ids s.sessions.open_sessions) ≡ 0

  opened_as :
      (s : Shell W) (i : ℕ) (id tab_id : String) (kind : SessionKind) (host : Host)
      (layout : Option (PaneNode W)) (b : Bool)
      → let o : OpenSession W = record {
        tab_id = tab_id;
        kind = kind;
        host = host;
        layout = layout;
        broadcast_enabled = b;
      } in
        let r =
          open_found uuid parse gate all_hosts s
            (listed id workspace_id (saved_tab stringify i o))
            host in
        Fresh s
        → terminals host.id s.sessions.open_sessions + terminals host.id (o ∷ []) ≤ 1
        → Reopens stringify parse all_hosts kind layout
        → (r.1 ≡ true) × OpenedAs uuid stringify s.sessions o r.0.sessions
  unfolding saved_tab terminals
  opened_as s i id tab_id sftp host layout b fresh few known =
      opened_sftp uuid stringify parse gate all_hosts up s tab_id host layout b _ refl
  opened_as s i id tab_id terminal host none b fresh few known = absurd known
  opened_as s i id tab_id terminal host (some t) b fresh few known =
      opened_terminal uuid stringify parse gate all_hosts up s tab_id host t b _ refl refl
        (ground (arith, few, eq_refl host.id)) fresh known

  -- What opening saved tabs leaves, behind the tabs that were open.
  record Restored (s : Shell W) (os : List (OpenSession W)) (r : Shell W × Bool) : Type 0 where
    pub tabs : List (OpenSession W)
    pub through : r.1 ≡ true
    pub behind : r.0.sessions.open_sessions ≡ s.sessions.open_sessions ++ tabs
    pub saved : (i : ℕ) → saved_tabs stringify i tabs ≡ saved_tabs stringify i os

  Fresh-OpenedAs :
      (s t : Shell W) (o : OpenSession W)
      → OpenedAs uuid stringify s.sessions o t.sessions
      → Fresh s
      → Fresh t
  Fresh-OpenedAs s t o r fresh k later =
      ap (λ os. occurs (uuid k) (tab_ids os)) r.behind
      ∙ tab_ids-append s.sessions.open_sessions r.tab (uuid k)
      ∙ rw r.named (
          omega (
            arith,
            fresh k (omega (arith, r.drawn)),
            hit-uuid u s.sessions.drawn k (omega (arith, r.drawn)),
          ))

  terminals-OpenedAs :
      (s t : Shell W) (o : OpenSession W) (h : String)
      → OpenedAs uuid stringify s.sessions o t.sessions
      → terminals h t.sessions.open_sessions
        ≡ terminals h s.sessions.open_sessions + terminals h (o ∷ [])
  unfolding terminals
  terminals-OpenedAs s t o h r =
      ap (terminals h) r.behind
      ∙ terminals-append h s.sessions.open_sessions r.tab
      ∙ rw (r.host, r.kind) (omega arith)

  opened_tab :
      (s : Shell W) (i : ℕ) (id : String) (o : OpenSession W)
      → Fresh s
      → terminals o.host.id s.sessions.open_sessions + terminals o.host.id (o ∷ []) ≤ 1
      → IsKnown stringify parse all_hosts o
      → let r =
          open_saved_tab uuid parse gate all_hosts s
            (listed id workspace_id (saved_tab stringify i o)) in
        (r.1 ≡ true) × OpenedAs uuid stringify s.sessions o r.0.sessions
  unfolding open_saved_tab saved_tab
  opened_tab s i id o fresh few (found, known) =
      rw found
        (opened_as s i id o.tab_id o.kind o.host o.layout o.broadcast_enabled fresh few known)

  restored :
      (s : Shell W) (i : ℕ) (os : List (OpenSession W))
      → Fresh s
      → ((h : String) → terminals h s.sessions.open_sessions + terminals h os ≤ 1)
      → All (IsKnown stringify parse all_hosts) os
      → Restored s os (
          open_saved_tabs uuid parse gate all_hosts s
            (listing ids workspace_id (saved_tabs stringify i os)))
  unfolding open_saved_tabs saved_tabs terminals
  restored s i [] fresh few known = record {
    tabs = [];
    through = refl;
    behind = sym (append-nil s.sessions.open_sessions);
    saved = λ j. refl;
  }
  restored s i (o ∷ os) fresh few (here, known) =
      let x = listed (ids i) workspace_id (saved_tab stringify i o) in
      let r = open_saved_tab uuid parse gate all_hosts s x in
      let (through, as_saved) =
        opened_tab s i (ids i) o fresh (omega (arith, few o.host.id)) here in
      let rest =
        restored r.0 (suc i) os (Fresh-OpenedAs s r.0 o as_saved fresh)
          (λ h. omega (arith, few h, terminals-OpenedAs s r.0 o h as_saved)) known in
      rw through (record {
        tabs = as_saved.tab ∷ rest.tabs;
        through = rest.through;
        behind =
            rest.behind
            ∙ ap (λ os. os ++ rest.tabs) as_saved.behind
            ∙ append_assoc s.sessions.open_sessions (as_saved.tab ∷ []) rest.tabs;
        saved = λ j. rw (as_saved.saved j, rest.saved (suc j));
      })

  -- Let no identifier be drawn twice and none be empty, let every VPN gate let through, and
  -- let nothing else happen meanwhile. Where no tab is open, opening what was saved from a
  -- list of tabs goes through to the end, and saving again gives what was saved: the same
  -- hosts, kinds, numbers of panes and layouts in the same places. The tabs saved have at
  -- most one terminal for each host; their hosts, and those of a terminal tab's panes, are
  -- known under their identifiers; and the JSON of each layout saved is not empty and is
  -- parsed back as it was.
  pub handle_open_workspace-saved_tabs :
      (s : Shell W) (os : List (OpenSession W))
      → s.sessions.open_sessions ≡ []
      → ((h : String) → terminals h os ≤ 1)
      → All (IsKnown stringify parse all_hosts) os
      → let r =
          handle_open_workspace uuid parse gate all_hosts s
            (listing ids workspace_id (saved_tabs stringify 0 os)) in
        (r.1 ≡ true)
        × (saved_tabs stringify 0 r.0.sessions.open_sessions ≡ saved_tabs stringify 0 os)
  unfolding handle_open_workspace terminals
  handle_open_workspace-saved_tabs s os none_open few known =
      let r =
        restored s 0 os (λ k later. rw none_open refl)
          (λ h. omega (arith, few h, ap (terminals h) none_open)) known in
      let listed_sorted = saved-IsSorted stringify ids workspace_id 0 os in
      rw (sort_by-sorted in_order _ listed_sorted) (
        r.through,
        ap (saved_tabs stringify 0) (r.behind ∙ ap (λ x. x ++ r.tabs) none_open) ∙ r.saved 0,
      )
