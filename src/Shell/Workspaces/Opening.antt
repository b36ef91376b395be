-- ===== src/Shell/Workspaces/Opening.antt =====
-- src/pages/AppShell.tsx: what opening one saved tab leaves open.
use connect_hub.Base.{
  ℕ, suc, ◌≤◌, ◌≡◌, refl, sym, ap, ◌∙◌, subst, String, Bool, true, false, List, [], ◌∷◌, ◌++◌, map,
  Option, none, some, ◌==◌, if◌then◌else◌, arith, occurs, eq_refl, All,
}
use connect_hub.Number.{Number}
use connect_hub.Bridge.{Host, WorkspaceTab, WorkspaceTabInput}
use connect_hub.PaneTree.{PaneLeaf, PaneNode, leaf, collect_leaves}
use connect_hub.PaneTree.Saved.{SerializedPaneNode, serialize_layout, deserialize_layout}
use connect_hub.PaneTree.Saved.Fresh.{drawn-deserialize_layout}
use connect_hub.PaneTree.Saved.RoundTrip.{deserialize-serialize_layout}
use connect_hub.Assistant.Actions.{VpnGateResult}
use connect_hub.Sessions.{
  SessionKind, terminal, sftp, OpenSession, SessionsState, open_session, first_layout,
}
use connect_hub.Sessions.Panes.{set_layout}
use connect_hub.Sessions.Invariant.{tab_ids}
use connect_hub.Shell.{Shell}
use connect_hub.Shell.Tabs.{terminal_of, connect}
use connect_hub.Shell.Tabs.Twice.{is_terminal_of, terminals}
use connect_hub.Shell.Workspaces.{
  restore_tab, parse_layout, refill_parsed, refill, open_found, host_map, distinct_hosts, saved_tab,
}
use connect_hub.Shell.Workspaces.Connecting.{
  find-append, find-none, set_last, same_panes, sessions-after_gate, sessions-connect,
  sessions-gate_others,
}

-- A saved tab as the backend lists it.
abbrev pub listed : String → String → WorkspaceTabInput → WorkspaceTab
listed id workspace_id i = record {
  id = id;
  workspace_id = workspace_id;
  host_id = i.host_id;
  kind = i.kind;
  pane_count = i.pane_count;
  layout_json = i.layout_json;
  sort_order = i.sort_order;
}

-- The tab that a saved one is opened as, behind those that were open.
pub record OpenedAs {W : Type 0} (uuid : ℕ → String) (stringify : SerializedPaneNode W → String)
    (s : SessionsState W) (o : OpenSession W) (t : SessionsState W) : Type 0 where
  pub tab : OpenSession W
  pub behind : t.open_sessions ≡ s.open_sessions ++ (tab ∷ [])
  pub host : tab.host ≡ o.host
  pub kind : tab.kind ≡ o.kind
  pub saved : (i : ℕ) → saved_tab stringify i tab ≡ saved_tab stringify i o
  pub named : tab.tab_id ≡ uuid s.drawn
  pub drawn : suc s.drawn ≤ t.drawn

-- The saved form of a layout is not the empty text and is read back as it was.
abbrev pub Reads :
    {W : Type 0}
    → (SerializedPaneNode W → String)
    → (String → Option (SerializedPaneNode W))
    → SerializedPaneNode W
    → Type 0
Reads stringify parse raw = ((stringify raw == "") ≡ false) × (parse (stringify raw) ≡ some raw)

-- A tab that can be saved and opened again: an SFTP tab, or a terminal tab whose panes' hosts are
-- known and whose layout is read back.
abbrev pub Reopens :
    {W : Type 0}
    → (SerializedPaneNode W → String)
    → (String → Option (SerializedPaneNode W))
    → List Host
    → SessionKind
    → Option (PaneNode W)
    → Type 0
Reopens stringify parse all_hosts sftp layout = Unit
Reopens stringify parse all_hosts terminal none = ⊥
Reopens stringify parse all_hosts terminal (some t) =
    All (λ (l : PaneLeaf). host_map all_hosts l.host.id ≡ some l.host) (collect_leaves t)
    × Reads stringify parse (serialize_layout t)

module _ {W : Type 0} ⦃num : Number W⦄ (uuid : ℕ → String)
    (stringify : SerializedPaneNode W → String) (parse : String → Option (SerializedPaneNode W))
    (gate : Host → VpnGateResult) (all_hosts : List Host)
    (up : (h : Host) → (gate h).is_ok ≡ true) where
  pub opened_sftp :
      (s : Shell W) (tab_id : String) (host : Host) (layout : Option (PaneNode W)) (b : Bool)
      (tab : WorkspaceTab)
      → (tab.kind == "sftp") ≡ true
      → let o : OpenSession W = record {
        tab_id = tab_id;
        kind = sftp;
        host = host;
        layout = layout;
        broadcast_enabled = b;
      } in
        let r = open_found uuid parse gate all_hosts s tab host in
        (r.1 ≡ true) × OpenedAs uuid stringify s.sessions o r.0.sessions
  unfolding open_found open_session first_layout saved_tab
  opened_sftp s tab_id host layout b tab e =
      rw (e, sessions-after_gate uuid s host sftp (gate host) (up host))
        (
          refl,
          record {
            tab = _;
            behind = refl;
            host = refl;
            kind = refl;
            saved = λ i. refl;
            named = refl;
            drawn = omega arith;
          },
        )

  parse_layout-json :
      (drawn : ℕ) (json : Option String) (raw : SerializedPaneNode W)
      → json ≡ some (stringify raw)
      → Reads stringify parse raw
      → parse_layout uuid parse gate all_hosts drawn json
        ≡ some (deserialize_layout uuid (host_map all_hosts) drawn raw)
  unfolding parse_layout
  parse_layout-json drawn json raw e (written, readable) = rw (e, written, readable) refl

  -- Restoring a saved layout on the tab just opened.
  refilled :
      (s : Shell W) (host : Host) (tab : WorkspaceTab) (tab_id : String) (t : PaneNode W)
      → tab.layout_json ≡ some (stringify (serialize_layout t))
      → Reopens stringify parse all_hosts terminal (some t)
      → (u : PaneNode W) × (drawn : ℕ) × (serialize_layout u ≡ serialize_layout t)
        × (s.sessions.drawn ≤ drawn)
        × (refill uuid parse gate all_hosts s host tab tab_id
            ≡ (restore_tab uuid parse gate all_hosts s host tab_id (u, drawn), true))
  unfolding refill refill_parsed
  refilled s host tab tab_id t json (known, reads) =
      let m = host_map all_hosts in
      let n = s.sessions.drawn in
      let restored = deserialize_layout uuid m n (serialize_layout t) in
      let (u, e, same) = deserialize-serialize_layout uuid m n t known in
      (
        u,
        restored.1,
        same,
        drawn-deserialize_layout uuid m n (serialize_layout t),
        ap (refill_parsed uuid parse gate all_hosts s host tab tab_id) (
            parse_layout-json n tab.layout_json (serialize_layout t) json reads
            ∙ ap (λ o. some (o, restored.1)) e),
      )

  sessions-restore_tab :
      (s : Shell W) (host : Host) (u : PaneNode W) (drawn : ℕ) (os : List (OpenSession W))
      (o : OpenSession W)
      → s.sessions.open_sessions ≡ os ++ (o ∷ [])
      → occurs o.tab_id (tab_ids os) ≡ 0
      → let r = (restore_tab uuid parse gate all_hosts s host o.tab_id (u, drawn)).sessions in
        (r.open_sessions ≡ os ++ (record o { layout = some u } ∷ [])) × (r.drawn ≡ drawn)
  unfolding restore_tab set_layout
  sessions-restore_tab s host u drawn os o last others =
      let s1 = record s { sessions = record s.sessions { drawn = drawn } } in
      let same =
        sessions-gate_others uuid parse gate all_hosts s1 host
          (distinct_hosts (collect_leaves u) []) in
      (
        ap (λ x. (set_layout x o.tab_id u).open_sessions) same
            ∙ ap
                (map (λ (x : OpenSession W).
                  if x.tab_id == o.tab_id then record x { layout = some u } else x))
                last
            ∙ set_last o.tab_id u os o refl others,
        ap (λ x. x.drawn) same,
      )

  open_found-terminal :
      (s : Shell W) (host : Host) (tab : WorkspaceTab) (o : OpenSession W)
      → (tab.kind == "sftp") ≡ false
      → terminal_of (connect uuid s host (gate host)).sessions.open_sessions host ≡ some o
      → open_found uuid parse gate all_hosts s tab host
        ≡ refill uuid parse gate all_hosts (connect uuid s host (gate host)) host tab o.tab_id
  unfolding open_found
  open_found-terminal s host tab o kind found = rw (kind, found) refl

  pub opened_terminal :
      (s : Shell W) (tab_id : String) (host : Host) (t : PaneNode W) (b : Bool) (tab : WorkspaceTab)
      → (tab.kind == "sftp") ≡ false
      → tab.layout_json ≡ some (stringify (serialize_layout t))
      → terminals host.id s.sessions.open_sessions ≡ 0
      → ((k : ℕ) → s.sessions.drawn ≤ k → occurs (uuid k) (tab_ids s.sessions.open_sessions) ≡ 0)
      → Reopens stringify parse all_hosts terminal (some t)
      → let o : OpenSession W = record {
        tab_id = tab_id;
        kind = terminal;
        host = host;
        layout = some t;
        broadcast_enabled = b;
      } in
        let r = open_found uuid parse gate all_hosts s tab host in
        (r.1 ≡ true) × OpenedAs uuid stringify s.sessions o r.0.sessions
  unfolding open_session first_layout terminal_of saved_tab
  opened_terminal s tab_id host t b tab e json free fresh known =
      let s1 = connect uuid s host (gate host) in
      let os = s.sessions.open_sessions in
      let n : OpenSession W = record {
        tab_id = uuid s.sessions.drawn;
        kind = terminal;
        host = host;
        layout = some (leaf (record { pane_id = uuid (suc s.sessions.drawn); host = host }));
        broadcast_enabled = false;
      } in
      let c = sessions-connect uuid s host (gate host) (up host) free in
      let last = ap (λ (x : SessionsState W). x.open_sessions) c in
      let found =
        ap (λ os. terminal_of os host) last
        ∙ find-append (is_terminal_of host.id) os n (find-none host.id os free)
            (rw (eq_refl host.id) refl) in
      let (u, drawn, same, later, refills) = refilled s1 host tab n.tab_id t json known in
      let (opens, draws) =
        sessions-restore_tab s1 host u drawn os n last (fresh s.sessions.drawn (omega arith)) in
      let o : OpenSession W = record {
        tab_id = tab_id;
        kind = terminal;
        host = host;
        layout = some t;
        broadcast_enabled = b;
      } in
      subst (λ r. (r.1 ≡ true) × OpenedAs uuid stringify s.sessions o r.0.sessions)
        (sym (open_found-terminal s host tab n e found ∙ refills))
        (
          refl,
          record {
            tab = record n { layout = some u };
            behind = opens;
            host = refl;
            kind = refl;
            saved = λ i. rw (same_panes t u same, same);
            named = refl;
            drawn = omega (arith, draws, later, ap (λ (x : SessionsState W). x.drawn) c);
          },
        )
