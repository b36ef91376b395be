-- ===== src/Shell/Tabs.antt =====
-- src/pages/AppShell.tsx: the handlers that open, split and close tabs and panes. A handler that
-- awaits the VPN's gate is two functions, up to the gate and from its answer on; `uuid` is the
-- platform's supply of identifiers.
pub mod Shown
pub mod Handlers
pub mod Views
pub mod Twice
use connect_hub.Base.{
  ℕ, String, Bool, true, false, not, ◌&&◌, List, Option, none, some, if◌then◌else◌, maybe, find,
  filter, ◌==◌, is_truthy, or_else, get_or_else, leb, get_last?, get_elem?, find_index, length, ◌+◌,
  ◌%◌, ◌⊎◌, inl, inr, suc, zero, [], ◌∷◌, ltb, ◌-◌,
}
use connect_hub.Number.{Number}
use connect_hub.Bridge.{Host}
use connect_hub.PaneTree.{Direction, PaneLeaf, PaneNode, collect_leaves, count_leaves}
use connect_hub.Assistant.Actions.{VpnGateResult}
use connect_hub.Sessions.{
  SessionKind, OpenSession, SessionsState, is_terminal, open_session, close_session,
}
use connect_hub.Sessions.Panes.{split_pane, close_pane}
use connect_hub.Vpn.Gate.{let_through}
use connect_hub.Settings.{SettingsState}
use connect_hub.Shell.{ManageTab, MainView, Shell}

abbrev refused : String → VpnGateResult
refused message = record { is_ok = false; message = some message }

unfoldable pub gate_result : Host → VpnGateResult → VpnGateResult
gate_result host r = if r.is_ok then let_through else record {
  is_ok = false;
  message = some (get_or_else r.message "Could not connect the VPN.");
}

-- `(index + delta + count) % count`, where no index is -1.
unfoldable pub next_index : Option ℕ → Bool → ℕ → ℕ
next_index at shift zero = 0
next_index none false (suc n) = 0
next_index none true (suc n) = (suc n - 2) % suc n
next_index (some i) false (suc n) = (i + 1 + suc n) % suc n
next_index (some i) true (suc n) = (i + n) % suc n

module _ {W : Type 0} where
  -- Up to the call of the VPN store, for a host with a VPN profile.
  unfoldable pub begin_gate : Shell W → Host → Shell W
  begin_gate s host =
      if is_truthy host.vpn_profile_id
      then record s { vpn_gate_host_id = some host.id; vpn_gate_error = none }
      else s

  unfoldable pub show_gate : Shell W → Host → VpnGateResult → Shell W
  show_gate s host r = record s {
    vpn_gate_host_id = none;
    vpn_gate_error =
        if r.is_ok then s.vpn_gate_error else maybe none (λ m. some (host.id, m)) r.message;
  }

  -- From the store's answer on.
  unfoldable pub end_gate : Shell W → Host → VpnGateResult → Shell W × VpnGateResult
  unfolding gate_result show_gate
  end_gate s host r =
      if is_truthy host.vpn_profile_id
      then (show_gate s host (gate_result host r), gate_result host r)
      else (s, let_through)

  unfoldable pub show_tab : Shell W → String → Shell W
  show_tab s tab_id = record s {
    main_view = MainView.session tab_id;
    settings = record s.settings { left_sidebar_visible = false };
    active_overlay = none;
  }

  unfoldable pub terminal_of : List (OpenSession W) → Host → Option (OpenSession W)
  terminal_of open_sessions host =
      find (λ (o : OpenSession W). (o.host.id == host.id) && is_terminal o.kind) open_sessions

  -- The state, and whether the gate is awaited.
  unfoldable pub handle_connect : Shell W → Host → Shell W × Bool
  unfolding begin_gate show_tab terminal_of
  handle_connect s host =
      maybe (begin_gate s host, true) (λ (o : OpenSession W). (show_tab s o.tab_id, false))
        (terminal_of s.sessions.open_sessions host)

  unfoldable pub view_left : String → MainView → List (OpenSession W) → MainView
  view_left tab_id (MainView.manage tab) remaining = MainView.manage tab
  view_left tab_id (MainView.session shown) remaining =
      if shown == tab_id
      then maybe (MainView.manage ManageTab.hosts)
          (λ (o : OpenSession W). MainView.session o.tab_id) (get_last? remaining)
      else MainView.session shown

  -- The state, and the identifier of the host whose VPN is released if nothing uses it any more.
  unfoldable pub handle_close_tab : Shell W → String → Shell W × Option String
  unfolding view_left
  handle_close_tab s tab_id =
      let closing = find (λ (o : OpenSession W). o.tab_id == tab_id) s.sessions.open_sessions in
      let remaining =
        filter (λ (o : OpenSession W). not (o.tab_id == tab_id)) s.sessions.open_sessions in
      (
        record s {
          sessions = close_session s.sessions tab_id;
          main_view = view_left tab_id s.main_view remaining;
        },
        maybe none (λ (o : OpenSession W). some o.host.id) closing,
      )

  unfoldable pub layout_of : List (OpenSession W) → String → Option (PaneNode W)
  layout_of open_sessions tab_id =
      maybe none (λ (o : OpenSession W). o.layout)
        (find (λ (o : OpenSession W). o.tab_id == tab_id) open_sessions)

  unfoldable pub is_last_pane : List (OpenSession W) → String → Bool
  unfolding layout_of
  is_last_pane open_sessions tab_id =
      maybe true (λ t. leb (count_leaves t) 1) (layout_of open_sessions tab_id)

  unfoldable pub handle_close_pane : Shell W → String → String → Shell W × Option String
  handle_close_pane s tab_id pane_id =
      if is_last_pane s.sessions.open_sessions tab_id
      then handle_close_tab s tab_id
      else (record s { sessions = close_pane s.sessions tab_id pane_id }, none)

  -- The host that a new pane connects to, or the answer that there is none.
  unfoldable pub split_target :
      SessionsState W → String → String → Option Host → VpnGateResult ⊎ Host
  unfolding layout_of
  split_target sessions tab_id pane_id host =
      maybe (inl (refused "This tab is no longer open."))
        (λ t.
          maybe (inl (refused "This pane is no longer open.")) inr
            (or_else host (host_of_pane (collect_leaves t))))
        (layout_of sessions.open_sessions tab_id)
    where
      host_of_pane : List PaneLeaf → Option Host
      host_of_pane leaves =
          maybe none (λ (l : PaneLeaf). some l.host)
            (find (λ (l : PaneLeaf). l.pane_id == pane_id) leaves)

  unfoldable pub target_asked : Shell W → VpnGateResult ⊎ Host → Shell W
  target_asked s (inl answer) = s
  target_asked s (inr target) = begin_gate s target

  -- The state, with the answer or the host whose gate is awaited.
  unfoldable pub handle_split_pane :
      Shell W → String → String → Option Host → Shell W × (VpnGateResult ⊎ Host)
  unfolding target_asked
  handle_split_pane s tab_id pane_id host =
      let target = split_target s.sessions tab_id pane_id host in (target_asked s target, target)

module _ {W : Type 0} ⦃num : Number W⦄ (uuid : ℕ → String) where
  unfoldable pub open_tab : Shell W → Host → SessionKind → Shell W
  open_tab s host kind =
      let (sessions, tab_id) = open_session uuid s.sessions host kind in
      show_tab (record s { sessions = sessions }) tab_id

  -- What handleConnect and handleOpenSftp do on the gate's answer.
  unfoldable pub after_gate : Shell W → Host → SessionKind → VpnGateResult → Shell W
  unfolding open_tab
  after_gate s host kind r =
      let (s', answer) = end_gate s host r in if answer.is_ok then open_tab s' host kind else s'

  -- One whole call of `handleConnect`, with nothing in between.
  unfoldable pub connect : Shell W → Host → VpnGateResult → Shell W
  connect s host r =
      let (s', awaits) = handle_connect s host in
      if awaits then after_gate s' host SessionKind.terminal r else s'

  unfoldable pub split_shown : Shell W → SessionsState W × Option String → Shell W × VpnGateResult
  split_shown s (sessions, id) = (
    record s { sessions = sessions },
    maybe (refused "Up to 9 panes per tab.") (λ i. let_through) id,
  )

  unfoldable pub after_split_gate :
      Shell W
      → String
      → String
      → Direction
      → Option Host
      → Host
      → VpnGateResult
      → Shell W × VpnGateResult
  unfolding split_shown
  after_split_gate s tab_id pane_id d host target r =
      let (s', answer) = end_gate s target r in
      if answer.is_ok
      then split_shown s' (split_pane uuid s'.sessions tab_id pane_id d host)
      else (s', answer)

module _ {W : Type 0} where
  unfoldable pub shown_at : List (OpenSession W) → MainView → Option ℕ
  shown_at open_sessions (MainView.session tab_id) =
      find_index (λ (o : OpenSession W). o.tab_id == tab_id) open_sessions
  shown_at open_sessions (MainView.manage tab) = none

  unfoldable pub next_tab : Shell W → Bool → Option (OpenSession W)
  unfolding shown_at
  next_tab s shift =
      let all = s.sessions.open_sessions in
      get_elem? all (next_index (shown_at all s.main_view) shift (length all))

  -- Ctrl+Tab shows the next tab, and with Shift the one before, around the ends.
  unfoldable pub cycle_tab : Shell W → Bool → Shell W
  cycle_tab s shift =
      maybe s (λ (o : OpenSession W). record s { main_view = MainView.session o.tab_id })
        (next_tab s shift)
