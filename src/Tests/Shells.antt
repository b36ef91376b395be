-- ===== src/Tests/Shells.antt =====
-- src/pages/AppShell.tsx: a host connected to, once and twice over.
use connect_hub.Base.{◌≤◌, ◌≡◌, refl, false, not, ◌&&◌, ◌||◌, none, some, max}
use connect_hub.Number.Hundredths.{Hundredths, hundredths}
use connect_hub.Uuid.{counting}
use connect_hub.Sessions
use connect_hub.Sessions.{SessionKind}
use connect_hub.Settings
use connect_hub.Shell.{ManageTab, MainView, Shell, is_left, left_panel_overlays}
use connect_hub.Shell.Tabs.{handle_connect, after_gate, connect, terminal_of}
use connect_hub.Shell.Tabs.Handlers.{Kept}
use connect_hub.Shell.Tabs.Views.{Reached, start, next, answered, asked_terminal, Reached-Kept}
use connect_hub.Shell.Tabs.Twice.{terminals, terminals-connect, connect_twice}
use connect_hub.Shell.Panels.{shows_tab, left_panel_open, handle_activity_select}
use connect_hub.Shell.Panels.Toggling.{handle_activity_select_hosts}
use connect_hub.Vpn.Gate.{let_through}
use connect_hub.Tests.{web}

abbrev pub fresh : Shell Hundredths
fresh = record {
  sessions = Sessions.initial;
  settings = Settings.initial;
  main_view = MainView.manage ManageTab.hosts;
  modal = none;
  viewport_width = some 140_000;
  active_overlay = none;
  vpn_gate_host_id = none;
  vpn_gate_error = none;
}

abbrev opened : Shell Hundredths
opened = after_gate counting (handle_connect fresh web).0 web SessionKind.terminal let_through

opened-Reached : Reached counting opened
opened-Reached =
    next (next (start fresh ManageTab.hosts refl refl) (asked_terminal web))
      (answered web SessionKind.terminal let_through)

Reached-Kept_example : Kept counting opened
Reached-Kept_example = Reached-Kept counting opened-Reached

terminals-connect_example :
    terminals "web" (connect counting opened web let_through).sessions.open_sessions
    ≤ max 1 (terminals "web" opened.sessions.open_sessions)
terminals-connect_example = terminals-connect counting opened web let_through "web"

none_open : terminal_of fresh.sessions.open_sessions web ≡ none
unfolding terminal_of
none_open = refl

connect_twice_example :
    let asked = (handle_connect (handle_connect fresh web).0 web).0 in
    let first = after_gate counting asked web SessionKind.terminal let_through in
    let second = after_gate counting first web SessionKind.terminal let_through in
    terminals "web" second.sessions.open_sessions ≡ 2
connect_twice_example = connect_twice counting fresh web let_through let_through none_open refl refl

in_order :
    (left_panel_overlays fresh
      && (is_left fresh.active_overlay && not fresh.settings.left_sidebar_visible))
    ≡ false
unfolding left_panel_overlays
in_order = refl

handle_activity_select_hosts_example :
    left_panel_open (handle_activity_select fresh ManageTab.hosts)
    ≡ not (shows_tab fresh.main_view ManageTab.hosts) || not (left_panel_open fresh)
handle_activity_select_hosts_example = handle_activity_select_hosts fresh in_order
