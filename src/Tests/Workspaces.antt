-- ===== src/Tests/Workspaces.antt =====
-- src/pages/AppShell.tsx: a terminal tab of three panes and a file tab, saved and opened again.
use connect_hub.Base.{
  ℕ, ◌≤◌, ◌≡◌, refl, String, true, false, List, [], ◌∷◌, Option, none, some, arith, All,
  if◌then◌else◌, ◌==◌,
}
use connect_hub.Number.Hundredths.{Hundredths, hundredths}
use connect_hub.Uuid.{counting, counting-IsUuid}
use connect_hub.Bridge.{Host}
use connect_hub.PaneTree.{collect_leaves}
use connect_hub.PaneTree.Saved.{SerializedPaneNode, serialize_layout}
use connect_hub.Assistant.Actions.{VpnGateResult}
use connect_hub.Sessions.{SessionKind, OpenSession}
use connect_hub.Shell.{find_host}
use connect_hub.Shell.Tabs.Twice.{terminals}
use connect_hub.Shell.Workspaces.{host_map, saved_tabs, handle_open_workspace}
use connect_hub.Shell.Workspaces.RoundTrip.{IsKnown, listing, handle_open_workspace-saved_tabs}
use connect_hub.Vpn.Gate.{let_through}
use connect_hub.Tests.{web, db, three}
use connect_hub.Tests.Shells.{fresh}

-- The JSON of the one layout that is saved here.
abbrev stringify : SerializedPaneNode Hundredths → String
stringify (SerializedPaneNode.leaf id) = "{\"type\":\"leaf\"}"
stringify (SerializedPaneNode.split d r a b) = "{\"type\":\"split\"}"

abbrev parse : String → Option (SerializedPaneNode Hundredths)
parse text = if text == "{\"type\":\"split\"}" then some (serialize_layout three) else none

abbrev gate : Host → VpnGateResult
gate h = let_through

abbrev all_hosts : List Host
all_hosts = db ∷ web ∷ []

abbrev shell_tab : OpenSession Hundredths
shell_tab = record {
  tab_id = "t";
  kind = SessionKind.terminal;
  host = web;
  layout = some three;
  broadcast_enabled = true;
}

abbrev file_tab : OpenSession Hundredths
file_tab = record {
  tab_id = "f";
  kind = SessionKind.sftp;
  host = db;
  layout = none;
  broadcast_enabled = false;
}

abbrev both : List (OpenSession Hundredths)
both = shell_tab ∷ file_tab ∷ []

both-IsKnown : All (IsKnown stringify parse all_hosts) both
unfolding find_host host_map collect_leaves serialize_layout
both-IsKnown = ((refl, ((refl, (refl, (refl, tt))), (refl, refl))), ((refl, tt), tt))

at_most_one : (h : String) → terminals h both ≤ 1
unfolding terminals
at_most_one h = ground arith

abbrev rows : ℕ → String
rows i = "row"

handle_open_workspace-saved_tabs_example :
    let r =
      handle_open_workspace counting parse gate all_hosts fresh
        (listing rows "office" (saved_tabs stringify 0 both)) in
    (r.1 ≡ true) × (saved_tabs stringify 0 r.0.sessions.open_sessions ≡ saved_tabs stringify 0 both)
handle_open_workspace-saved_tabs_example =
    handle_open_workspace-saved_tabs counting stringify parse gate all_hosts rows "office"
      counting-IsUuid (λ h. refl) fresh both refl at_most_one both-IsKnown
