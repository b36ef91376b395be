-- ===== src/Tests.antt =====
-- Concrete inputs on which the theorems apply.
pub mod Panes
pub mod Tabs
pub mod Chats
pub mod Vpns
pub mod Preferences
pub mod Histories
pub mod Collections
pub mod Terminals
pub mod Gates
pub mod Shells
pub mod Reloads
pub mod Workspaces
pub mod Searches
use connect_hub.Base.{
  ℕ, String, Bool, true, false, List, [], ◌∷◌, Option, none, some, ◌==◌, if◌then◌else◌,
}
use connect_hub.Number.Hundredths.{Hundredths}
use connect_hub.Bridge.{Host}
use connect_hub.PaneTree.{Direction, row, column, PaneNode, leaf, split}

abbrev pub host_called : String → Host
host_called id = record {
  id = id;
  group_id = none;
  label = id;
  hostname = id;
  port = 22;
  identity_id = none;
  vpn_profile_id = none;
  color = none;
  icon = none;
  notes = none;
  sort_order = 0;
  last_connected_at = none;
  is_favorite = false;
  tags = [];
}

abbrev pub web : Host
web = host_called "web"

abbrev pub db : Host
db = host_called "db"

abbrev pub known : String → Option Host
known id = if id == "web" then some web else if id == "db" then some db else none

-- Three panes: "p" beside "q" above "r".
abbrev pub three : PaneNode Hundredths
three = split "outer" row (some 50) (leaf (record { pane_id = "p"; host = web })) (
    split "inner" column (some 30) (leaf (record { pane_id = "q"; host = db }))
      (leaf (record { pane_id = "r"; host = web })))
