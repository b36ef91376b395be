-- ===== src/PaneTree/Saved.antt =====
-- src/lib/paneTree.ts: the wire format of a layout in a saved workspace (`serializeLayout`,
-- `deserializeLayout`). Host identifiers stand for hosts, and the identifiers of panes and dividers
-- are drawn afresh on restoring.
pub mod RoundTrip
pub mod Fresh
use connect_hub.Base.{ℕ, suc, String, Option, none, some, or_else}
use connect_hub.Bridge.{Host}
use connect_hub.PaneTree
use connect_hub.PaneTree.{Direction, PaneNode}

pub data SerializedPaneNode (W : Type 0) : Type 0 where
  leaf : String → SerializedPaneNode W
  split : Direction → W → SerializedPaneNode W → SerializedPaneNode W → SerializedPaneNode W

module _ {W : Type 0} where
  unfoldable pub serialize_layout : PaneNode W → SerializedPaneNode W
  serialize_layout (PaneNode.leaf l) = leaf l.host.id
  serialize_layout (PaneNode.split s d r a b) = split d r (serialize_layout a) (serialize_layout b)

module _ {W : Type 0} (uuid : ℕ → String) (hosts_by_id : String → Option Host) where
  restore_leaf : ℕ → Option Host → Option (PaneNode W) × ℕ
  restore_leaf drawn none = (none, drawn)
  restore_leaf drawn (some host) =
      (some (PaneNode.leaf (record { pane_id = uuid drawn; host = host })), suc drawn)

  -- Both sides alive: a split; else the side that is alive, if any.
  restore_split :
      Direction → W → ℕ → Option (PaneNode W) → Option (PaneNode W) → Option (PaneNode W) × ℕ
  restore_split d r drawn (some a) (some b) =
      (some (PaneNode.split (uuid drawn) d r a b), suc drawn)
  restore_split d r drawn (some a) none = (some a, drawn)
  restore_split d r drawn none b = (b, drawn)

  unfoldable pub deserialize_layout : ℕ → SerializedPaneNode W → Option (PaneNode W) × ℕ
  unfolding restore_leaf restore_split
  deserialize_layout drawn (leaf host_id) = restore_leaf drawn (hosts_by_id host_id)
  deserialize_layout drawn (split d r raw_a raw_b) =
      let a = deserialize_layout drawn raw_a in
      let b = deserialize_layout a.1 raw_b in restore_split d r b.1 a.0 b.0
