-- ===== src/PaneTree/Saved/Fresh.antt =====
-- The panes of a restored layout get identifiers of their own.
use connect_hub.Base.{
  ℕ, ◌≤◌, ◌≡◌, refl, sym, String, List, ◌++◌, map, map-append, append-nil, Option, none, some,
  arith,
}
use connect_hub.Uuid.{IsUuid, DrawnIn, DrawnIn-nil, DrawnIn-one, DrawnIn-widen, DrawnIn-append}
use connect_hub.Bridge.{Host}
use connect_hub.PaneTree.{Direction, PaneLeaf, PaneNode, collect_leaves}
use connect_hub.PaneTree.Closing.{leaves_of}
use connect_hub.PaneTree.Saved.{
  SerializedPaneNode, leaf, split, restore_leaf, restore_split, deserialize_layout,
}

abbrev pub ids_of : {W : Type 0} → Option (PaneNode W) → List String
ids_of o = map (λ (l : PaneLeaf). l.pane_id) (leaves_of o)

module _ {W : Type 0} (uuid : ℕ → String) (m : String → Option Host) where
  ids_of-restore_split :
      (d : Direction) (r : W) (drawn : ℕ) (a b : Option (PaneNode W))
      → ids_of (restore_split uuid m d r drawn a b).0 ≡ ids_of a ++ ids_of b
  unfolding restore_split collect_leaves
  ids_of-restore_split d r drawn (some a) (some b) =
      map-append (λ (l : PaneLeaf). l.pane_id) (collect_leaves a) (collect_leaves b)
  ids_of-restore_split d r drawn (some a) none = sym (append-nil _)
  ids_of-restore_split d r drawn none b = refl

  drawn-restore_split :
      (d : Direction) (r : W) (drawn : ℕ) (a b : Option (PaneNode W))
      → drawn ≤ (restore_split uuid m d r drawn a b).1
  unfolding restore_split
  drawn-restore_split d r drawn (some a) (some b) = omega arith
  drawn-restore_split d r drawn (some a) none = omega arith
  drawn-restore_split d r drawn none b = omega arith

  pub drawn-deserialize_layout :
      (drawn : ℕ) (raw : SerializedPaneNode W) → drawn ≤ (deserialize_layout uuid m drawn raw).1
  unfolding deserialize_layout
  drawn-deserialize_layout drawn (leaf host_id) = ground (arith)
  drawn-deserialize_layout drawn (split d r a b) =
      let left = deserialize_layout uuid m drawn a in
      let right = deserialize_layout uuid m left.1 b in
      omega (
        arith,
        drawn-restore_split d r right.1 left.0 right.0,
        drawn-deserialize_layout drawn a,
        drawn-deserialize_layout left.1 b,
      )

ids_of-restore_leaf :
    (W : Type 0) (uuid : ℕ → String) (m : String → Option Host) (drawn : ℕ) (o : Option Host)
    → DrawnIn uuid drawn
        (restore_leaf {W = W} uuid m drawn o).1
        (ids_of (restore_leaf {W = W} uuid m drawn o).0)
unfolding restore_leaf collect_leaves
ids_of-restore_leaf W uuid m drawn none = DrawnIn-nil uuid drawn
ids_of-restore_leaf W uuid m drawn (some h) = DrawnIn-one uuid drawn

module _ {W : Type 0} (uuid : ℕ → String) (u : IsUuid uuid) (m : String → Option Host) where
  -- Where no identifier is drawn twice and none is empty, the panes of a restored layout are
  -- called by identifiers drawn while restoring, no two alike.
  pub ids_of-deserialize_layout :
      (drawn : ℕ) (raw : SerializedPaneNode W)
      → DrawnIn uuid drawn
          (deserialize_layout uuid m drawn raw).1
          (ids_of (deserialize_layout uuid m drawn raw).0)
  unfolding deserialize_layout
  ids_of-deserialize_layout drawn (leaf host_id) = ids_of-restore_leaf W uuid m drawn (m host_id)
  ids_of-deserialize_layout drawn (split d r a b) =
      let left = deserialize_layout uuid m drawn a in
      let right = deserialize_layout uuid m left.1 b in
      rw (ids_of-restore_split uuid m d r right.1 left.0 right.0) (
        DrawnIn-widen uuid _ _ (drawn-restore_split uuid m d r right.1 left.0 right.0) (
          DrawnIn-append uuid u drawn left.1 right.1 (ids_of left.0) (ids_of right.0)
            (drawn-deserialize_layout uuid m drawn a) (drawn-deserialize_layout uuid m left.1 b)
            (ids_of-deserialize_layout drawn a) (ids_of-deserialize_layout left.1 b)))
