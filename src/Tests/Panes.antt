-- ===== src/Tests/Panes.antt =====
-- src/lib/paneTree.ts at a layout of three panes.
use connect_hub.Base.{hit, ◌≡◌, refl, some, arith, All, ◌≤◌, occurs}
use connect_hub.Number.Hundredths.{
  Hundredths, hundredths, Hundredths-IsOrdered, Hundredths-IsRounded,
}
use connect_hub.Uuid.{DrawnIn, counting, counting-IsUuid}
use connect_hub.PaneTree.{row, PaneLeaf, collect_leaves, remove_leaf, resize_split, split_leaf}
use connect_hub.PaneTree.Leaves.{pane_ids}
use connect_hub.PaneTree.Closing.{leaves_of, drop_first, collect_leaves-remove_leaf}
use connect_hub.PaneTree.Splitting.{insert_after, collect_leaves-split_leaf, remove_leaf-split_leaf}
use connect_hub.PaneTree.Resizing.{InBounds, resize_split-InBounds}
use connect_hub.PaneTree.Layout.{Rect, LeafLayout, compute_layout}
use connect_hub.PaneTree.Layout.Sizes.{RectFits, compute_layout-RectFits}
use connect_hub.PaneTree.Saved.{SerializedPaneNode, serialize_layout, deserialize_layout}
use connect_hub.PaneTree.Saved
use connect_hub.PaneTree.Saved.RoundTrip.{
  hosts_of, known_hosts, saved_hosts, hosts_of-deserialize_layout,
}
use connect_hub.PaneTree.Saved.Fresh.{ids_of, ids_of-deserialize_layout}
use connect_hub.Tests.{db, known, three}

abbrev screen : Rect Hundredths
screen = record { left = some 0; top = some 0; width = some 80000; height = some 60000 }

-- A saved layout, one of whose hosts is no longer known.
abbrev saved : SerializedPaneNode Hundredths
saved =
    Saved.split row (some 50) (Saved.leaf "web")
      (Saved.split row (some 50) (Saved.leaf "gone") (Saved.leaf "db"))

collect_leaves-remove_leaf_example :
    leaves_of (remove_leaf three "q") ≡ drop_first "q" (collect_leaves three)
collect_leaves-remove_leaf_example = collect_leaves-remove_leaf three "q"

collect_leaves-split_leaf_example :
    collect_leaves (split_leaf counting 5 three "q" row "new" db).0
    ≡ insert_after "q" (record { pane_id = "new"; host = db }) (collect_leaves three)
collect_leaves-split_leaf_example = collect_leaves-split_leaf counting 5 three "q" row "new" db

once : occurs "q" (pane_ids three) ≤ 1
unfolding collect_leaves hit
once = ground arith

absent : occurs "new" (pane_ids three) ≡ 0
unfolding collect_leaves hit
absent = refl

remove_leaf-split_leaf_example :
    remove_leaf (split_leaf counting 5 three "q" row "new" db).0 "new" ≡ some three
remove_leaf-split_leaf_example =
    remove_leaf-split_leaf counting 5 three "q" row "new" db once absent

three-InBounds : InBounds three
three-InBounds = ground arith

resize_split-InBounds_example : InBounds (resize_split three "inner" (some 99))
resize_split-InBounds_example =
    resize_split-InBounds Hundredths-IsOrdered three "inner" (some 99) refl three-InBounds

screen-RectFits : RectFits (some 80000) (some 60000) screen
screen-RectFits = record {
  wide = record { finite = refl; nonneg = refl; within = refl };
  high = record { finite = refl; nonneg = refl; within = refl };
}

compute_layout-RectFits_example :
    All
      (λ (l : LeafLayout Hundredths). RectFits (some 80000) (some 60000) l.rect)
      (compute_layout three screen).leaves
compute_layout-RectFits_example =
    compute_layout-RectFits Hundredths-IsOrdered Hundredths-IsRounded three (some 80000)
      (some 60000) screen three-InBounds screen-RectFits

hosts_of-deserialize_layout_example :
    hosts_of (deserialize_layout counting known 0 saved).0 ≡ known_hosts known (saved_hosts saved)
hosts_of-deserialize_layout_example = hosts_of-deserialize_layout counting known 0 saved

three_known : All (λ (l : PaneLeaf). known l.host.id ≡ some l.host) (collect_leaves three)
unfolding collect_leaves
three_known = (refl, (refl, (refl, tt)))

ids_of-deserialize_layout_example :
    DrawnIn counting 0
      (deserialize_layout counting known 0 saved).1
      (ids_of (deserialize_layout counting known 0 saved).0)
ids_of-deserialize_layout_example = ids_of-deserialize_layout counting counting-IsUuid known 0 saved
