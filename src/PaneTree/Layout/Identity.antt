-- ===== src/PaneTree/Layout/Identity.antt =====
-- Which panes and dividers a layout shows, whatever their rectangles.
use connect_hub.Base.{
  suc, ◌≡◌, refl, String, List, [], ◌∷◌, ◌++◌, map, map-append, arith, length, length-append,
}
use connect_hub.Number.{Number}
use connect_hub.PaneTree.{PaneLeaf, PaneNode, leaf, split, count_leaves, collect_leaves}
use connect_hub.PaneTree.Layout.{Rect, LeafLayout, DividerLayout, a_rect, b_rect, compute_layout}

module _ {W : Type 0} where
  abbrev pub shown_leaf : LeafLayout W → PaneLeaf
  shown_leaf l = record { pane_id = l.pane_id; host = l.host }

  abbrev pub shown_leaves : List (LeafLayout W) → List PaneLeaf
  shown_leaves ls = map shown_leaf ls

  -- The dividers of a tree from left to right.
  pub split_ids : PaneNode W → List String
  split_ids (leaf l) = []
  split_ids (split s d r a b) = split_ids a ++ (s ∷ split_ids b)

module _ {W : Type 0} ⦃num : Number W⦄ where
  -- The panes shown are the leaves of the tree, in their order, whatever the container.
  pub shown_leaves-compute_layout :
      (t : PaneNode W) (rect : Rect W)
      → shown_leaves (compute_layout t rect).leaves ≡ collect_leaves t
  unfolding compute_layout collect_leaves
  shown_leaves-compute_layout (leaf l) rect = refl
  shown_leaves-compute_layout (split s d r a b) rect = rw (
    map-append (λ (l : LeafLayout W). shown_leaf l) (compute_layout a (a_rect d r rect)).leaves
        (compute_layout b (b_rect d r rect)).leaves,
    shown_leaves-compute_layout a (a_rect d r rect),
    shown_leaves-compute_layout b (b_rect d r rect),
  )

  pub split_ids-compute_layout :
      (t : PaneNode W) (rect : Rect W)
      → map (λ (x : DividerLayout W). x.split_id) (compute_layout t rect).dividers ≡ split_ids t
  unfolding compute_layout split_ids
  split_ids-compute_layout (leaf l) rect = refl
  split_ids-compute_layout (split s d r a b) rect = rw (
    map-append (λ (x : DividerLayout W). x.split_id) (compute_layout a (a_rect d r rect)).dividers
        _,
    split_ids-compute_layout a (a_rect d r rect),
    split_ids-compute_layout b (b_rect d r rect),
  )

  -- A layout shows one divider fewer than it has panes.
  pub count_leaves-compute_layout :
      (t : PaneNode W) (rect : Rect W)
      → count_leaves t ≡ suc (length (compute_layout t rect).dividers)
  unfolding compute_layout count_leaves
  count_leaves-compute_layout (leaf l) rect = refl
  count_leaves-compute_layout (split s d r a b) rect = omega (
    arith,
    length-append {0} (compute_layout a (a_rect d r rect)).dividers,
    count_leaves-compute_layout a (a_rect d r rect),
    count_leaves-compute_layout b (b_rect d r rect),
  )
