-- ===== src/Sessions/Invariant/Layouts.antt =====
-- Splitting, closing, resizing and restoring panes keep the invariant.
use connect_hub.Base.{
  scaled, ℕ, suc, ◌≡◌, ap, String, Option, none, some, arith, ◌==◌, maybe, occurs, hit, Bool-cases,
  Option-cases, inl, inr,
}
use connect_hub.Uuid.{IsUuid, DrawnIn-one, DrawnIn-beside, DrawnIn-later}
use connect_hub.Number.{Number, IsOrdered, ◌≼◌}
use connect_hub.Bridge.{Host}
use connect_hub.PaneTree.{Direction, PaneNode, resize_split}
use connect_hub.PaneTree.Resizing.{
  collect_leaves-resize_split, count_leaves-resize_split, resize_split-InBounds,
}
use connect_hub.Sessions.{OpenSession, SessionsState}
use connect_hub.Sessions.Panes.{
  with_layout, close_in_sessions, close_pane, split_pane, resize_pane_split,
}
use connect_hub.Sessions.Panes.Counts.{
  tab_ids-close_in_sessions, occurs-close_in_sessions, close_in_sessions-Shaped, tab_id-with_layout,
  shape_of, kind_of_layout, shaped_terminal,
}
use connect_hub.Sessions.Panes.SplitCounts.{
  drawn-split_in_sessions, tab_ids-split_in_sessions, occurs-split_in_sessions,
  split_in_sessions-Shaped,
}
use connect_hub.Sessions.Invariant.{tab_panes, all_panes, Shaped, Inv}
use connect_hub.Sessions.Invariant.Tabs.{Inv-fewer, map-Inv}

module _ {W : Type 0} ⦃num : Number W⦄ {uuid : ℕ → String} where
  pub close_pane-Inv :
      (s : SessionsState W) (tab_id p : String) → Inv uuid s → Inv uuid (close_pane s tab_id p)
  unfolding close_pane
  close_pane-Inv s tab_id p v = elim (Bool-cases (close_in_sessions tab_id p s.open_sessions).1) [
    | inr kept ↦ rw kept v
    | inl removed ↦ rw removed (
        Inv-fewer s _ v (omega arith)
          (λ x. omega (arith, ap (occurs x) (tab_ids-close_in_sessions tab_id p s.open_sessions)))
          (λ x. occurs-close_in_sessions tab_id p x s.open_sessions)
          (close_in_sessions-Shaped tab_id p s.open_sessions v.shaped))
  ]

  pub split_pane-Inv :
      (u : IsUuid uuid) (ord : IsOrdered W) (s : SessionsState W) (tab_id p : String)
      (d : Direction) (host : Option Host)
      → Inv uuid s
      → Inv uuid (split_pane uuid s tab_id p d host).0
  unfolding split_pane
  split_pane-Inv u ord s tab_id p d host v =
      let os = s.open_sessions in
      let q = uuid s.drawn in
      let ids = tab_ids-split_in_sessions uuid tab_id p d q host (suc s.drawn) os in
      let later = drawn-split_in_sessions uuid tab_id p d q host (suc s.drawn) os in
      let tab = DrawnIn-one uuid s.drawn in
      record {
        tabs_distinct = λ x. omega (arith, ap (occurs x) ids, v.tabs_distinct x);
        panes_distinct = λ x. omega (
          arith,
          occurs-split_in_sessions uuid tab_id p d q host (suc s.drawn) x os,
          scaled (occurs p (all_panes os)) (hit q x) (v.panes_distinct p),
          DrawnIn-beside uuid tab (all_panes os) x (v.panes_distinct x) v.panes_drawn,
        );
        tabs_drawn =
            λ n h. omega (arith, ap (occurs (uuid n)) ids, v.tabs_drawn n (omega (arith, later)));
        panes_drawn = λ n h. omega (
          arith,
          occurs-split_in_sessions uuid tab_id p d q host (suc s.drawn) (uuid n) os,
          scaled (occurs p (all_panes os)) (hit q (uuid n)) (v.panes_distinct p),
          v.panes_drawn n (omega (arith, later)),
          DrawnIn-later uuid tab u n (omega (arith, later)),
        );
        shaped =
            split_in_sessions-Shaped uuid tab_id p d q host ord (suc s.drawn) os
              (v.panes_distinct p) v.shaped;
      }

module _ {W : Type 0} ⦃num : Number W⦄ (split_id : String) (ratio : W) where
  resize : Option (PaneNode W) → Option (PaneNode W)
  resize l = maybe none (λ t. some (resize_split t split_id ratio)) l

  tab_panes-resize : (o : OpenSession W) → tab_panes (with_layout o (resize o.layout)) ≡ tab_panes o
  unfolding with_layout resize
  tab_panes-resize o = elim (Option-cases o.layout) [
    | inl e ↦ rw e
    | inr (t, e) ↦ rw (e, collect_leaves-resize_split t split_id ratio)
  ]

  tab_id-resize : (o : OpenSession W) → (with_layout o (resize o.layout)).tab_id ≡ o.tab_id
  tab_id-resize o = tab_id-with_layout o (resize o.layout)

  Shaped-resize :
      (ord : IsOrdered W) (o : OpenSession W)
      → ratio ≼ ratio
      → Shaped o
      → Shaped (with_layout o (resize o.layout))
  unfolding with_layout resize
  Shaped-resize ord o n h = elim (Option-cases o.layout) [
    | inl e ↦ rw e (rw e at h)
    | inr (t, e) ↦
        let (few, bounded) = shape_of o.kind o.layout t e h in
        let same = count_leaves-resize_split t split_id ratio in
        rw e (
          shaped_terminal o.kind _ (kind_of_layout o.kind o.layout t e h)
            (omega (arith, same), resize_split-InBounds ord t split_id ratio n bounded))
  ]

module _ {W : Type 0} ⦃num : Number W⦄ {uuid : ℕ → String} where
  pub resize_pane_split-Inv :
      (ord : IsOrdered W) (s : SessionsState W) (tab_id split_id : String) (ratio : W)
      → ratio ≼ ratio
      → Inv uuid s
      → Inv uuid (resize_pane_split s tab_id split_id ratio)
  unfolding resize_pane_split resize
  resize_pane_split-Inv ord s tab_id split_id ratio n v =
      map-Inv _ s
        (λ o. elim (Bool-cases (o.tab_id == tab_id)) [
          | inl same ↦ rw same (tab_id-resize split_id ratio o)
          | inr other ↦ rw other
        ])
        (λ o. elim (Bool-cases (o.tab_id == tab_id)) [
          | inl same ↦ rw same (tab_panes-resize split_id ratio o)
          | inr other ↦ rw other
        ])
        (λ o h. elim (Bool-cases (o.tab_id == tab_id)) [
          | inl same ↦ rw same (Shaped-resize split_id ratio ord o n h)
          | inr other ↦ rw other h
        ])
        v
