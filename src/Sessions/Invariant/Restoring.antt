-- ===== src/Sessions/Invariant/Restoring.antt =====
-- Giving a tab a restored layout keeps the invariant.
use connect_hub.Base.{
  scaled, ℕ, ◌+◌, ◌*◌, ◌≤◌, ◌≡◌, refl, ap, String, true, List, [], ◌∷◌, map, some, arith, ◌==◌,
  if◌then◌else◌, occurs, occurs-append, hit-true, hit-false, All, Bool-cases, inl, inr,
}
use connect_hub.Uuid.{IsUuid, DrawnIn, DrawnIn-beside, DrawnIn-later}
use connect_hub.Number.{Number}
use connect_hub.PaneTree.{PaneNode, count_leaves}
use connect_hub.PaneTree.Leaves.{pane_ids}
use connect_hub.PaneTree.Resizing.{InBounds}
use connect_hub.Sessions.{terminal, OpenSession, SessionsState, max_panes}
use connect_hub.Sessions.Panes.{set_layout}
use connect_hub.Sessions.Panes.Counts.{shaped_terminal}
use connect_hub.Sessions.Invariant.{tab_panes, all_panes, tab_ids, Shaped, Inv}

module _ {W : Type 0} (tab_id : String) (t : PaneNode W) where
  with_tree : OpenSession W → OpenSession W
  with_tree o = if o.tab_id == tab_id then record o { layout = some t } else o

  tab_ids-with_tree : (os : List (OpenSession W)) → tab_ids (map with_tree os) ≡ tab_ids os
  unfolding with_tree
  tab_ids-with_tree [] = refl
  tab_ids-with_tree (o ∷ os) = elim (Bool-cases (o.tab_id == tab_id)) [
    | inl same ↦ rw (same, tab_ids-with_tree os)
    | inr other ↦ rw (other, tab_ids-with_tree os)
  ]

  -- The tab's old panes go, and the new layout's panes come, once for each tab of that name.
  occurs-with_tree :
      (x : String) (os : List (OpenSession W))
      → occurs x (all_panes (map with_tree os))
        ≤ occurs x (all_panes os) + occurs tab_id (tab_ids os) * occurs x (pane_ids t)
  unfolding with_tree
  occurs-with_tree x [] = omega arith
  occurs-with_tree x (o ∷ os) = elim (Bool-cases (o.tab_id == tab_id)) [
    | inl same ↦
        rw (same, hit-true o.tab_id tab_id same)
          (omega (
            arith,
            occurs-append x (pane_ids t) (all_panes (map with_tree os)),
            occurs-append x (tab_panes o) (all_panes os),
            occurs-with_tree x os,
          ))
    | inr other ↦
        rw (other, hit-false o.tab_id tab_id other)
          (omega (
            arith,
            occurs-append x (tab_panes o) (all_panes (map with_tree os)),
            occurs-append x (tab_panes o) (all_panes os),
            occurs-with_tree x os,
          ))
  ]

  abbrev pub IsTerminalTab : OpenSession W → Type 0
  IsTerminalTab o = (o.tab_id == tab_id) ≡ true → o.kind ≡ terminal

  Shaped-with_tree :
      ⦃num : Number W⦄ (os : List (OpenSession W))
      → All IsTerminalTab os
      → count_leaves t ≤ max_panes
      → InBounds t
      → All Shaped os
      → All Shaped (map with_tree os)
  unfolding with_tree
  Shaped-with_tree [] kinds few bounded h = tt
  Shaped-with_tree (o ∷ os) (kind, kinds) few bounded (h, hs) = (
    elim (Bool-cases (o.tab_id == tab_id)) [
      | inl same ↦ rw same (shaped_terminal o.kind t (kind same) (few, bounded))
      | inr other ↦ rw other h
    ],
    Shaped-with_tree os kinds few bounded hs,
  )

module _ {W : Type 0} ⦃num : Number W⦄ {uuid : ℕ → String} (u : IsUuid uuid) where
  pub set_layout-Inv :
      (s : SessionsState W) (tab_id : String) (t : PaneNode W) (drawn : ℕ)
      → s.drawn ≤ drawn
      → DrawnIn uuid s.drawn drawn (pane_ids t)
      → All (IsTerminalTab tab_id t) s.open_sessions
      → count_leaves t ≤ max_panes
      → InBounds t
      → Inv uuid s
      → Inv uuid (record (set_layout s tab_id t) { drawn = drawn })
  unfolding set_layout with_tree
  set_layout-Inv s tab_id t drawn later fresh kinds few bounded v =
      let os = s.open_sessions in
      let ids = tab_ids-with_tree tab_id t os in
      record {
        tabs_distinct = λ x. omega (arith, ap (occurs x) ids, v.tabs_distinct x);
        panes_distinct = λ x. omega (
          arith,
          occurs-with_tree tab_id t x os,
          scaled (occurs tab_id (tab_ids os)) (occurs x (pane_ids t)) (v.tabs_distinct tab_id),
          DrawnIn-beside uuid fresh (all_panes os) x (v.panes_distinct x) v.panes_drawn,
        );
        tabs_drawn = λ n h. omega (arith, ap (occurs (uuid n)) ids, v.tabs_drawn n (omega arith));
        panes_drawn = λ n h. omega (
          arith,
          occurs-with_tree tab_id t (uuid n) os,
          scaled (occurs tab_id (tab_ids os)) (occurs (uuid n) (pane_ids t))
              (v.tabs_distinct tab_id),
          v.panes_drawn n (omega arith),
          DrawnIn-later uuid fresh u n h,
        );
        shaped = Shaped-with_tree tab_id t os kinds few bounded v.shaped;
      }
