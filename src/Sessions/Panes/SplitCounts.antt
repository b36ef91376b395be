-- ===== src/Sessions/Panes/SplitCounts.antt =====
-- How splitting a pane changes the tabs: their identifiers, how often a pane occurs, and the shape
-- of their layouts.
use connect_hub.Base.{
  ℕ, ◌+◌, ◌*◌, ◌≤◌, ◌≡◌, refl, subst, String, ◌&&◌, List, [], ◌∷◌, Option, arith, ◌==◌, occurs, leb,
  occurs-append, hit, Bool-cases, Option-cases, inl, inr, All, get_or_else,
}
use connect_hub.Number.{Number, IsOrdered}
use connect_hub.Bridge.{Host}
use connect_hub.PaneTree.{Direction, PaneNode, count_leaves, find_leaf}
use connect_hub.PaneTree.Leaves.{pane_ids}
use connect_hub.PaneTree.Splitting.{occurs-split_leaf, count_leaves-split_leaf, drawn-split_leaf}
use connect_hub.PaneTree.Resizing.{split_leaf-InBounds}
use connect_hub.Sessions.{OpenSession, max_panes, is_terminal}
use connect_hub.Sessions.Invariant.{tab_panes, all_panes, tab_ids, Shaped}
use connect_hub.Sessions.Panes.{with_layout, split_layout, split_in_session, split_in_sessions}
use connect_hub.Sessions.Panes.Inversion.{split_in_session-some}
use connect_hub.Sessions.Panes.Counts.{
  tab_id-with_layout, tab_panes-some, shape_of, shaped_terminal,
}

module _ {W : Type 0} ⦃num : Number W⦄ (uuid : ℕ → String) (tab_id p : String) (d : Direction)
    (q : String) (host : Option Host) where
  drawn-split_layout :
      (t : PaneNode W) (drawn : ℕ) → drawn ≤ (split_layout uuid t p d q host drawn).1
  unfolding split_layout
  drawn-split_layout t drawn = elim (Bool-cases (leb max_panes (count_leaves t))) [
    | inl full ↦ rw full (omega arith)
    | inr room ↦ rw room (elim (Option-cases (find_leaf t p)) [
      | inl missed ↦ rw missed (omega arith)
      | inr (l, found) ↦ rw found (drawn-split_leaf uuid drawn t p d q (get_or_else host l.host))
    ])
  ]

  drawn-split_in_session :
      (drawn : ℕ) (o : OpenSession W) → drawn ≤ (split_in_session uuid tab_id p d q host drawn o).1
  unfolding split_in_session
  drawn-split_in_session drawn o = elim (Bool-cases ((o.tab_id == tab_id) && is_terminal o.kind)) [
    | inr other ↦ rw other (omega arith)
    | inl same ↦ rw same (elim (Option-cases o.layout) [
      | inl missing ↦ rw missing (omega arith)
      | inr (t, there) ↦ rw there (drawn-split_layout t drawn)
    ])
  ]

  pub drawn-split_in_sessions :
      (drawn : ℕ) (os : List (OpenSession W))
      → drawn ≤ (split_in_sessions uuid tab_id p d q host drawn os).1
  unfolding split_in_sessions
  drawn-split_in_sessions drawn [] = omega arith
  drawn-split_in_sessions drawn (o ∷ os) = omega (
    arith,
    drawn-split_in_session drawn o,
    drawn-split_in_sessions (split_in_session uuid tab_id p d q host drawn o).1 os,
  )

  pub tab_ids-split_in_sessions :
      (drawn : ℕ) (os : List (OpenSession W))
      → tab_ids (split_in_sessions uuid tab_id p d q host drawn os).0 ≡ tab_ids os
  unfolding split_in_sessions
  tab_ids-split_in_sessions drawn [] = refl
  tab_ids-split_in_sessions drawn (o ∷ os) =
      let next = split_in_session uuid tab_id p d q host drawn o in
      rw (tab_id-with_layout o next.0, tab_ids-split_in_sessions next.1 os)

  split_tab-le :
      (drawn : ℕ) (x : String) (o : OpenSession W)
      → occurs x (tab_panes (with_layout o (split_in_session uuid tab_id p d q host drawn o).0))
        ≤ occurs x (tab_panes o) + occurs p (tab_panes o) * hit q x
  unfolding with_layout
  split_tab-le drawn x o = elim (Option-cases (split_in_session uuid tab_id p d q host drawn o).0) [
    | inl e ↦ rw e (omega arith)
    | inr (u, e) ↦
        let c = split_in_session-some uuid tab_id p d q host drawn o u e in
        rw (e, c.after, tab_panes-some o c.before c.layout)
          (omega (arith, occurs-split_leaf uuid drawn c.before p d q c.new_host x))
  ]

  -- Splitting a pane adds the new pane once for each time the split one occurs, and no other.
  pub occurs-split_in_sessions :
      (drawn : ℕ) (x : String) (os : List (OpenSession W))
      → occurs x (all_panes (split_in_sessions uuid tab_id p d q host drawn os).0)
        ≤ occurs x (all_panes os) + occurs p (all_panes os) * hit q x
  unfolding split_in_sessions
  occurs-split_in_sessions drawn x [] = omega arith
  occurs-split_in_sessions drawn x (o ∷ os) =
      let next = split_in_session uuid tab_id p d q host drawn o in
      let tab = with_layout o next.0 in
      rw
        (
          occurs-append x (tab_panes tab)
              (all_panes (split_in_sessions uuid tab_id p d q host next.1 os).0),
          occurs-append x (tab_panes o) (all_panes os),
          occurs-append p (tab_panes o) (all_panes os),
        )
        (omega (arith, split_tab-le drawn x o, occurs-split_in_sessions next.1 x os))

  module _ (ord : IsOrdered W) where
    split_tab-Shaped :
        (drawn : ℕ) (o : OpenSession W)
        → occurs p (tab_panes o) ≤ 1
        → Shaped o
        → Shaped (with_layout o (split_in_session uuid tab_id p d q host drawn o).0)
    unfolding with_layout
    split_tab-Shaped drawn o once h =
        elim (Option-cases (split_in_session uuid tab_id p d q host drawn o).0) [
          | inl e ↦ rw e h
          | inr (u, e) ↦
              let c = split_in_session-some uuid tab_id p d q host drawn o u e in
              let (few, bounded) = shape_of o.kind o.layout c.before c.layout h in
              let once' : occurs p (pane_ids c.before) ≤ 1 =
                subst (λ ids. occurs p ids ≤ 1) (tab_panes-some o c.before c.layout) once in
              rw (e, c.after)
                (shaped_terminal o.kind _ c.kind (
                  omega
                      (arith, c.room, count_leaves-split_leaf uuid drawn c.before p d q c.new_host),
                  split_leaf-InBounds ord uuid drawn c.before p d q c.new_host bounded,
                ))
        ]

    pub split_in_sessions-Shaped :
        (drawn : ℕ) (os : List (OpenSession W))
        → occurs p (all_panes os) ≤ 1
        → All Shaped os
        → All Shaped (split_in_sessions uuid tab_id p d q host drawn os).0
    unfolding split_in_sessions
    split_in_sessions-Shaped drawn [] once h = tt
    split_in_sessions-Shaped drawn (o ∷ os) once (h, hs) =
        let sum = occurs-append p (tab_panes o) (all_panes os) in
        (
          split_tab-Shaped drawn o (omega (arith, sum)) h,
          split_in_sessions-Shaped (split_in_session uuid tab_id p d q host drawn o).1 os
              (omega (arith, sum)) hs,
        )
