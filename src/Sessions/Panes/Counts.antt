-- ===== src/Sessions/Panes/Counts.antt =====
-- How closing and splitting panes change the tabs: their identifiers, how often a pane occurs, and
-- the shape of their layouts.
use connect_hub.Base.{
  ◌≤◌, ◌≡◌, refl, subst, String, List, [], ◌∷◌, Option, none, some, arith, occurs, occurs-append,
  Option-cases, inl, inr, All,
}
use connect_hub.Number.{Number}
use connect_hub.PaneTree.{PaneNode, count_leaves}
use connect_hub.PaneTree.Leaves.{pane_ids}
use connect_hub.PaneTree.Closing.{occurs-remove_leaf, count_leaves-remove_leaf}
use connect_hub.PaneTree.Resizing.{InBounds, remove_leaf-some-InBounds}
use connect_hub.Sessions.{SessionKind, terminal, sftp, OpenSession, max_panes}
use connect_hub.Sessions.Invariant.{tab_panes, all_panes, tab_ids, ShapedAs, Shaped}
use connect_hub.Sessions.Panes.{close_in_session, with_layout, close_in_sessions}
use connect_hub.Sessions.Panes.Inversion.{close_in_session-some}

module _ {W : Type 0} where
  pub tab_id-with_layout :
      (o : OpenSession W) (next : Option (PaneNode W)) → (with_layout o next).tab_id ≡ o.tab_id
  unfolding with_layout
  tab_id-with_layout o none = refl
  tab_id-with_layout o (some t) = refl

  pub tab_ids-close_in_sessions :
      (tab_id p : String) (os : List (OpenSession W))
      → tab_ids (close_in_sessions tab_id p os).0 ≡ tab_ids os
  unfolding close_in_sessions
  tab_ids-close_in_sessions tab_id p [] = refl
  tab_ids-close_in_sessions tab_id p (o ∷ os) =
      rw (tab_id-with_layout o (close_in_session tab_id p o), tab_ids-close_in_sessions tab_id p os)

  pub tab_panes-some :
      (o : OpenSession W) (t : PaneNode W) → o.layout ≡ some t → tab_panes o ≡ pane_ids t
  tab_panes-some o t e = rw e

  close_tab-le :
      (tab_id p x : String) (o : OpenSession W)
      → occurs x (tab_panes (with_layout o (close_in_session tab_id p o))) ≤ occurs x (tab_panes o)
  unfolding with_layout
  close_tab-le tab_id p x o = elim (Option-cases (close_in_session tab_id p o)) [
    | inl e ↦ rw e (omega arith)
    | inr (u, e) ↦
        let c = close_in_session-some tab_id p o u e in
        rw (e, tab_panes-some o c.before c.layout)
          (omega (arith, occurs-remove_leaf c.before u p x c.found c.removed))
  ]

  -- Closing a pane makes no pane occur more often.
  pub occurs-close_in_sessions :
      (tab_id p x : String) (os : List (OpenSession W))
      → occurs x (all_panes (close_in_sessions tab_id p os).0) ≤ occurs x (all_panes os)
  unfolding close_in_sessions
  occurs-close_in_sessions tab_id p x [] = omega arith
  occurs-close_in_sessions tab_id p x (o ∷ os) =
      let next = with_layout o (close_in_session tab_id p o) in
      omega (
        arith,
        occurs-append x (tab_panes o) (all_panes os),
        occurs-append x (tab_panes next) (all_panes (close_in_sessions tab_id p os).0),
        close_tab-le tab_id p x o,
        occurs-close_in_sessions tab_id p x os,
      )

module _ {W : Type 0} ⦃num : Number W⦄ where
  pub shape_of :
      (k : SessionKind) (l : Option (PaneNode W)) (t : PaneNode W)
      → l ≡ some t
      → ShapedAs k l
      → (count_leaves t ≤ max_panes) × InBounds t
  shape_of k none t e s = absurd (ground arith)
  shape_of terminal (some u) t e s = subst (λ v. ShapedAs terminal v) e s
  shape_of sftp (some u) t e s = absurd s

  pub kind_of_layout :
      (k : SessionKind) (l : Option (PaneNode W)) (t : PaneNode W)
      → l ≡ some t
      → ShapedAs k l
      → k ≡ terminal
  kind_of_layout terminal l t e s = refl
  kind_of_layout sftp none t e s = absurd (ground arith)
  kind_of_layout sftp (some u) t e s = absurd s

  pub shaped_terminal :
      (k : SessionKind) (t : PaneNode W)
      → k ≡ terminal
      → (count_leaves t ≤ max_panes) × InBounds t
      → ShapedAs k (some t)
  shaped_terminal k t e s = rw e s

  close_tab-Shaped :
      (tab_id p : String) (o : OpenSession W)
      → Shaped o
      → Shaped (with_layout o (close_in_session tab_id p o))
  unfolding with_layout
  close_tab-Shaped tab_id p o h = elim (Option-cases (close_in_session tab_id p o)) [
    | inl e ↦ rw e h
    | inr (u, e) ↦
        let c = close_in_session-some tab_id p o u e in
        let (few, bounded) = shape_of o.kind o.layout c.before c.layout h in
        rw e (
          shaped_terminal o.kind u c.kind (
            omega (arith, count_leaves-remove_leaf c.before u p c.found c.removed),
            remove_leaf-some-InBounds c.before u p c.removed bounded,
          ))
  ]

  pub close_in_sessions-Shaped :
      (tab_id p : String) (os : List (OpenSession W))
      → All Shaped os
      → All Shaped (close_in_sessions tab_id p os).0
  unfolding close_in_sessions
  close_in_sessions-Shaped tab_id p [] h = tt
  close_in_sessions-Shaped tab_id p (o ∷ os) (h, hs) =
      (close_tab-Shaped tab_id p o h, close_in_sessions-Shaped tab_id p os hs)
