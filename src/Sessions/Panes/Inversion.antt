-- ===== src/Sessions/Panes/Inversion.antt =====
-- What a round of `closePane` or `splitPane` has found when it changes a tab.
use connect_hub.Base.{
  ℕ, ◌<◌, ◌≡◌, refl, String, true, Option, some, arith, ◌==◌, is_some, get_or_else, leb, Bool-cases,
  Option-cases, inl, inr,
}
use connect_hub.Number.{Number}
use connect_hub.Bridge.{Host}
use connect_hub.PaneTree.{
  Direction, PaneNode, leaf, split, count_leaves, find_leaf, remove_leaf, split_leaf,
}
use connect_hub.Sessions.{SessionKind, terminal, sftp, OpenSession, max_panes, is_terminal}
use connect_hub.Sessions.Panes.{close_leaf, close_in_session, split_layout, split_in_session}

kind_terminal : (k : SessionKind) → is_terminal k ≡ true → k ≡ terminal
kind_terminal terminal h = refl
kind_terminal sftp h = cc

module _ {W : Type 0} where
  -- The tab is the one meant, has a split layout with the pane in it, and gets that layout without
  -- the pane.
  pub record Closed (tab_id p : String) (o : OpenSession W) (u : PaneNode W) : Type 0 where
    pub before : PaneNode W
    pub tab : (o.tab_id == tab_id) ≡ true
    pub kind : o.kind ≡ terminal
    pub layout : o.layout ≡ some before
    pub found : is_some (find_leaf before p) ≡ true
    pub removed : remove_leaf before p ≡ some u

  close_leaf-some :
      (t u : PaneNode W) (p : String)
      → close_leaf t p ≡ some u
      → (is_some (find_leaf t p) ≡ true) × (remove_leaf t p ≡ some u)
  unfolding close_leaf
  close_leaf-some (leaf l) u p e = absurd (ground arith)
  close_leaf-some (split s d r a b) u p e = ground arith

  pub close_in_session-some :
      (tab_id p : String) (o : OpenSession W) (u : PaneNode W)
      → close_in_session tab_id p o ≡ some u
      → Closed tab_id p o u
  unfolding close_in_session
  close_in_session-some tab_id p o u e = elim (Bool-cases (o.tab_id == tab_id)) [
    | inr other ↦ absurd (ground arith)
    | inl same ↦ elim (Bool-cases (is_terminal o.kind)) [
      | inr other ↦ absurd (ground arith)
      | inl term ↦ elim (Option-cases o.layout) [
        | inl missing ↦ absurd (ground arith)
        | inr (t, there) ↦
            let (found, removed) = close_leaf-some t u p (ground arith) in
            record {
              before = t;
              tab = same;
              kind = kind_terminal o.kind term;
              layout = there;
              found = found;
              removed = removed;
            }
      ]
    ]
  ]

module _ {W : Type 0} ⦃num : Number W⦄ (uuid : ℕ → String) where
  pub record WasSplit (tab_id p : String) (d : Direction) (q : String) (drawn : ℕ)
      (o : OpenSession W) (u : PaneNode W) : Type 0 where
    pub before : PaneNode W
    pub new_host : Host
    pub tab : (o.tab_id == tab_id) ≡ true
    pub kind : o.kind ≡ terminal
    pub layout : o.layout ≡ some before
    pub room : count_leaves before < max_panes
    pub found : is_some (find_leaf before p) ≡ true
    pub after : u ≡ (split_leaf uuid drawn before p d q new_host).0

  pub split_in_session-some :
      (tab_id p : String) (d : Direction) (q : String) (host : Option Host) (drawn : ℕ)
      (o : OpenSession W) (u : PaneNode W)
      → (split_in_session uuid tab_id p d q host drawn o).0 ≡ some u
      → WasSplit tab_id p d q drawn o u
  unfolding split_in_session split_layout
  split_in_session-some tab_id p d q host drawn o u e = elim (Bool-cases (o.tab_id == tab_id)) [
    | inr other ↦ absurd (ground arith)
    | inl same ↦ elim (Bool-cases (is_terminal o.kind)) [
      | inr other ↦ absurd (ground arith)
      | inl term ↦ elim (Option-cases o.layout) [
        | inl missing ↦ absurd (ground arith)
        | inr (t, there) ↦ elim (Bool-cases (leb max_panes (count_leaves t))) [
          | inl full ↦ absurd (ground arith)
          | inr room ↦ elim (Option-cases (find_leaf t p)) [
            | inl missed ↦ absurd (ground arith)
            | inr (l, found) ↦ record {
              before = t;
              new_host = get_or_else host l.host;
              tab = same;
              kind = kind_terminal o.kind term;
              layout = there;
              room = ground arith;
              found = ground arith;
              after = ground arith;
            }
          ]
        ]
      ]
    ]
  ]
