-- ===== src/Sessions/Invariant.antt =====
-- What holds of the open tabs between two actions.
pub mod Lists
pub mod Tabs
pub mod Layouts
pub mod Restoring
use connect_hub.Base.{
  ℕ, ◌≤◌, ◌≡◌, String, List, [], ◌∷◌, ◌++◌, map, Option, none, some, maybe, occurs, Distinct, All,
}
use connect_hub.Number.{Number}
use connect_hub.PaneTree.{PaneNode, count_leaves}
use connect_hub.PaneTree.Leaves.{pane_ids}
use connect_hub.PaneTree.Resizing.{InBounds}
use connect_hub.Sessions.{SessionKind, terminal, sftp, OpenSession, SessionsState, max_panes}

module _ {W : Type 0} where
  abbrev pub tab_panes : OpenSession W → List String
  tab_panes o = maybe [] pane_ids o.layout

  -- The panes of all tabs.
  abbrev pub all_panes : List (OpenSession W) → List String
  all_panes [] = []
  all_panes (o ∷ os) = tab_panes o ++ all_panes os

  abbrev pub tab_ids : List (OpenSession W) → List String
  tab_ids os = map (λ (o : OpenSession W). o.tab_id) os

module _ {W : Type 0} ⦃num : Number W⦄ where
  -- A terminal tab has a layout, with ratios in bounds and at most nine panes; an SFTP tab has none.
  abbrev pub ShapedAs : SessionKind → Option (PaneNode W) → Type 0
  ShapedAs terminal (some t) = (count_leaves t ≤ max_panes) × InBounds t
  ShapedAs terminal none = ⊥
  ShapedAs sftp (some t) = ⊥
  ShapedAs sftp none = Unit {0}

  abbrev pub Shaped : OpenSession W → Type 0
  Shaped o = ShapedAs o.kind o.layout

  pub record Inv (uuid : ℕ → String) (s : SessionsState W) : Type 0 where
    pub tabs_distinct : Distinct (tab_ids s.open_sessions)
    pub panes_distinct : Distinct (all_panes s.open_sessions)
    pub tabs_drawn : (k : ℕ) → s.drawn ≤ k → occurs (uuid k) (tab_ids s.open_sessions) ≡ 0
    pub panes_drawn : (k : ℕ) → s.drawn ≤ k → occurs (uuid k) (all_panes s.open_sessions) ≡ 0
    pub shaped : All Shaped s.open_sessions
