-- ===== src/Sessions/Panes.antt =====
-- src/state/sessionsStore.ts: the actions on the panes of one tab.
pub mod Inversion
pub mod Counts
pub mod SplitCounts
pub mod Undo
use connect_hub.Base.{
  ℕ, zero, suc, ◌+◌, ◌-◌, String, Bool, true, false, not, ◌&&◌, ◌||◌, List, [], ◌∷◌, ◌++◌, map,
  Option, none, some, ◌==◌, if◌then◌else◌, is_some, get_or_else, maybe, find, filter, head?, length,
  leb, ltb, eqb, min, max, is_truthy, get_elem?, take, drop, Dict, insert, delete, delete_all,
  empty, ℤ, pos, negsuc,
}
use connect_hub.Number.{Number}
use connect_hub.Bridge.{Host}
use connect_hub.PaneTree.{
  Direction, PaneLeaf, PaneNode, leaf, split, count_leaves, find_leaf, collect_leaves, remove_leaf,
  resize_split, split_leaf,
}
use connect_hub.Sessions.{
  SessionKind, terminal, sftp, OpenSession, SessionsState, max_panes, is_terminal,
}

module _ {W : Type 0} where
  -- One round of the `map` of `closePane`, and whether it removed the pane.
  pub close_leaf : PaneNode W → String → Option (PaneNode W)
  close_leaf (leaf l) pane_id = none
  close_leaf (split d e r a b) pane_id =
      if is_some (find_leaf (split d e r a b) pane_id)
      then remove_leaf (split d e r a b) pane_id
      else none

  pub close_in_session : String → String → OpenSession W → Option (PaneNode W)
  unfolding close_leaf
  close_in_session tab_id pane_id o =
      if (o.tab_id == tab_id) && is_terminal o.kind
      then maybe none (λ t. close_leaf t pane_id) o.layout
      else none

  unfoldable pub with_layout : OpenSession W → Option (PaneNode W) → OpenSession W
  with_layout o none = o
  with_layout o (some next) = record o { layout = some next }

  pub close_in_sessions : String → String → List (OpenSession W) → List (OpenSession W) × Bool
  unfolding close_in_session with_layout
  close_in_sessions tab_id pane_id [] = ([], false)
  close_in_sessions tab_id pane_id (o ∷ os) =
      let rest = close_in_sessions tab_id pane_id os in
      let next = close_in_session tab_id pane_id o in
      (with_layout o next ∷ rest.0, is_some next || rest.1)

  unfoldable pub close_pane : SessionsState W → String → String → SessionsState W
  unfolding close_in_sessions
  close_pane s tab_id pane_id =
      let (open_sessions, removed) = close_in_sessions tab_id pane_id s.open_sessions in
      if removed
      then record s {
        open_sessions = open_sessions;
        statuses = delete pane_id s.statuses;
        session_ids = delete pane_id s.session_ids;
      }
      else s

  unfoldable pub set_layout : SessionsState W → String → PaneNode W → SessionsState W
  set_layout s tab_id layout = record s {
    open_sessions =
        map (λ o. if o.tab_id == tab_id then record o { layout = some layout } else o)
          s.open_sessions;
  }

module _ {W : Type 0} ⦃num : Number W⦄ where
  unfoldable pub resize_pane_split : SessionsState W → String → String → W → SessionsState W
  unfolding with_layout
  resize_pane_split s tab_id split_id ratio = record s {
    open_sessions =
        map
          (λ o.
            if o.tab_id == tab_id
            then with_layout o (maybe none (λ t. some (resize_split t split_id ratio)) o.layout)
            else o)
          s.open_sessions;
  }

module _ {W : Type 0} ⦃num : Number W⦄ (uuid : ℕ → String) where
  -- The layout that splits the pane, if the tab has it and has room for one more, and the number
  -- drawn.
  pub split_layout :
      PaneNode W → String → Direction → String → Option Host → ℕ → Option (PaneNode W) × ℕ
  split_layout t pane_id direction new_pane_id host drawn =
      if leb max_panes (count_leaves t)
      then (none, drawn)
      else maybe (none, drawn)
          (λ (l : PaneLeaf).
            let next =
              split_leaf uuid drawn t pane_id direction new_pane_id (get_or_else host l.host) in
            (some next.0, next.1))
          (find_leaf t pane_id)

  -- One round of the `map` of `splitPane`; a layout is there if this round created the pane.
  pub split_in_session :
      String
      → String
      → Direction
      → String
      → Option Host
      → ℕ
      → OpenSession W
      → Option (PaneNode W) × ℕ
  unfolding split_layout
  split_in_session tab_id pane_id direction new_pane_id host drawn o =
      if (o.tab_id == tab_id) && is_terminal o.kind
      then maybe (none, drawn) (λ t. split_layout t pane_id direction new_pane_id host drawn)
          o.layout
      else (none, drawn)

  pub split_in_sessions :
      String
      → String
      → Direction
      → String
      → Option Host
      → ℕ
      → List (OpenSession W)
      → List (OpenSession W) × ℕ × Bool
  unfolding split_in_session with_layout
  split_in_sessions tab_id pane_id direction new_pane_id host drawn [] = ([], drawn, false)
  split_in_sessions tab_id pane_id direction new_pane_id host drawn (o ∷ os) =
      let next = split_in_session tab_id pane_id direction new_pane_id host drawn o in
      let rest = split_in_sessions tab_id pane_id direction new_pane_id host next.1 os in
      (with_layout o next.0 ∷ rest.0, rest.1, is_some next.0 || rest.2)

  unfoldable pub split_pane :
      SessionsState W → String → String → Direction → Option Host → SessionsState W × Option String
  unfolding split_in_sessions
  split_pane s tab_id pane_id direction host =
      let new_pane_id = uuid s.drawn in
      let (open_sessions, drawn, created) =
        split_in_sessions tab_id pane_id direction new_pane_id host (suc s.drawn) s.open_sessions in
      (
        record s { open_sessions = open_sessions; drawn = drawn },
        if created then some new_pane_id else none,
      )
