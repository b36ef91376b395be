-- ===== src/Sessions/Reach.antt =====
-- The states that the session actions reach, in any order, from the empty store.
use connect_hub.Base.{ℕ, ◌≤◌, ◌≡◌, refl, subst, String, Option, some, arith, All, ℤ}
use connect_hub.Uuid.{IsUuid, DrawnIn}
use connect_hub.Number.{Number, IsOrdered, ◌≼◌}
use connect_hub.Bridge.{Host}
use connect_hub.PaneTree.{Direction, PaneNode, count_leaves}
use connect_hub.PaneTree.Resizing.{InBounds}
use connect_hub.PaneTree.Saved.{SerializedPaneNode, deserialize_layout}
use connect_hub.PaneTree.Saved.Fresh.{ids_of, ids_of-deserialize_layout, drawn-deserialize_layout}
use connect_hub.Sessions.{
  SessionKind, SessionStatus, SessionsState, initial, max_panes, open_session, close_session,
  set_status, set_session_id, toggle_broadcast,
}
use connect_hub.Sessions.Panes.{split_pane, close_pane, set_layout, resize_pane_split}
use connect_hub.Sessions.Reorder.{reorder_sessions}
use connect_hub.Sessions.Invariant.{Inv}
use connect_hub.Sessions.Invariant.Tabs.{
  Inv-fewer, close_session-Inv, reorder_sessions-Inv, toggle_broadcast-Inv, open_session-Inv,
}
use connect_hub.Sessions.Invariant.Layouts.{close_pane-Inv, split_pane-Inv, resize_pane_split-Inv}
use connect_hub.Sessions.Invariant.Restoring.{IsTerminalTab, set_layout-Inv}

module _ {W : Type 0} ⦃num : Number W⦄ (uuid : ℕ → String) where
  -- One action of the store, with what is assumed of its callers: a divider is dragged to a number,
  -- and a layout is set on a terminal tab, freshly restored from a saved one of at most nine panes.
  -- `handleOpenWorkspace` awaits the gates of the panes' hosts between restoring a layout and setting
  -- it, and does not count its panes.
  pub data Step (s : SessionsState W) : SessionsState W → Type 0 where
    opened : (host : Host) (k : SessionKind) → Step s (open_session uuid s host k).0
    closed : (tab_id : String) → Step s (close_session s tab_id)
    dragged : (i j : ℤ) → Step s (reorder_sessions s i j)
    reported : (p : String) (status : SessionStatus) → Step s (set_status s p status)
    connected : (p session_id : String) → Step s (set_session_id s p session_id)
    toggled : (tab_id : String) → Step s (toggle_broadcast s tab_id)
    divided :
        (tab_id p : String) (d : Direction) (host : Option Host)
        → Step s (split_pane uuid s tab_id p d host).0
    closed_one : (tab_id p : String) → Step s (close_pane s tab_id p)
    resized :
        (tab_id split_id : String) (ratio : W)
        → ratio ≼ ratio
        → Step s (resize_pane_split s tab_id split_id ratio)
    restored :
        (tab_id : String) (m : String → Option Host) (raw : SerializedPaneNode W) (t : PaneNode W)
        → (deserialize_layout uuid m s.drawn raw).0 ≡ some t
        → All (IsTerminalTab tab_id t) s.open_sessions
        → count_leaves t ≤ max_panes
        → InBounds t
        → Step s
            (record (set_layout s tab_id t) { drawn = (deserialize_layout uuid m s.drawn raw).1 })

  pub data Reach : SessionsState W → Type 0 where
    start : Reach initial
    next : {s t : SessionsState W} → Reach s → Step s t → Reach t

  initial-Inv : Inv {W = W} uuid initial
  initial-Inv = record {
    tabs_distinct = λ x. omega arith;
    panes_distinct = λ x. omega arith;
    tabs_drawn = λ k h. refl;
    panes_drawn = λ k h. refl;
    shaped = tt;
  }

  module _ (u : IsUuid uuid) (ord : IsOrdered W) where
    -- Every action keeps the invariant.
    pub Step-Inv : {s t : SessionsState W} → Step s t → Inv uuid s → Inv uuid t
    unfolding set_status set_session_id
    Step-Inv {s} (opened host k) v = open_session-Inv u s host k v
    Step-Inv {s} (closed tab_id) v = close_session-Inv s tab_id v
    Step-Inv {s} (dragged i j) v = reorder_sessions-Inv s i j v
    Step-Inv {s} (reported p status) v =
        Inv-fewer s _ v (omega arith) (λ x. omega arith) (λ x. omega arith) v.shaped
    Step-Inv {s} (connected p session_id) v =
        Inv-fewer s _ v (omega arith) (λ x. omega arith) (λ x. omega arith) v.shaped
    Step-Inv {s} (toggled tab_id) v = toggle_broadcast-Inv s tab_id v
    Step-Inv {s} (divided tab_id p d host) v = split_pane-Inv u ord s tab_id p d host v
    Step-Inv {s} (closed_one tab_id p) v = close_pane-Inv s tab_id p v
    Step-Inv {s} (resized tab_id split_id ratio n) v =
        resize_pane_split-Inv ord s tab_id split_id ratio n v
    Step-Inv {s} (restored tab_id m raw t e kinds few bounded) v =
        set_layout-Inv u s tab_id t _ (drawn-deserialize_layout uuid m s.drawn raw)
          (subst (λ o. DrawnIn uuid s.drawn (deserialize_layout uuid m s.drawn raw).1 (ids_of o)) e
            (ids_of-deserialize_layout uuid u m s.drawn raw))
          kinds few bounded v

    -- Let no identifier be drawn twice and none be empty, let the numbers be ordered as
    -- documented, let a divider be dragged to a number, NaN excluded, and a layout be set
    -- on a terminal tab, just restored from a saved one, with at most nine panes and ratios
    -- within their bounds. In every state that the store's actions reach, in any order,
    -- from the empty store: no two tabs and no two panes share an identifier, no identifier
    -- in use is drawn again, every terminal tab has a layout of at most nine panes, with
    -- each divider's ratio within its bounds, and no SFTP tab has a layout.
    pub Reach-Inv : {s : SessionsState W} → Reach s → Inv uuid s
    Reach-Inv start = initial-Inv
    Reach-Inv (next r st) = Step-Inv st (Reach-Inv r)
