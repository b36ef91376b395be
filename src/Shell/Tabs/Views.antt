-- ===== src/Shell/Tabs/Views.antt =====
-- src/pages/AppShell.tsx: the states that the handlers of tabs and panes reach, in any order and with
-- any answers of the VPN's gate in between.
use connect_hub.Base.{ℕ, ℤ, ◌≤◌, ◌≡◌, String, Bool, Option, some, arith, get_elem?, All}
use connect_hub.Number.{Number, ◌≼◌}
use connect_hub.Bridge.{Host}
use connect_hub.PaneTree.{Direction, PaneNode, count_leaves}
use connect_hub.PaneTree.Resizing.{InBounds}
use connect_hub.PaneTree.Saved.{SerializedPaneNode, deserialize_layout}
use connect_hub.Assistant.Actions.{VpnGateResult}
use connect_hub.Sessions
use connect_hub.Sessions.{
  SessionKind, SessionStatus, OpenSession, SessionsState, max_panes, set_status, set_session_id,
  toggle_broadcast, open_session, close_session, first_layout,
}
use connect_hub.Sessions.Panes.{set_layout, resize_pane_split}
use connect_hub.Sessions.Reorder.{reorder_sessions}
use connect_hub.Sessions.Invariant.Restoring.{IsTerminalTab}
use connect_hub.Sessions.Reach
use connect_hub.Sessions.Reach.{Reach}
use connect_hub.Shell.{ManageTab, MainView, Shell}
use connect_hub.Shell.Tabs.{
  begin_gate, handle_connect, handle_close_tab, handle_close_pane, handle_split_pane, after_gate,
  after_split_gate, cycle_tab,
}
use connect_hub.Shell.Tabs.Shown.{
  ShowsOpen-grows, FoundOpen-some, get_elem?-FoundOpen, keeps_tabs, occurs-reorder_sessions,
  tab_ids-set_layout, tab_ids-toggle_broadcast, tab_ids-resize_pane_split,
}
use connect_hub.Shell.Tabs.Handlers.{
  Kept, begin_gate-Kept, handle_connect-Kept, after_gate-Kept, handle_split_pane-Kept,
  after_split_gate-Kept, handle_close_tab-Kept, handle_close_pane-Kept, cycle_tab-Kept,
}

module _ {W : Type 0} ⦃num : Number W⦄ (uuid : ℕ → String) where
  -- A call of a handler, the gate's answer to one, or a click. A layout is set as the store's own
  -- action sets it.
  pub data Step (s : Shell W) : Shell W → Type 0 where
    asked_terminal : (host : Host) → Step s (handle_connect s host).0
    asked_files : (host : Host) → Step s (begin_gate s host)
    answered :
        (host : Host) (kind : SessionKind) (r : VpnGateResult)
        → Step s (after_gate uuid s host kind r)
    asked_split :
        (tab_id p : String) (host : Option Host) → Step s (handle_split_pane s tab_id p host).0
    answered_split :
        (tab_id p : String) (d : Direction) (host : Option Host) (target : Host) (r : VpnGateResult)
        → Step s (after_split_gate uuid s tab_id p d host target r).0
    closed : (tab_id : String) → Step s (handle_close_tab s tab_id).0
    closed_pane : (tab_id p : String) → Step s (handle_close_pane s tab_id p).0
    cycled : (shift : Bool) → Step s (cycle_tab s shift)
    managed : (tab : ManageTab) → Step s (record s { main_view = MainView.manage tab })
    picked :
        (i : ℕ) (o : OpenSession W)
        → get_elem? s.sessions.open_sessions i ≡ some o
        → Step s (record s { main_view = MainView.session o.tab_id })
    dragged : (i j : ℤ) → Step s (record s { sessions = reorder_sessions s.sessions i j })
    reported :
        (p : String) (status : SessionStatus)
        → Step s (record s { sessions = set_status s.sessions p status })
    connected :
        (p session_id : String)
        → Step s (record s { sessions = set_session_id s.sessions p session_id })
    toggled :
        (tab_id : String) → Step s (record s { sessions = toggle_broadcast s.sessions tab_id })
    resized :
        (tab_id split_id : String) (ratio : W)
        → ratio ≼ ratio
        → Step s (record s { sessions = resize_pane_split s.sessions tab_id split_id ratio })
    restored :
        (tab_id : String) (m : String → Option Host) (raw : SerializedPaneNode W) (t : PaneNode W)
        → (deserialize_layout uuid m s.sessions.drawn raw).0 ≡ some t
        → All (IsTerminalTab tab_id t) s.sessions.open_sessions
        → count_leaves t ≤ max_panes
        → InBounds t
        → Step s (record s {
          sessions = record (set_layout s.sessions tab_id t) {
            drawn = (deserialize_layout uuid m s.sessions.drawn raw).1;
          };
        })

  pub data Reached : Shell W → Type 0 where
    start :
        (s : Shell W) (tab : ManageTab)
        → s.sessions ≡ Sessions.initial
        → s.main_view ≡ MainView.manage tab
        → Reached s
    next : {s t : Shell W} → Reached s → Step s t → Reached t

module _ {W : Type 0} ⦃num : Number W⦄ (uuid : ℕ → String) where
  Step-Kept : {s t : Shell W} → Step uuid s t → Kept uuid s → Kept uuid t
  unfolding set_status set_session_id set_layout
  Step-Kept {s} (asked_terminal host) k = handle_connect-Kept uuid s host k
  Step-Kept {s} (asked_files host) k = begin_gate-Kept uuid s host k
  Step-Kept {s} (answered host kind r) k = after_gate-Kept uuid s host kind r k
  Step-Kept {s} (asked_split tab_id p host) k = handle_split_pane-Kept uuid s tab_id p host k
  Step-Kept {s} (answered_split tab_id p d host target r) k =
      after_split_gate-Kept uuid s tab_id p d host target r k
  Step-Kept {s} (closed tab_id) k = handle_close_tab-Kept uuid s tab_id k
  Step-Kept {s} (closed_pane tab_id p) k = handle_close_pane-Kept uuid s tab_id p k
  Step-Kept {s} (cycled shift) k = cycle_tab-Kept uuid s shift k
  Step-Kept {s} (managed tab) k = record { shows = tt; reached = k.reached }
  Step-Kept {s} (picked i o e) k = record {
    shows =
        FoundOpen-some s.sessions.open_sessions (get_elem?-FoundOpen s.sessions.open_sessions i) e;
    reached = k.reached;
  }
  Step-Kept {s} (dragged i j) k = record {
    shows =
        ShowsOpen-grows s.main_view _ _
          (λ x. omega (arith, occurs-reorder_sessions s.sessions i j x)) k.shows;
    reached = Reach.next k.reached (Reach.dragged i j);
  }
  Step-Kept {s} (reported p status) k = record {
    shows = k.shows;
    reached = Reach.next k.reached (Reach.reported p status);
  }
  Step-Kept {s} (connected p session_id) k = record {
    shows = k.shows;
    reached = Reach.next k.reached (Reach.connected p session_id);
  }
  Step-Kept {s} (toggled tab_id) k = record {
    shows = keeps_tabs s.main_view _ _ (tab_ids-toggle_broadcast tab_id s.sessions) k.shows;
    reached = Reach.next k.reached (Reach.toggled tab_id);
  }
  Step-Kept {s} (resized tab_id split_id ratio n) k = record {
    shows =
        keeps_tabs s.main_view _ _ (tab_ids-resize_pane_split tab_id split_id ratio s.sessions)
          k.shows;
    reached = Reach.next k.reached (Reach.resized tab_id split_id ratio n);
  }
  Step-Kept {s} (restored tab_id m raw t e kinds few bounded) k = record {
    shows = keeps_tabs s.main_view _ _ (tab_ids-set_layout tab_id t s.sessions) k.shows;
    reached = Reach.next k.reached (Reach.restored tab_id m raw t e kinds few bounded);
  }

  -- Start without tabs on a page of the sidebar, and let the handlers of tabs and panes run,
  -- the gate answer what it will, tabs be clicked and dragged, panes report, dividers be
  -- dragged to a number and layouts be restored on terminal tabs, freshly from a saved one of
  -- at most nine panes with ratios in bounds, all in any order. Then the view shows a page or
  -- a tab that is open, and the sessions are ones that the store's own actions reach from the
  -- empty store.
  pub Reached-Kept : {s : Shell W} → Reached uuid s → Kept uuid s
  Reached-Kept (start s tab fresh manages) = record {
    shows = rw manages tt;
    reached = rw fresh Reach.start;
  }
  Reached-Kept (next r st) = Step-Kept st (Reached-Kept r)
