-- ===== src/Shell/Tabs/Handlers.antt =====
-- src/pages/AppShell.tsx: the view and the sessions after one handler of tabs and panes.
use connect_hub.Base.{
  ℕ, ◌⊎◌, is_truthy, hit_self, Option-cases, String, Bool, Option, arith, Bool-cases, inl, inr,
}
use connect_hub.Number.{Number}
use connect_hub.Bridge.{Host}
use connect_hub.PaneTree.{Direction}
use connect_hub.Assistant.Actions.{VpnGateResult}
use connect_hub.Sessions.{SessionKind, open_session, close_session}
use connect_hub.Sessions.Invariant.Lists.{tab_ids-append}
use connect_hub.Sessions.Reach
use connect_hub.Sessions.Reach.{Reach}
use connect_hub.Shell.{Shell}
use connect_hub.Shell.Tabs.{
  begin_gate, end_gate, show_gate, show_tab, terminal_of, handle_connect, handle_close_tab,
  handle_close_pane, handle_split_pane, target_asked, split_target, split_shown, is_last_pane,
  next_tab, open_tab, after_gate, after_split_gate, cycle_tab,
}
use connect_hub.Shell.Tabs.Shown.{
  ShowsOpen, FoundOpen-some, find-FoundOpen, get_elem?-FoundOpen, view_left-ShowsOpen, keeps_tabs,
  tab_ids-close_pane, tab_ids-split_pane,
}

module _ {W : Type 0} ⦃num : Number W⦄ (uuid : ℕ → String) where
  -- The view shows an open tab, and the store's own actions reach the sessions.
  pub record Kept (s : Shell W) : Type 0 where
    pub shows : ShowsOpen s.main_view s.sessions.open_sessions
    pub reached : Reach uuid s.sessions

  -- The gate's flags change neither.
  pub begin_gate-Kept : (s : Shell W) (host : Host) → Kept s → Kept (begin_gate s host)
  unfolding begin_gate
  begin_gate-Kept s host k = elim (Bool-cases (is_truthy host.vpn_profile_id)) [
    | inl gated ↦ rw gated (record { shows = k.shows; reached = k.reached })
    | inr free ↦ rw free k
  ]

  pub end_gate-Kept :
      (s : Shell W) (host : Host) (r : VpnGateResult) → Kept s → Kept (end_gate s host r).0
  unfolding end_gate show_gate
  end_gate-Kept s host r k = elim (Bool-cases (is_truthy host.vpn_profile_id)) [
    | inl gated ↦ rw gated (record { shows = k.shows; reached = k.reached })
    | inr free ↦ rw free k
  ]

  pub handle_connect-Kept : (s : Shell W) (host : Host) → Kept s → Kept (handle_connect s host).0
  unfolding handle_connect terminal_of show_tab
  handle_connect-Kept s host k = elim (Option-cases (terminal_of s.sessions.open_sessions host)) [
    | inl e ↦ rw e (begin_gate-Kept s host k)
    | inr (o, e) ↦ rw e (record {
      shows = FoundOpen-some s.sessions.open_sessions (find-FoundOpen _ s.sessions.open_sessions) e;
      reached = k.reached;
    })
  ]

  pub open_tab-Kept :
      (s : Shell W) (host : Host) (kind : SessionKind) → Kept s → Kept (open_tab uuid s host kind)
  unfolding open_tab show_tab open_session
  open_tab-Kept s host kind k = record {
    shows = omega (
      arith,
      tab_ids-append s.sessions.open_sessions _ (uuid s.sessions.drawn),
      hit_self (uuid s.sessions.drawn),
    );
    reached = Reach.next k.reached (Reach.opened host kind);
  }

  pub after_gate-Kept :
      (s : Shell W) (host : Host) (kind : SessionKind) (r : VpnGateResult)
      → Kept s
      → Kept (after_gate uuid s host kind r)
  unfolding after_gate
  after_gate-Kept s host kind r k = elim (Bool-cases (end_gate s host r).1.is_ok) [
    | inl up ↦ rw up (open_tab-Kept _ host kind (end_gate-Kept s host r k))
    | inr down ↦ rw down (end_gate-Kept s host r k)
  ]

  pub handle_split_pane-Kept :
      (s : Shell W) (tab_id p : String) (host : Option Host)
      → Kept s
      → Kept (handle_split_pane s tab_id p host).0
  unfolding handle_split_pane target_asked
  handle_split_pane-Kept s tab_id p host k = asked (split_target s.sessions tab_id p host)
    where
      asked : (t : VpnGateResult ⊎ Host) → Kept (target_asked s t)
      asked (inl answer) = k
      asked (inr target) = begin_gate-Kept s target k

  pub after_split_gate-Kept :
      (s : Shell W) (tab_id p : String) (d : Direction) (host : Option Host) (target : Host)
      (r : VpnGateResult)
      → Kept s
      → Kept (after_split_gate uuid s tab_id p d host target r).0
  unfolding after_split_gate split_shown
  after_split_gate-Kept s tab_id p d host target r k =
      let gated = end_gate-Kept s target r k in
      elim (Bool-cases (end_gate s target r).1.is_ok) [
        | inl up ↦ rw up (record {
          shows = keeps_tabs _ _ _ (tab_ids-split_pane uuid _ tab_id p d host) gated.shows;
          reached = Reach.next gated.reached (Reach.divided tab_id p d host);
        })
        | inr down ↦ rw down gated
      ]

  pub handle_close_tab-Kept :
      (s : Shell W) (tab_id : String) → Kept s → Kept (handle_close_tab s tab_id).0
  unfolding handle_close_tab close_session
  handle_close_tab-Kept s tab_id k = record {
    shows = view_left-ShowsOpen tab_id s.main_view s.sessions.open_sessions k.shows;
    reached = Reach.next k.reached (Reach.closed tab_id);
  }

  pub handle_close_pane-Kept :
      (s : Shell W) (tab_id p : String) → Kept s → Kept (handle_close_pane s tab_id p).0
  unfolding handle_close_pane
  handle_close_pane-Kept s tab_id p k =
      elim (Bool-cases (is_last_pane s.sessions.open_sessions tab_id)) [
        | inl single ↦ rw single (handle_close_tab-Kept s tab_id k)
        | inr several ↦ rw several (record {
          shows = keeps_tabs _ _ _ (tab_ids-close_pane s.sessions tab_id p) k.shows;
          reached = Reach.next k.reached (Reach.closed_one tab_id p);
        })
      ]

  pub cycle_tab-Kept : (s : Shell W) (shift : Bool) → Kept s → Kept (cycle_tab s shift)
  unfolding cycle_tab next_tab
  cycle_tab-Kept s shift k = elim (Option-cases (next_tab s shift)) [
    | inl e ↦ rw e k
    | inr (o, e) ↦ rw e (record {
      shows =
          FoundOpen-some s.sessions.open_sessions (get_elem?-FoundOpen s.sessions.open_sessions _)
            e;
      reached = k.reached;
    })
  ]
