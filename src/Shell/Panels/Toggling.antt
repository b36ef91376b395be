-- ===== src/Shell/Panels/Toggling.antt =====
-- src/pages/AppShell.tsx: what the handlers of the side panels do to what is shown.
use connect_hub.Base.{
  ◌≡◌, refl, String, true, false, not, ◌&&◌, ◌||◌, List, Option, some, arith, Bool-cases, inl, inr,
}
use connect_hub.Number.{Number}
use connect_hub.Bridge.{Host}
use connect_hub.Settings.{act}
use connect_hub.Shell.{
  ManageTab, MainView, ModalState, Shell, is_left, is_inline_form_modal, left_panel_overlays,
  right_panel_overlays, shows_host_tree,
}
use connect_hub.Shell.Panels.{
  shows_tab, open_modal, docked_panel_visible, left_panel_open, right_panel_open,
  handle_left_panel_toggle, handle_activity_select, show_hosts,
}

tree_shown : (v : MainView) → shows_tab v ManageTab.hosts ≡ true → shows_host_tree v ≡ true
tree_shown (MainView.session t) shown = refl
tree_shown (MainView.manage ManageTab.hosts) shown = refl
tree_shown (MainView.manage ManageTab.identities) shown = shown
tree_shown (MainView.manage ManageTab.keys) shown = shown
tree_shown (MainView.manage ManageTab.vpn) shown = shown
tree_shown (MainView.manage ManageTab.workspaces) shown = shown
tree_shown (MainView.manage ManageTab.backup) shown = shown
tree_shown (MainView.manage ManageTab.settings) shown = shown

module _ {W : Type 0} ⦃num : Number W⦄ where
  pub open_modal_shows :
      (all_hosts : List Host) (selected_host_id : Option String) (s : Shell W) (form : ModalState)
      → is_inline_form_modal (some form) ≡ true
      → right_panel_open all_hosts selected_host_id (open_modal s form) ≡ true
  unfolding open_modal right_panel_open docked_panel_visible act right_panel_overlays
  open_modal_shows all_hosts selected_host_id s form inline =
      elim (Bool-cases (right_panel_overlays s)) [
        | inl over ↦ ground (arith, inline, over)
        | inr docked ↦ ground (arith, inline, docked)
      ]

  pub handle_left_panel_toggle_flips :
      (s : Shell W)
      → shows_host_tree s.main_view ≡ true
      → (left_panel_overlays s && (is_left s.active_overlay && not s.settings.left_sidebar_visible))
        ≡ false
      → left_panel_open (handle_left_panel_toggle s) ≡ not (left_panel_open s)
  unfolding handle_left_panel_toggle left_panel_open act left_panel_overlays
  handle_left_panel_toggle_flips s tree reachable = ground (arith, tree, reachable)

  hosts_open : (s : Shell W) → left_panel_open (show_hosts s) ≡ true
  unfolding left_panel_open show_hosts act left_panel_overlays
  hosts_open s = elim (Bool-cases (left_panel_overlays s)) [
    | inl over ↦ ground (arith, over)
    | inr docked ↦ ground (arith, docked)
  ]

  -- Unless a left panel that is hidden by its setting is marked as laid over, choosing Hosts
  -- in the activity bar shows the left panel if the view was another, and otherwise shows it
  -- if it was hidden and hides it if it was shown.
  pub handle_activity_select_hosts :
      (s : Shell W)
      → (left_panel_overlays s && (is_left s.active_overlay && not s.settings.left_sidebar_visible))
        ≡ false
      → left_panel_open (handle_activity_select s ManageTab.hosts)
        ≡ not (shows_tab s.main_view ManageTab.hosts) || not (left_panel_open s)
  unfolding handle_activity_select show_hosts
  handle_activity_select_hosts s reachable =
      elim (Bool-cases (shows_tab s.main_view ManageTab.hosts)) [
        | inl shown ↦
            rw shown (handle_left_panel_toggle_flips s (tree_shown s.main_view shown) reachable)
        | inr hidden ↦ rw hidden (hosts_open s)
      ]
