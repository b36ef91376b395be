-- ===== src/Shell/Panels.antt =====
-- src/pages/AppShell.tsx: which of the side panels are shown, docked or laid over the workspace, and
-- the handlers that show and hide them.
pub mod Toggling
use connect_hub.Base.{
  String, Bool, true, false, not, ◌&&◌, ◌||◌, List, Option, none, some, if◌then◌else◌, is_some,
}
use connect_hub.Number.{Number}
use connect_hub.Bridge.{Host}
use connect_hub.Settings.{
  act, toggle_left_sidebar, set_left_sidebar_visible, toggle_snippets_drawer, toggle_right_panel,
  set_right_panel_visible, Action, SettingsState,
}
use connect_hub.Shell.{
  ManageTab, MainView, ModalState, Side, left, right, Shell, is_hosts, is_left, is_right,
  is_inline_form_modal, left_panel_overlays, right_panel_overlays, shows_host_tree, context_host,
}

abbrev pub same_tab : ManageTab → ManageTab → Bool
same_tab ManageTab.hosts ManageTab.hosts = true
same_tab ManageTab.identities ManageTab.identities = true
same_tab ManageTab.keys ManageTab.keys = true
same_tab ManageTab.vpn ManageTab.vpn = true
same_tab ManageTab.workspaces ManageTab.workspaces = true
same_tab ManageTab.backup ManageTab.backup = true
same_tab ManageTab.settings ManageTab.settings = true
same_tab _ _ = false

abbrev pub shows_tab : MainView → ManageTab → Bool
shows_tab (MainView.session tab_id) tab = false
shows_tab (MainView.manage shown) tab = same_tab shown tab

module _ {W : Type 0} ⦃num : Number W⦄ where
  abbrev set : Action W → Shell W → Shell W
  set a s = record s { settings = act a s.settings }

  -- The effect that runs when the right panel starts or stops being laid over, or the form changes.
  unfoldable pub overlay_effect : Shell W → Shell W
  overlay_effect s =
      if not (right_panel_overlays s)
      then record s { active_overlay = none }
      else if is_inline_form_modal s.modal
      then record s { active_overlay = some right }
      else s

  -- Escape, while a panel is laid over.
  unfoldable pub press_escape : Shell W → Shell W
  press_escape s = record s { active_overlay = none }

  unfoldable pub open_modal : Shell W → ModalState → Shell W
  unfolding act
  open_modal s form =
      let s1 = record s { modal = some form } in
      let s2 = set (set_right_panel_visible true) s1 in
      if not (is_inline_form_modal (some form))
      then s1
      else if right_panel_overlays s
      then record s2 { active_overlay = some right }
      else s2

  unfoldable pub close_inline_form : Shell W → Shell W
  close_inline_form s =
      let s1 = record s { modal = none } in
      if right_panel_overlays s then record s1 { active_overlay = none } else s1

  unfoldable pub docked_panel_visible : List Host → Option String → Shell W → Bool
  docked_panel_visible all_hosts selected_host_id s =
      s.settings.right_panel_visible
      && (is_inline_form_modal s.modal
          || (s.settings.snippets_drawer_open
              || is_some (context_host all_hosts selected_host_id s)))

  unfoldable pub left_panel_open : Shell W → Bool
  left_panel_open s =
      shows_host_tree s.main_view
      && (s.settings.left_sidebar_visible
          && (not (left_panel_overlays s) || is_left s.active_overlay))

  unfoldable pub right_panel_open : List Host → Option String → Shell W → Bool
  unfolding docked_panel_visible
  right_panel_open all_hosts selected_host_id s =
      docked_panel_visible all_hosts selected_host_id s
      && (not (right_panel_overlays s) || is_right s.active_overlay)

  unfoldable pub handle_left_panel_toggle : Shell W → Shell W
  unfolding act
  handle_left_panel_toggle s =
      if not (left_panel_overlays s)
      then set toggle_left_sidebar s
      else let s1 =
          if not s.settings.left_sidebar_visible
          then set (set_left_sidebar_visible true) s
          else s in
        record s1 { active_overlay = if is_left s1.active_overlay then none else some left }

  unfoldable pub handle_right_panel_toggle : Shell W → Shell W
  unfolding act
  handle_right_panel_toggle s =
      if not (right_panel_overlays s)
      then set toggle_right_panel s
      else let s1 =
          if not s.settings.right_panel_visible then set (set_right_panel_visible true) s else s in
        record s1 { active_overlay = if is_right s1.active_overlay then none else some right }

  unfoldable pub handle_snippets_toggle : Shell W → Shell W
  unfolding act
  handle_snippets_toggle s =
      let drawer_open = s.settings.snippets_drawer_open in
      let s1 = if not drawer_open then set (set_right_panel_visible true) s else s in
      let s2 = set toggle_snippets_drawer s1 in
      if right_panel_overlays s
      then record (set (set_right_panel_visible true) s2) {
        active_overlay = if drawer_open && is_right s.active_overlay then none else some right;
      }
      else s2

  unfoldable pub show_hosts : Shell W → Shell W
  unfolding act
  show_hosts s =
      let s1 = record s { main_view = MainView.manage ManageTab.hosts } in
      record (set (set_left_sidebar_visible true) s1) {
        active_overlay = if left_panel_overlays s then some left else none;
      }

  unfoldable pub handle_activity_select : Shell W → ManageTab → Shell W
  unfolding show_hosts
  handle_activity_select s tab =
      let s1 = record s { main_view = MainView.manage tab } in
      if shows_tab s.main_view tab
      then if is_hosts tab then handle_left_panel_toggle s else s
      else if is_hosts tab
      then show_hosts s
      else record s1 { active_overlay = none }
