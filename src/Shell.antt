-- ===== src/Shell.antt =====
-- src/pages/AppShell.tsx: the window's state and the handlers that tie the stores together. A
-- handler is cut at its awaits; what it awaits of the VPN's gate comes back as a `VpnGateResult`.
pub mod Panels
pub mod Tabs
pub mod Workspaces
pub mod Groups
use connect_hub.Base.{
  ℕ, String, Bool, true, false, not, ◌&&◌, ◌||◌, List, [], ◌∷◌, Option, none, some, if◌then◌else◌,
  maybe, find, any, is_some, ◌==◌,
}
use connect_hub.Number.{Number, maximum}
use connect_hub.Bridge.{Group, Host, Identity, Snippet, VpnProfile}
use connect_hub.Sessions.{OpenSession, SessionsState}
use connect_hub.Settings.{SettingsState}

pub data ManageTab : Type 0 where
  hosts identities keys vpn workspaces backup settings : ManageTab

pub data MainView : Type 0 where
  manage : ManageTab → MainView
  session : String → MainView

-- The forms, with what they are opened on.
pub data ModalState : Type 0 where
  group : Option Group → Option String → ModalState
  host : Option Host → Option String → ModalState
  identity : Option Identity → ModalState
  key : ModalState
  snippet : Option Snippet → ModalState
  run_snippet : Snippet → ModalState
  vpn_profile : Option VpnProfile → ModalState

pub data Side : Type 0 where
  left right : Side

pub record Shell (W : Type 0) : Type 0 where
  pub sessions : SessionsState W
  pub settings : SettingsState W
  pub main_view : MainView
  pub modal : Option ModalState
  pub viewport_width : W
  pub active_overlay : Option Side
  pub vpn_gate_host_id : Option String
  pub vpn_gate_error : Option (String × String)

abbrev pub is_hosts : ManageTab → Bool
is_hosts hosts = true
is_hosts _ = false

abbrev pub is_left : Option Side → Bool
is_left (some left) = true
is_left _ = false

abbrev pub is_right : Option Side → Bool
is_right (some right) = true
is_right _ = false

abbrev pub is_inline_form_modal : Option ModalState → Bool
is_inline_form_modal (some (group g p)) = true
is_inline_form_modal (some (host h g)) = true
is_inline_form_modal (some (identity i)) = true
is_inline_form_modal (some key) = true
is_inline_form_modal (some (vpn_profile p)) = true
is_inline_form_modal _ = false

module _ {W : Type 0} ⦃num : Number W⦄ where
  abbrev pub shell_rails_width : W
  shell_rails_width = num.decimal 104 0

  abbrev pub min_center_workspace_width : W
  min_center_workspace_width = num.decimal 620 0

  abbrev less : W → W → Bool
  less x y = num.le x y && not (num.le y x)

  unfoldable pub left_panel_overlays : Shell W → Bool
  left_panel_overlays s = less s.viewport_width (
      maximum (num.decimal 900 0) (
        num.plus (num.plus s.settings.left_sidebar_width shell_rails_width)
          min_center_workspace_width))

  unfoldable pub right_panel_overlays : Shell W → Bool
  right_panel_overlays s = less s.viewport_width (
      maximum (num.decimal 1280 0) (
        num.plus
          (num.plus (num.plus s.settings.left_sidebar_width s.settings.right_panel_width)
            shell_rails_width)
          min_center_workspace_width))

abbrev pub shows_host_tree : MainView → Bool
shows_host_tree (session tab_id) = true
shows_host_tree (manage tab) = is_hosts tab

unfoldable pub find_host : List Host → String → Option Host
find_host all_hosts id = find (λ (h : Host). h.id == id) all_hosts

module _ {W : Type 0} where
  abbrev pub active_session : Shell W → MainView → Option (OpenSession W)
  active_session s (session tab_id) =
      find (λ (o : OpenSession W). o.tab_id == tab_id) s.sessions.open_sessions
  active_session s (manage tab) = none

  -- The host that the right panel is about.
  unfoldable pub context_host : List Host → Option String → Shell W → Option Host
  unfolding find_host
  context_host all_hosts selected_host_id s = shown s.main_view
    where
      shown : MainView → Option Host
      shown (session tab_id) =
          maybe none
            (λ (o : OpenSession W). maybe (some o.host) some (find_host all_hosts o.host.id))
            (active_session s (session tab_id))
      shown (manage tab) =
          if is_hosts tab then maybe none (find_host all_hosts) selected_host_id else none
