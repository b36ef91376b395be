-- ===== src/Settings.antt =====
-- src/state/settingsStore.ts: the settings, their setters and toggles, and the merge of persisted
-- settings into the initial ones. Widths, sizes and minutes are numbers that need not be whole.
pub mod Bounds
use connect_hub.Base.{
  String, Bool, true, false, not, Option, none, some, get_or_else, if◌then◌else◌,
}
use connect_hub.Number.{Number, maximum, minimum}
use connect_hub.Bridge.{AiProvider}

pub data ThemeMode : Type 0 where
  light dark system : ThemeMode

pub data CursorStyle : Type 0 where
  block bar underline : CursorStyle

pub data TerminalThemeKey : Type 0 where
  dark light solarized_dark solarized_light : TerminalThemeKey

pub record SettingsState (W : Type 0) : Type 0 where
  pub theme : ThemeMode
  pub terminal_font_family : String
  pub terminal_font_size : W
  pub terminal_cursor_style : CursorStyle
  pub terminal_theme_key : TerminalThemeKey
  pub left_sidebar_visible : Bool
  pub left_sidebar_width : W
  pub snippets_drawer_open : Bool
  pub right_panel_visible : Bool
  pub right_panel_width : W
  pub performance_panel_visible : Bool
  pub host_details_visible : Bool
  pub quick_command_auto_run : Bool
  pub auto_reconnect_enabled : Bool
  pub vault_auto_lock_enabled : Bool
  pub vault_auto_lock_minutes : W
  pub auto_copy_on_select_enabled : Bool
  pub ai_panel_open : Bool
  pub ai_active_provider : Option AiProvider

-- Persisted settings, any of which may be absent.
pub record Persisted (W : Type 0) : Type 0 where
  pub theme : Option ThemeMode
  pub terminal_font_family : Option String
  pub terminal_font_size : Option W
  pub terminal_cursor_style : Option CursorStyle
  pub terminal_theme_key : Option TerminalThemeKey
  pub left_sidebar_visible : Option Bool
  pub left_sidebar_width : Option W
  pub snippets_drawer_open : Option Bool
  pub right_panel_visible : Option Bool
  pub right_panel_width : Option W
  pub performance_panel_visible : Option Bool
  pub host_details_visible : Option Bool
  pub quick_command_auto_run : Option Bool
  pub auto_reconnect_enabled : Option Bool
  pub vault_auto_lock_enabled : Option Bool
  pub vault_auto_lock_minutes : Option W
  pub auto_copy_on_select_enabled : Option Bool
  pub ai_panel_open : Option Bool
  pub ai_active_provider : Option (Option AiProvider)

pub data Action (W : Type 0) : Type 0 where
  set_theme : ThemeMode → Action W
  set_terminal_font_family : String → Action W
  set_terminal_font_size : W → Action W
  set_terminal_cursor_style : CursorStyle → Action W
  set_terminal_theme_key : TerminalThemeKey → Action W
  toggle_left_sidebar : Action W
  set_left_sidebar_visible : Bool → Action W
  set_left_sidebar_width : W → Action W
  toggle_snippets_drawer : Action W
  toggle_right_panel : Action W
  set_right_panel_visible : Bool → Action W
  set_right_panel_width : W → Action W
  toggle_performance_panel : Action W
  toggle_host_details : Action W
  toggle_quick_command_auto_run : Action W
  toggle_auto_reconnect : Action W
  toggle_vault_auto_lock : Action W
  set_vault_auto_lock_minutes : W → Action W
  toggle_auto_copy_on_select : Action W
  toggle_ai_panel : Action W
  set_ai_active_provider : Option AiProvider → Action W

module _ {W : Type 0} ⦃num : Number W⦄ where
  abbrev pub min_left_sidebar_width : W
  min_left_sidebar_width = num.decimal 180 0

  abbrev pub max_left_sidebar_width : W
  max_left_sidebar_width = num.decimal 480 0

  abbrev pub default_left_sidebar_width : W
  default_left_sidebar_width = num.decimal 256 0

  abbrev pub min_right_panel_width : W
  min_right_panel_width = num.decimal 260 0

  abbrev pub max_right_panel_width : W
  max_right_panel_width = num.decimal 560 0

  abbrev pub default_right_panel_width : W
  default_right_panel_width = num.decimal 320 0

  abbrev pub min_vault_auto_lock_minutes : W
  min_vault_auto_lock_minutes = num.decimal 1 0

  abbrev pub max_vault_auto_lock_minutes : W
  max_vault_auto_lock_minutes = num.decimal 120 0

  abbrev pub default_vault_auto_lock_minutes : W
  default_vault_auto_lock_minutes = num.decimal 5 0

  unfoldable pub clamp : W → W → W → W
  clamp value lo hi = minimum hi (maximum lo value)

  abbrev pub initial : SettingsState W
  initial = record {
    theme = ThemeMode.dark;
    terminal_font_family = "Menlo, Monaco, 'Courier New', monospace";
    terminal_font_size = num.decimal 13 0;
    terminal_cursor_style = block;
    terminal_theme_key = TerminalThemeKey.dark;
    left_sidebar_visible = true;
    left_sidebar_width = default_left_sidebar_width;
    snippets_drawer_open = false;
    right_panel_visible = true;
    right_panel_width = default_right_panel_width;
    performance_panel_visible = true;
    host_details_visible = true;
    quick_command_auto_run = true;
    auto_reconnect_enabled = false;
    vault_auto_lock_enabled = false;
    vault_auto_lock_minutes = default_vault_auto_lock_minutes;
    auto_copy_on_select_enabled = true;
    ai_panel_open = false;
    ai_active_provider = none;
  }

  unfoldable pub act : Action W → SettingsState W → SettingsState W
  act (set_theme v) s = record s { theme = v }
  act (set_terminal_font_family v) s = record s { terminal_font_family = v }
  act (set_terminal_font_size v) s = record s { terminal_font_size = v }
  act (set_terminal_cursor_style v) s = record s { terminal_cursor_style = v }
  act (set_terminal_theme_key v) s = record s { terminal_theme_key = v }
  act toggle_left_sidebar s = record s { left_sidebar_visible = not s.left_sidebar_visible }
  act (set_left_sidebar_visible v) s = record s { left_sidebar_visible = v }
  act (set_left_sidebar_width v) s = record s {
    left_sidebar_width = clamp v min_left_sidebar_width max_left_sidebar_width;
  }
  act toggle_snippets_drawer s = record s { snippets_drawer_open = not s.snippets_drawer_open }
  act toggle_right_panel s = record s { right_panel_visible = not s.right_panel_visible }
  act (set_right_panel_visible v) s = record s { right_panel_visible = v }
  act (set_right_panel_width v) s = record s {
    right_panel_width = clamp v min_right_panel_width max_right_panel_width;
  }
  act toggle_performance_panel s = record s {
    performance_panel_visible = not s.performance_panel_visible;
  }
  act toggle_host_details s = record s { host_details_visible = not s.host_details_visible }
  act toggle_quick_command_auto_run s = record s {
    quick_command_auto_run = not s.quick_command_auto_run;
  }
  act toggle_auto_reconnect s = record s { auto_reconnect_enabled = not s.auto_reconnect_enabled }
  act toggle_vault_auto_lock s = record s {
    vault_auto_lock_enabled = not s.vault_auto_lock_enabled;
  }
  act (set_vault_auto_lock_minutes v) s = record s {
    vault_auto_lock_minutes = clamp v min_vault_auto_lock_minutes max_vault_auto_lock_minutes;
  }
  act toggle_auto_copy_on_select s = record s {
    auto_copy_on_select_enabled = not s.auto_copy_on_select_enabled;
  }
  act toggle_ai_panel s = record s { ai_panel_open = not s.ai_panel_open }
  act (set_ai_active_provider v) s = record s { ai_active_provider = v }

  -- `{ ...current, ...persisted }`
  abbrev pub overlay : Persisted W → SettingsState W → SettingsState W
  overlay p current = record {
    theme = get_or_else p.theme current.theme;
    terminal_font_family = get_or_else p.terminal_font_family current.terminal_font_family;
    terminal_font_size = get_or_else p.terminal_font_size current.terminal_font_size;
    terminal_cursor_style = get_or_else p.terminal_cursor_style current.terminal_cursor_style;
    terminal_theme_key = get_or_else p.terminal_theme_key current.terminal_theme_key;
    left_sidebar_visible = get_or_else p.left_sidebar_visible current.left_sidebar_visible;
    left_sidebar_width = get_or_else p.left_sidebar_width current.left_sidebar_width;
    snippets_drawer_open = get_or_else p.snippets_drawer_open current.snippets_drawer_open;
    right_panel_visible = get_or_else p.right_panel_visible current.right_panel_visible;
    right_panel_width = get_or_else p.right_panel_width current.right_panel_width;
    performance_panel_visible =
        get_or_else p.performance_panel_visible current.performance_panel_visible;
    host_details_visible = get_or_else p.host_details_visible current.host_details_visible;
    quick_command_auto_run = get_or_else p.quick_command_auto_run current.quick_command_auto_run;
    auto_reconnect_enabled = get_or_else p.auto_reconnect_enabled current.auto_reconnect_enabled;
    vault_auto_lock_enabled = get_or_else p.vault_auto_lock_enabled current.vault_auto_lock_enabled;
    vault_auto_lock_minutes = get_or_else p.vault_auto_lock_minutes current.vault_auto_lock_minutes;
    auto_copy_on_select_enabled =
        get_or_else p.auto_copy_on_select_enabled current.auto_copy_on_select_enabled;
    ai_panel_open = get_or_else p.ai_panel_open current.ai_panel_open;
    ai_active_provider = get_or_else p.ai_active_provider current.ai_active_provider;
  }

  unfoldable pub merge : Persisted W → SettingsState W → SettingsState W
  merge persisted current =
      let merged = overlay persisted current in
      record merged {
        left_sidebar_width =
            clamp merged.left_sidebar_width min_left_sidebar_width max_left_sidebar_width;
        right_panel_width =
            clamp merged.right_panel_width min_right_panel_width max_right_panel_width;
        vault_auto_lock_minutes =
            clamp merged.vault_auto_lock_minutes min_vault_auto_lock_minutes
              max_vault_auto_lock_minutes;
      }
