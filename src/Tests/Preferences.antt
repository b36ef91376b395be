-- ===== src/Tests/Preferences.antt =====
-- src/state/settingsStore.ts: a sidebar dragged too far, and settings persisted with a panel too narrow.
use connect_hub.Base.{refl, none, some}
use connect_hub.Number.Hundredths.{Hundredths, hundredths, Hundredths-IsOrdered}
use connect_hub.Settings.{Persisted, initial, act, merge, set_left_sidebar_width}
use connect_hub.Settings.Bounds.{Bounded, same, acted, merged, Acts-Bounded}

abbrev narrow : Persisted Hundredths
narrow = record {
  theme = none;
  terminal_font_family = none;
  terminal_font_size = none;
  terminal_cursor_style = none;
  terminal_theme_key = none;
  left_sidebar_visible = none;
  left_sidebar_width = none;
  snippets_drawer_open = none;
  right_panel_visible = none;
  right_panel_width = some (some 100);
  performance_panel_visible = none;
  host_details_visible = none;
  quick_command_auto_run = none;
  auto_reconnect_enabled = none;
  vault_auto_lock_enabled = none;
  vault_auto_lock_minutes = none;
  auto_copy_on_select_enabled = none;
  ai_panel_open = none;
  ai_active_provider = none;
}

Acts-Bounded_example : Bounded (act (set_left_sidebar_width (some 90000)) (merge narrow initial))
Acts-Bounded_example =
    Acts-Bounded Hundredths-IsOrdered
      (acted (merged same narrow (tt, refl, tt)) (set_left_sidebar_width (some 90000)) refl)
