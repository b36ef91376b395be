-- ===== src/Settings/Bounds.antt =====
-- The settings that are clamped stay within their bounds.
use connect_hub.Base.{Option, none, some, arith, get_or_else}
use connect_hub.Number.{Number, ◌≼◌, IsOrdered}
use connect_hub.Settings.{
  SettingsState, Persisted, Action, clamp, initial, act, merge, min_left_sidebar_width,
  max_left_sidebar_width, min_right_panel_width, max_right_panel_width, min_vault_auto_lock_minutes,
  max_vault_auto_lock_minutes, set_theme, set_terminal_font_family, set_terminal_font_size,
  set_terminal_cursor_style, set_terminal_theme_key, toggle_left_sidebar, set_left_sidebar_visible,
  set_left_sidebar_width, toggle_snippets_drawer, toggle_right_panel, set_right_panel_visible,
  set_right_panel_width, toggle_performance_panel, toggle_host_details,
  toggle_quick_command_auto_run, toggle_auto_reconnect, toggle_vault_auto_lock,
  set_vault_auto_lock_minutes, toggle_auto_copy_on_select, toggle_ai_panel, set_ai_active_provider,
}

module _ {W : Type 0} ⦃num : Number W⦄ where
  abbrev pub Within : W → W → W → Type 0
  Within lo hi x = (lo ≼ x) × (x ≼ hi)

  pub record Bounded (s : SettingsState W) : Type 0 where
    pub left : Within min_left_sidebar_width max_left_sidebar_width s.left_sidebar_width
    pub right : Within min_right_panel_width max_right_panel_width s.right_panel_width
    pub minutes :
        Within min_vault_auto_lock_minutes max_vault_auto_lock_minutes s.vault_auto_lock_minutes

  -- The number that an action sets, where it is clamped, is not NaN.
  abbrev pub IsSane : Action W → Type 0
  IsSane (set_left_sidebar_width v) = v ≼ v
  IsSane (set_right_panel_width v) = v ≼ v
  IsSane (set_vault_auto_lock_minutes v) = v ≼ v
  IsSane _ = Unit {0}

  abbrev pub IsNumber : Option W → Type 0
  IsNumber none = Unit {0}
  IsNumber (some v) = v ≼ v

  abbrev pub HasNumbers : Persisted W → Type 0
  HasNumbers p =
      IsNumber p.left_sidebar_width
      × IsNumber p.right_panel_width
      × IsNumber p.vault_auto_lock_minutes

  -- The settings reached by actions and by merging persisted settings.
  pub data Acts (s : SettingsState W) : SettingsState W → Type 0 where
    same : Acts s s
    acted : {t : SettingsState W} → Acts s t → (a : Action W) → IsSane a → Acts s (act a t)
    merged :
        {t : SettingsState W} → Acts s t → (p : Persisted W) → HasNumbers p → Acts s (merge p t)

  module _ (ord : IsOrdered W) where
    clamp-Within : (lo hi x : W) → lo ≼ hi → x ≼ x → Within lo hi (clamp x lo hi)
    unfolding clamp
    clamp-Within lo hi x h n =
        ground (arith, ord.refl_of_le lo hi h, ord.total lo x, ord.total hi x, ord.total hi lo)

    left_le : ◌≼◌ {W = W} min_left_sidebar_width max_left_sidebar_width
    left_le = ord.whole_le 180 480 (omega arith)

    right_le : ◌≼◌ {W = W} min_right_panel_width max_right_panel_width
    right_le = ord.whole_le 260 560 (omega arith)

    minutes_le : ◌≼◌ {W = W} min_vault_auto_lock_minutes max_vault_auto_lock_minutes
    minutes_le = ord.whole_le 1 120 (omega arith)

    initial-Bounded : Bounded initial
    initial-Bounded = record {
      left = (ord.whole_le 180 256 (omega arith), ord.whole_le 256 480 (omega arith));
      right = (ord.whole_le 260 320 (omega arith), ord.whole_le 320 560 (omega arith));
      minutes = (ord.whole_le 1 5 (omega arith), ord.whole_le 5 120 (omega arith));
    }

    act-Bounded : (a : Action W) (s : SettingsState W) → IsSane a → Bounded s → Bounded (act a s)
    unfolding act
    act-Bounded (set_theme v) s n b = record { left = b.left; right = b.right; minutes = b.minutes }
    act-Bounded (set_terminal_font_family v) s n b = record {
      left = b.left;
      right = b.right;
      minutes = b.minutes;
    }
    act-Bounded (set_terminal_font_size v) s n b = record {
      left = b.left;
      right = b.right;
      minutes = b.minutes;
    }
    act-Bounded (set_terminal_cursor_style v) s n b = record {
      left = b.left;
      right = b.right;
      minutes = b.minutes;
    }
    act-Bounded (set_terminal_theme_key v) s n b = record {
      left = b.left;
      right = b.right;
      minutes = b.minutes;
    }
    act-Bounded toggle_left_sidebar s n b = record {
      left = b.left;
      right = b.right;
      minutes = b.minutes;
    }
    act-Bounded (set_left_sidebar_visible v) s n b = record {
      left = b.left;
      right = b.right;
      minutes = b.minutes;
    }
    act-Bounded (set_left_sidebar_width v) s n b = record {
      left = clamp-Within _ _ v left_le n;
      right = b.right;
      minutes = b.minutes;
    }
    act-Bounded toggle_snippets_drawer s n b = record {
      left = b.left;
      right = b.right;
      minutes = b.minutes;
    }
    act-Bounded toggle_right_panel s n b = record {
      left = b.left;
      right = b.right;
      minutes = b.minutes;
    }
    act-Bounded (set_right_panel_visible v) s n b = record {
      left = b.left;
      right = b.right;
      minutes = b.minutes;
    }
    act-Bounded (set_right_panel_width v) s n b = record {
      left = b.left;
      right = clamp-Within _ _ v right_le n;
      minutes = b.minutes;
    }
    act-Bounded toggle_performance_panel s n b = record {
      left = b.left;
      right = b.right;
      minutes = b.minutes;
    }
    act-Bounded toggle_host_details s n b = record {
      left = b.left;
      right = b.right;
      minutes = b.minutes;
    }
    act-Bounded toggle_quick_command_auto_run s n b = record {
      left = b.left;
      right = b.right;
      minutes = b.minutes;
    }
    act-Bounded toggle_auto_reconnect s n b = record {
      left = b.left;
      right = b.right;
      minutes = b.minutes;
    }
    act-Bounded toggle_vault_auto_lock s n b = record {
      left = b.left;
      right = b.right;
      minutes = b.minutes;
    }
    act-Bounded (set_vault_auto_lock_minutes v) s n b = record {
      left = b.left;
      right = b.right;
      minutes = clamp-Within _ _ v minutes_le n;
    }
    act-Bounded toggle_auto_copy_on_select s n b = record {
      left = b.left;
      right = b.right;
      minutes = b.minutes;
    }
    act-Bounded toggle_ai_panel s n b = record {
      left = b.left;
      right = b.right;
      minutes = b.minutes;
    }
    act-Bounded (set_ai_active_provider v) s n b = record {
      left = b.left;
      right = b.right;
      minutes = b.minutes;
    }

    number_of : (o : Option W) (x : W) → IsNumber o → x ≼ x → get_or_else o x ≼ get_or_else o x
    number_of none x n m = m
    number_of (some v) x n m = n

    merge-Bounded :
        (p : Persisted W) (s : SettingsState W) → HasNumbers p → Bounded s → Bounded (merge p s)
    unfolding merge
    merge-Bounded p s n b =
        let kept = λ (o : Option W) (x lo hi : W) (m : IsNumber o) (w : Within lo hi x).
          number_of o x m (ord.refl_of_le lo x w.0).1 in
        record {
          left =
              clamp-Within _ _ _ left_le
                (kept p.left_sidebar_width s.left_sidebar_width _ _ n.0 b.left);
          right =
              clamp-Within _ _ _ right_le
                (kept p.right_panel_width s.right_panel_width _ _ n.1 b.right);
          minutes =
              clamp-Within _ _ _ minutes_le
                (kept p.vault_auto_lock_minutes s.vault_auto_lock_minutes _ _ n.2 b.minutes);
        }

    -- Let the numbers be ordered as documented. However the settings are changed, each
    -- width and each number of minutes that is set being a number, NaN excluded, and
    -- however often persisted settings, whose widths and minutes are numbers where present,
    -- are merged, from the initial settings on: the two widths and the minutes of the
    -- auto-lock stay within their bounds.
    pub Acts-Bounded : {s : SettingsState W} → Acts initial s → Bounded s
    Acts-Bounded same = initial-Bounded
    Acts-Bounded (acted {t} r a n) = act-Bounded a t n (Acts-Bounded r)
    Acts-Bounded (merged {t} r p n) = merge-Bounded p t n (Acts-Bounded r)
