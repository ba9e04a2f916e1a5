-- ===== src/Panel.antt =====
-- panel/panel-samsung-drv.c: what the driver core of the panels keeps of a panel's modes and state.
pub mod Stats
pub mod LocalHbm
use google_modules_display_s.Prelude.{ℕ, Bool, Option, List, if◌then◌else◌}

-- `enum display_state`
pub data DisplayState : Type 0 where
  on hbm lp off : DisplayState

-- `struct display_resolution`
pub record Resolution : Type 0 where
  pub hdisplay : ℕ
  pub vdisplay : ℕ

-- The part of a mode that the statistics read, with the `drm_mode_vrefresh` of it.
pub record PanelMode : Type 0 where
  pub res : Resolution
  pub vrefresh : ℕ

-- The part of `struct exynos_panel_desc` that the statistics read. `lp_modes` are the `lp_mode_count`
-- modes at `lp_mode`, one if the count is 0, or none without a pointer.
pub record PanelDesc : Type 0 where
  pub resolution_table : Option (List Resolution)
  pub vrefresh_range : Option (List ℕ)
  pub lp_vrefresh_range : Option (List ℕ)
  pub modes : List PanelMode
  pub lp_modes : List PanelMode
  pub has_set_hbm_mode : Bool

-- The flags that `get_current_display_state_locked` reads.
pub record Backlight : Type 0 where
  pub standby : Bool
  pub low_power : Bool
  pub hbm_on : Bool

abbrev pub get_current_display_state : Backlight → DisplayState
get_current_display_state b =
    if b.standby then off else if b.low_power then lp else if b.hbm_on then hbm else on
