-- ===== src/Bts.antt =====
-- The data of exynos_drm_bts.c: `struct dpu_bts` and its companions of exynos_drm_decon.h, without
-- the fields that this file never reads. All numbers are unsigned words of 32 bits, kept below their
-- modulus by `u32` at each step of the arithmetic; `int` positions are their bit patterns.
pub mod Clock
pub mod Vote
pub mod Bandwidth
pub mod Frame
mod Tests
use google_modules_display_s.Prelude.{ℕ, Bool, List}
use google_modules_display_s.Format.{DrmFormat}

-- `enum dpu_win_state`.
pub data WinState : Type 0 where
  disabled color buffer : WinState

-- `struct dpu_bts_win_config`.
pub record WinConfig : Type 0 where
  pub state : WinState
  pub src_w : ℕ
  pub src_h : ℕ
  pub dst_x : ℕ
  pub dst_y : ℕ
  pub dst_w : ℕ
  pub dst_h : ℕ
  pub is_rot : Bool
  pub is_comp : Bool
  pub dpp_id : ℕ
  pub format : DrmFormat

-- The part of `struct dpu_bts` that the device tree and the display mode set, and that the functions
-- of this file only read. `dfs_lv_khz` holds the first `dfs_lv_cnt` entries.
pub record Params : Type 0 where
  pub ppc : ℕ
  pub ppc_rotator : ℕ
  pub ppc_scaler : ℕ
  pub delay_comp : ℕ
  pub delay_scaler : ℕ
  pub bus_width : ℕ
  pub bus_util_pct : ℕ
  pub rot_util_pct : ℕ
  pub afbc_rgb_util_pct : ℕ
  pub afbc_yuv_util_pct : ℕ
  pub afbc_rgb_rt_util_pct : ℕ
  pub afbc_yuv_rt_util_pct : ℕ
  pub afbc_clk_ppc_margin : ℕ
  pub dfs_lv_khz : List ℕ
  pub max_dfs_lv_for_wb : ℕ
  pub vbp : ℕ
  pub vfp : ℕ
  pub vsa : ℕ
  pub fps : ℕ
  pub vblank_usec : ℕ
  pub bw_idx : ℕ
  pub urgent_rd_lat_index : List ℕ

-- `struct dpu_bts_bw`.
pub record RtBw : Type 0 where
  pub val : ℕ
  pub ch_num : ℕ

-- The part of `struct dpu_bts` that the functions of this file compute and remember. The lists are
-- the arrays `rt_bw`, `ch_bw` and `win_config`, the last with `win_cnt` entries.
pub record Bts : Type 0 where
  pub enabled : Bool
  pub resol_clk : ℕ
  pub peak : ℕ
  pub prev_peak : ℕ
  pub rt_avg_bw : ℕ
  pub prev_rt_avg_bw : ℕ
  pub read_bw : ℕ
  pub write_bw : ℕ
  pub total_bw : ℕ
  pub prev_total_bw : ℕ
  pub urgent_rd_lat : ℕ
  pub prev_urgent_rd_lat : ℕ
  pub max_disp_freq : ℕ
  pub prev_max_disp_freq : ℕ
  pub max_dpp_read_rt_bw : ℕ
  pub video_num : ℕ
  pub rt_bw : List RtBw
  pub ch_bw : List ℕ
  pub win_config : List WinConfig
  pub wb_config : WinConfig
  pub rcd_config : WinConfig

-- `struct dpu_bts_scenario`.
pub record Scenario : Type 0 where
  pub enabled : Bool
  pub voted : Bool
  pub skip_with_video : Bool
  pub min_panel_width : ℕ
  pub min_panel_height : ℕ
  pub min_fps : ℕ
  pub min_rt_bw : ℕ
  pub max_rt_bw : ℕ
  pub min_peak_bw : ℕ
  pub max_peak_bw : ℕ
  pub idx : ℕ

-- `struct bw_latency_map`.
pub record BwLatency : Type 0 where
  pub bw_kbps : ℕ
  pub latency_ns : ℕ

-- `struct dpu_bts_urgent_lat`; the list is `bw_lat_tbl`, with `bw_lat_map_cnt` entries.
pub record UrgentLat : Type 0 where
  pub enabled : Bool
  pub bw_lat_tbl : List BwLatency

-- The configuration in `struct decon_device`.
pub record Panel : Type 0 where
  pub image_width : ℕ
  pub image_height : ℕ
  pub video_mode : Bool
  pub dsc_enabled : Bool
  pub dsc_count : ℕ
  pub slice_count : ℕ

-- `struct decon_device`, as far as this file uses it.
pub record Decon : Type 0 where
  pub config : Panel
  pub params : Params
  pub bts : Bts
  pub bts_scen : Scenario
  pub bts_urgent_rd_lat : UrgentLat
