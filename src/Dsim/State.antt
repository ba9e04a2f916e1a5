-- ===== src/Dsim/State.antt =====
-- The state of the DSI host as far as its high speed clock goes: exynos_drm_dsim.h and
-- cal_common/dsim_cal.h.
use google_modules_display_s.Prelude.{ℕ, Bool, Option, List}
use google_modules_display_s.Dsim.Pll.{PllFeatures}

-- `enum dsim_state`.
pub data DsimState : Type 0 where
  hsclken ulps suspend bypass handover missing : DsimState

-- `struct dsim_pll_param`; the name is a list of character codes.
pub record PllParam : Type 0 where
  pub name : List ℕ
  pub p : ℕ
  pub m : ℕ
  pub s : ℕ
  pub k : ℕ
  pub mfr : ℕ
  pub mrr : ℕ
  pub sel_pf : ℕ
  pub icp : ℕ
  pub afc_enb : ℕ
  pub extafc : ℕ
  pub feed_en : ℕ
  pub fsel : ℕ
  pub fout_mask : ℕ
  pub rsel : ℕ
  pub dither_en : Bool
  pub pll_freq : ℕ
  pub esc_freq : ℕ
  pub cmd_underrun_cnt : ℕ

-- `struct stdphy_pms`.
pub record StdphyPms : Type 0 where
  pub p : ℕ
  pub m : ℕ
  pub s : ℕ
  pub k : ℕ
  pub mfr : ℕ
  pub mrr : ℕ
  pub sel_pf : ℕ
  pub icp : ℕ
  pub afc_enb : ℕ
  pub extafc : ℕ
  pub feed_en : ℕ
  pub fsel : ℕ
  pub fout_mask : ℕ
  pub rsel : ℕ
  pub dither_en : Bool

-- The fields of `struct dsim_clks` that the driver reads or writes here.
pub record Clks : Type 0 where
  pub hs_clk : ℕ
  pub esc_clk : ℕ
  pub pending_hs_clk : ℕ
  pub hs_clk_changed : Bool

-- The timing of the panel and the link, from `struct dsim_reg_config`.
pub record Timing : Type 0 where
  pub vactive : ℕ
  pub hactive : ℕ
  pub vrefresh : ℕ
  pub te_idle_us : ℕ
  pub te_var : ℕ
  pub data_lane_cnt : ℕ
  pub dsc_enabled : Bool
  pub bpp : ℕ

-- `features` is none without `pll_params` or without its features; `current` is the index of
-- `current_pll_param` in `params`, where an index beyond them, as no pointer is,
-- counts as NULL; `cmd_underrun_cnt` is entry 0 of the array.
pub record Dsim : Type 0 where
  pub features : Option PllFeatures
  pub params : List PllParam
  pub current : Option ℕ
  pub allowed_hs_clks : Option (List ℕ)
  pub force_set_hs_clk : Bool
  pub timing : Timing
  pub dphy_pms : StdphyPms
  pub cmd_underrun_cnt : ℕ
  pub clk_param : Clks
  pub state : DsimState
