-- ===== src/Dp.antt =====
-- The DisplayPort link of exynos_drm_dp.c: the capabilities of the two ends, and the checks before a link
-- is trained. What the sink answers over the AUX channel is an argument; log messages are left out.
pub mod Training
pub mod LinkUp
use google_modules_display_s.Prelude.{
  ℕ, zero, suc, ◌+◌, ◌<◌, ◌≡◌, min, Bool, true, false, not, ◌&&◌, ◌||◌, Option, none, some, List,
  [], ◌∷◌, if◌then◌else◌, ltb, ◌==◌,
}

-- drm_dp_bw_code_to_link_rate and drm_dp_link_rate_to_bw_code of the kernel: on the four codes of RBR, HBR,
-- HBR2 and HBR3 the one is the inverse of the other, and a higher code is a higher rate.
pub record Rates : Type 0 where
  pub link_rate : ℕ → ℕ
  pub bw_code : ℕ → ℕ
  pub code_rbr : bw_code (link_rate 6) ≡ 6
  pub code_hbr : bw_code (link_rate 10) ≡ 10
  pub code_hbr2 : bw_code (link_rate 20) ≡ 20
  pub code_hbr3 : bw_code (link_rate 30) ≡ 30
  pub rbr_hbr : link_rate 6 < link_rate 10
  pub hbr_hbr2 : link_rate 10 < link_rate 20
  pub hbr2_hbr3 : link_rate 20 < link_rate 30

-- The part of `struct dp_host` and `struct dp_sink` that a link depends on; `support_tps n` is the bit
-- DP_SUPPORT_TPS(n).
pub record Caps : Type 0 where
  pub link_rate : ℕ
  pub num_lanes : ℕ
  pub support_tps : ℕ → Bool

pub record Link : Type 0 where
  pub link_rate : ℕ
  pub num_lanes : ℕ

-- The levels of a lane in `struct dp_host`.
pub record Lane : Type 0 where
  pub vol_swing_level : ℕ
  pub pre_empha_level : ℕ
  pub max_reach_value : ℕ

-- `struct dp_device`, and the training pattern of each end: 0 is normal data.
pub record Dp : Type 0 where
  pub host : Caps
  pub sink : Caps
  pub link : Link
  pub lanes : List Lane
  pub hw_pattern : ℕ
  pub sink_pattern : ℕ

abbrev pub host_lanes : ℕ → ℕ
host_lanes dp_lanes = if dp_lanes == 1 then 1 else if dp_lanes == 2 then 2 else 4

module _ (r : Rates) where
  -- The cases of dp_fill_host_caps for the module parameters dp_rate and dp_lanes.
  abbrev pub host_rate : ℕ → ℕ
  host_rate dp_rate =
      if dp_rate == 0
      then r.link_rate 6
      else if dp_rate == 1
      then r.link_rate 10
      else if dp_rate == 3
      then r.link_rate 30
      else r.link_rate 20

  pub fill_host_caps : ℕ → ℕ → Dp → Dp
  fill_host_caps dp_rate dp_lanes dp = record dp {
    host = record {
      link_rate = host_rate dp_rate;
      num_lanes = host_lanes dp_lanes;
      support_tps = λ n. ltb 0 n && ltb n 5;
    };
  }

  pub get_max_link_rate : Caps → Caps → ℕ
  get_max_link_rate host sink =
      if (host.link_rate == r.link_rate 6) && ltb sink.num_lanes 4
      then min (r.link_rate 10) sink.link_rate
      else min host.link_rate sink.link_rate

  pub is_valid_rate : ℕ → Bool
  is_valid_rate x =
      (x == r.link_rate 6)
      || (x == r.link_rate 10)
      || (x == r.link_rate 20)
      || (x == r.link_rate 30)

pub get_max_num_lanes : Caps → Caps → ℕ
get_max_num_lanes host sink = min host.num_lanes sink.num_lanes

pub is_valid_lanes : ℕ → Bool
is_valid_lanes n = (n == 1) || (n == 2) || (n == 4)

-- dp_get_supported_pattern.
pub get_supported_pattern : Dp → ℕ → Bool
get_supported_pattern dp n = dp.host.support_tps n && dp.sink.support_tps n

-- What keeps the ends of a link apart from the link itself.
pub with_link : Dp → Link → Dp
with_link dp l = record dp { link = l }
