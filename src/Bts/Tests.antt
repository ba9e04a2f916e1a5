-- ===== src/Bts/Tests.antt =====
-- The theorems on clocks and votes at a phone panel of 1440 by 3120 pixels.
use google_modules_display_s.Prelude.{ℕ, ◌≤◌, true, false, ◌≡◌, refl, List, [], ◌∷◌, arith}
use google_modules_display_s.Format.{DrmFormat}
use google_modules_display_s.Bts.{WinState, WinConfig, Params, Bts, Decon}
use google_modules_display_s.Bts.Clock.{window_clock}
use google_modules_display_s.Bts.Vote.{update_resources}
use google_modules_display_s.Bts.Vote.Phases.{
  Votes, replay, Settled, Covers, update_resources-Covers, update_resources_settles,
}

abbrev levels : List ℕ
levels = 664000 ∷ 444000 ∷ 267000 ∷ 133000 ∷ []

abbrev pub window : WinConfig
window = record {
  state = WinState.buffer;
  src_w = 1440;
  src_h = 3120;
  dst_x = 0;
  dst_y = 0;
  dst_w = 1440;
  dst_h = 3120;
  is_rot = false;
  is_comp = false;
  dpp_id = 0;
  format = DrmFormat.argb8888;
}

abbrev pub unused : WinConfig
unused = record window { state = WinState.disabled }

abbrev params : Params
params = record {
  ppc = 2;
  ppc_rotator = 8;
  ppc_scaler = 4;
  delay_comp = 4;
  delay_scaler = 2;
  bus_width = 32;
  bus_util_pct = 65;
  rot_util_pct = 60;
  afbc_rgb_util_pct = 100;
  afbc_yuv_util_pct = 100;
  afbc_rgb_rt_util_pct = 100;
  afbc_yuv_rt_util_pct = 100;
  afbc_clk_ppc_margin = 0;
  dfs_lv_khz = levels;
  max_dfs_lv_for_wb = 0;
  vbp = 10;
  vfp = 20;
  vsa = 2;
  fps = 60;
  vblank_usec = 100;
  bw_idx = 1;
  urgent_rd_lat_index = 4 ∷ 5 ∷ [];
}

-- The peak falls and the total rises.
abbrev pub bts : Bts
bts = record {
  enabled = true;
  resol_clk = 300000;
  peak = 800;
  prev_peak = 900;
  rt_avg_bw = 700;
  prev_rt_avg_bw = 700;
  read_bw = 1500;
  write_bw = 100;
  total_bw = 1600;
  prev_total_bw = 1400;
  urgent_rd_lat = 0;
  prev_urgent_rd_lat = 0;
  max_disp_freq = 300000;
  prev_max_disp_freq = 200000;
  max_dpp_read_rt_bw = 700;
  video_num = 0;
  rt_bw = record { val = 700; ch_num = 0 } ∷ record { val = 0; ch_num = 1 } ∷ [];
  ch_bw = 700 ∷ 0 ∷ [];
  win_config = window ∷ unused ∷ [];
  wb_config = unused;
  rcd_config = unused;
}

abbrev pub decon : Decon
decon = record {
  config = record {
    image_width = 1440;
    image_height = 3120;
    video_mode = false;
    dsc_enabled = true;
    dsc_count = 2;
    slice_count = 2;
  };
  params = params;
  bts = bts;
  bts_scen = record {
    enabled = true;
    voted = false;
    skip_with_video = false;
    min_panel_width = 1080;
    min_panel_height = 2000;
    min_fps = 60;
    min_rt_bw = 100;
    max_rt_bw = 5000;
    min_peak_bw = 100;
    max_peak_bw = 5000;
    idx = 3;
  };
  bts_urgent_rd_lat = record { enabled = false; bw_lat_tbl = [] };
}

abbrev pub votes : Votes
votes = record { bw = record { peak = 900; rt = 700; read = 1400; write = 0 }; disp = 200000 }

window_clock-small : window_clock decon window 3120 1440 ≤ 664000
unfolding window_clock
window_clock-small = omega arith

settled : Settled bts votes
settled = omega arith

update_resources-Covers_example :
    Covers (update_resources decon false).0.bts (replay (update_resources decon false).1 votes)
update_resources-Covers_example = update_resources-Covers decon votes refl settled refl

update_resources_settles_example :
    (update_resources (update_resources decon false).0 true).0.bts.prev_total_bw ≡ 1600
update_resources_settles_example = (update_resources_settles decon votes refl settled refl).1
