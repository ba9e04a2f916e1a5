-- ===== src/Bts/Frame.antt =====
-- exynos_drm_bts.c, dpu_bts_calc_bw: from the windows of a frame to the bandwidths, the peak and the
-- clock that the votes are made of. As compiled for CONFIG_SOC_ZUMA.
pub mod Covered
mod Tests
use google_modules_display_s.Prelude.{
  ℕ, zero, suc, ◌+◌, ◌-◌, ◌*◌, ◌/◌, ◌%◌, max, Bool, true, false, ◌||◌, ◌&&◌, not, Option, none,
  some, List, [], ◌∷◌, ltb, leb, ◌==◌, if◌then◌else◌, u32, sub32, mult_frac32, mult_frac64, get_or,
  set, replicate,
}
use google_modules_display_s.Format.{DrmFormat, DpuFmt, dpu_find_fmt_info, is_yuv}
use google_modules_display_s.Bts.{
  WinState, WinConfig, Params, RtBw, Bts, BwLatency, UrgentLat, Panel, Decon,
}
use google_modules_display_s.Bts.Clock.{get_vblank_time_ns}
use google_modules_display_s.Bts.Bandwidth.{
  is_buffer, no_rt, with_resol_clk, calc_disp_with_full_size, find_max_disp_freq,
}

-- `struct bts_dpp_info`, without the columns of the window.
pub record DppInfo : Type 0 where
  pub bpp : ℕ
  pub src_w : ℕ
  pub src_h : ℕ
  pub y1 : ℕ
  pub y2 : ℕ
  pub rotation : Bool
  pub is_afbc : Bool
  pub is_yuv : Bool

-- A format outside the table would be a NULL pointer here.
pub convert_config_to_info : WinConfig → Option DppInfo
convert_config_to_info w = elim (dpu_find_fmt_info w.format) [
  | none ↦ none
  | some f ↦ some (record {
    bpp = f.bpp + f.padding;
    src_w = w.src_w;
    src_h = w.src_h;
    y1 = w.dst_y;
    y2 = u32 (w.dst_y + w.dst_h);
    rotation = w.is_rot;
    is_afbc = w.is_comp;
    is_yuv = is_yuv f;
  })
]

-- `bw` and `rt_bw`. USEC_PER_SEC is a `long`, so the fraction for rotation has 64 bits.
pub calc_dpp_bw : DppInfo → ℕ → ℕ → ℕ → Params → ℕ × ℕ
calc_dpp_bw dpp fps lcd_h vblank_us p =
    let dst_h = sub32 dpp.y2 dpp.y1 in
    let avg = u32 (u32 (dpp.src_w * dpp.src_h * dpp.bpp) / 8 * fps) / 1000 in
    let rt = mult_frac32 avg (u32 (lcd_h * 11)) (u32 (dst_h * 10)) in
    let rot =
      if dpp.rotation
      then u32 (mult_frac64 (u32 (dpp.src_h * 32 * dpp.bpp) / 8) 1000000 vblank_us / 1000)
      else 0 in
    let rt' = max rt rot in
    if dpp.is_afbc
    then (
      mult_frac32 avg (if dpp.is_yuv then p.afbc_yuv_util_pct else p.afbc_rgb_util_pct) 100,
      mult_frac32 rt' (if dpp.is_yuv then p.afbc_yuv_rt_util_pct else p.afbc_rgb_rt_util_pct) 100,
    )
    else (avg, rt')

pub vblank_of : Decon → ℕ
vblank_of d = u32 (get_vblank_time_ns d / 1000 * d.params.rot_util_pct) / 100

-- `bw`, `rt_bw` and whether it is YUV, for one window.
pub window_bw : Decon → WinConfig → Option (ℕ × ℕ × Bool)
window_bw d w = elim (convert_config_to_info w) [
  | none ↦ none
  | some i ↦
      (let (bw, rt) = calc_dpp_bw i d.params.fps d.config.image_height (vblank_of d) d.params in
        some (bw, rt, i.is_yuv))
]

-- The sums over the windows: `read_bw`, `max_dpp_read_rt_bw`, `video_num`, and the `rt_bw` of each plane.
pub record Reads : Type 0 where
  pub read_bw : ℕ
  pub max_rt : ℕ
  pub video_num : ℕ
  pub rdma : List ℕ

-- The loop over the windows, from the first on.
pub read_windows : Decon → List WinConfig → Reads → Option Reads
read_windows d [] r = some r
read_windows d (w ∷ ws) r =
    if is_buffer w
    then elim (window_bw d w) [
      | none ↦ none
      | some (bw, rt, yuv) ↦ read_windows d ws (record {
        read_bw = u32 (r.read_bw + bw);
        max_rt = max r.max_rt rt;
        video_num = u32 (r.video_num + (if yuv then 1 else 0));
        rdma = set r.rdma w.dpp_id rt;
      })
    ]
    else read_windows d ws r

-- A window beside the planes, writeback or rounded corners: `bw` and `rt_bw`, 0 where it is off.
pub side_bw : Decon → WinConfig → Option (ℕ × ℕ)
side_bw d w =
    if is_buffer w
    then elim (window_bw d w) [ none ↦ none | some (bw, rt, yuv) ↦ some (bw, rt) ]
    else some (0, 0)

-- The loop that stores the bandwidth of each plane, from plane `i` on.
pub store_rt : List ℕ → WinConfig → ℕ → WinConfig → ℕ → ℕ → List RtBw → List RtBw
store_rt rdma wb wb_rt rcd rcd_rt i [] = []
store_rt rdma wb wb_rt rcd rcd_rt i (e ∷ es) =
    let val =
      if ltb i 14
      then get_or rdma i 0
      else if is_buffer wb && (i == wb.dpp_id)
      then wb_rt
      else if is_buffer rcd && (i == rcd.dpp_id)
      then rcd_rt
      else 0 in
    record e { val = val } ∷ store_rt rdma wb wb_rt rcd rcd_rt (suc i) es

-- The state before the choice of the clock, from what was read.
pub with_bw : Decon → Reads → ℕ × ℕ → ℕ × ℕ → Decon
with_bw d r wb rcd =
    let read = u32 (r.read_bw + rcd.0) in
    record d {
      bts = record d.bts {
        rt_bw = store_rt r.rdma d.bts.wb_config wb.1 d.bts.rcd_config rcd.1 0 d.bts.rt_bw;
        read_bw = read;
        write_bw = wb.0;
        total_bw = u32 (read + wb.0);
        max_dpp_read_rt_bw = max r.max_rt rcd.1;
        video_num = r.video_num;
      };
    }

pub find_max_dpp_read_rt_bw : List Decon → ℕ
find_max_dpp_read_rt_bw [] = 0
find_max_dpp_read_rt_bw (d ∷ ds) = max d.bts.max_dpp_read_rt_bw (find_max_dpp_read_rt_bw ds)

-- The first entry of the table that covers a bandwidth, or the last entry.
pub urgent_entry : ℕ → List BwLatency → ℕ
urgent_entry bw [] = 0
urgent_entry bw (e ∷ []) = e.latency_ns
urgent_entry bw (e ∷ e' ∷ es) =
    let rest = urgent_entry bw (e' ∷ es) in if leb bw e.bw_kbps then e.latency_ns else rest

pub calc_urgent_latency : List Decon → Decon → Decon
calc_urgent_latency others d =
    if d.bts_urgent_rd_lat.enabled
    then record d {
      bts = record d.bts {
        urgent_rd_lat =
            urgent_entry (find_max_dpp_read_rt_bw (d ∷ others)) d.bts_urgent_rd_lat.bw_lat_tbl;
      };
    }
    else d

-- The state without a bandwidth.
pub idle_bw : Decon → Decon
idle_bw d =
    let (d', freq) =
      calc_disp_with_full_size (record d { bts = record d.bts { peak = 0; rt_avg_bw = 0 } }) in
    record d' { bts = record d'.bts { max_disp_freq = freq } }

-- The clock and the peak, from the bandwidths.
pub choose_clock : List Decon → Decon → Decon
choose_clock others d = if d.bts.total_bw == 0 then idle_bw d else find_max_disp_freq others d

abbrev pub nothing_read : Reads
nothing_read = record { read_bw = 0; max_rt = 0; video_num = 0; rdma = replicate 14 0 }

-- From the writes to `rt_bw` on, with what was read for the windows, writeback and the rounded corners.
pub conclude_bw : List Decon → Decon → Option Reads → Option (ℕ × ℕ) → Option (ℕ × ℕ) → Option Decon
conclude_bw others d (some r) (some wb) (some rcd) =
    some (calc_urgent_latency others (choose_clock others (with_bw d r wb rcd)))
conclude_bw others d none wb rcd = none
conclude_bw others d (some r) none rcd = none
conclude_bw others d (some r) (some wb) none = none

-- dpu_bts_calc_bw behind its test of `enabled`; `none` for a format outside the table.
pub calc_enabled : List Decon → Decon → Option Decon
calc_enabled others d0 =
    let d = with_resol_clk d0 in
    conclude_bw others d (read_windows d d.bts.win_config nothing_read) (side_bw d d.bts.wb_config)
      (side_bw d d.bts.rcd_config)

-- dpu_bts_calc_bw beside the other controllers.
pub calc_bw : List Decon → Decon → Option Decon
calc_bw others d = if d.bts.enabled then calc_enabled others d else some d
