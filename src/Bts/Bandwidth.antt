-- ===== src/Bts/Bandwidth.antt =====
-- exynos_drm_bts.c, the bandwidths: what each window reads, how much of it falls on one line of the
-- panel and on one port of the bus, and the peak and the clock that follow. As compiled for
-- CONFIG_SOC_ZUMA.
pub mod Lines
pub mod Ports
pub mod Peak
mod Tests
use google_modules_display_s.Prelude.{
  ℕ, zero, suc, ◌+◌, ◌-◌, ◌*◌, ◌/◌, ◌%◌, max, Bool, true, false, ◌||◌, ◌&&◌, not, Option, none,
  some, List, [], ◌∷◌, map, ltb, leb, ◌==◌, if◌then◌else◌, u32, u64, sub32, mult_frac32,
  mult_frac64, get_or, set, replicate,
}
use google_modules_display_s.Format.{DrmFormat, DpuFmt, dpu_find_fmt_info, is_yuv}
use google_modules_display_s.Bts.{
  WinState, WinConfig, Params, RtBw, Bts, BwLatency, UrgentLat, Panel, Decon,
}
use google_modules_display_s.Bts.Clock.{get_resol_clock, get_vblank_time_ns, calc_aclk_disp}

abbrev pub is_buffer : WinConfig → Bool
is_buffer w = elim w.state [ WinState.buffer ↦ true | _ ↦ false ]

abbrev pub is_shown : WinConfig → Bool
is_shown w = elim w.state [ WinState.disabled ↦ false | _ ↦ true ]

abbrev pub no_rt : RtBw
no_rt = record { val = 0; ch_num = 0 }

-- DPPCH2PLANE is the identity.
unfoldable pub get_rt_bw : Bts → WinConfig → ℕ
get_rt_bw b w = (get_or b.rt_bw w.dpp_id no_rt).val

unfoldable pub ch_num : Bts → WinConfig → ℕ
ch_num b w = (get_or b.rt_bw w.dpp_id no_rt).ch_num

-- `same` tells whether the pointers are equal.
unfoldable pub is_win_half_covered : Bool → WinConfig → WinConfig → Bool
is_win_half_covered same w0 w1 =
    same || (leb w1.dst_y w0.dst_y && ltb w0.dst_y (u32 (w1.dst_y + w1.dst_h)))

-- The inner loop, from window `j` on, for window `i`: the windows of `on` that cover its first line.
unfoldable pub covering_bw : Bts → (WinConfig → Bool) → ℕ → WinConfig → ℕ → List WinConfig → ℕ
covering_bw b on i wi j [] = 0
covering_bw b on i wi j (w ∷ ws) =
    let rest = covering_bw b on i wi (suc j) ws in
    if is_buffer w && (on w && is_win_half_covered (i == j) wi w)
    then u32 (get_rt_bw b w + rest)
    else rest

-- With the window of the rounded corners.
unfoldable pub overlap_bw :
    Bts → (WinConfig → Bool) → WinConfig → List WinConfig → ℕ → WinConfig → ℕ
overlap_bw b on rcd all i wi =
    let cover = covering_bw b on i wi 0 all in
    if is_buffer rcd && (on rcd && is_win_half_covered false wi rcd)
    then u32 (cover + get_rt_bw b rcd)
    else cover

-- What window `i` adds to the bandwidth on the first line of the rounded corners.
unfoldable pub under_rcd : Bts → (WinConfig → Bool) → WinConfig → WinConfig → ℕ → ℕ
under_rcd b on rcd wi sum =
    if is_buffer rcd && (on rcd && is_win_half_covered false rcd wi)
    then u32 (get_rt_bw b wi + sum)
    else sum

-- The outer loop, from window `i` on: `win_max_overlap_bw` and `rcd_max_overlap_bw`.
unfoldable pub overlaps :
    Bts → (WinConfig → Bool) → WinConfig → List WinConfig → ℕ → List WinConfig → ℕ × ℕ
overlaps b on rcd all i [] = (0, 0)
overlaps b on rcd all i (w ∷ ws) =
    let rest = overlaps b on rcd all (suc i) ws in
    if is_buffer w && on w
    then (max (overlap_bw b on rcd all i w) rest.0, under_rcd b on rcd w rest.1)
    else rest

unfoldable pub rcd_total : Bts → WinConfig → ℕ → ℕ
rcd_total b rcd sum = if is_buffer rcd then u32 (sum + get_rt_bw b rcd) else sum

abbrev pub every : WinConfig → Bool
every w = true

unfoldable pub update_overlap_bw : Bts → Bts
update_overlap_bw b =
    let (win, rcd) = overlaps b every b.rcd_config b.win_config 0 b.win_config in
    record b { rt_avg_bw = max win (rcd_total b b.rcd_config rcd) }

abbrev pub on_port : Bts → ℕ → WinConfig → Bool
on_port b c w = c == ch_num b w

-- The outer loop over the ports: `disp_ch_bw` and `rcd_overlap_ch_bw`.
unfoldable pub port_overlaps : Bts → WinConfig → List WinConfig → ℕ → List WinConfig → List ℕ × ℕ
port_overlaps b rcd all i [] = (replicate 2 0, 0)
port_overlaps b rcd all i (w ∷ ws) =
    let rest = port_overlaps b rcd all (suc i) ws in
    let c = ch_num b w in
    if is_buffer w && ltb c 2
    then (
      set rest.0 c (max (get_or rest.0 c 0) (overlap_bw b (on_port b c) rcd all i w)),
      under_rcd b (on_port b c) rcd w rest.1,
    )
    else rest

unfoldable pub update_disp_ch_bw : Bts → Bts
update_disp_ch_bw b =
    let (chs, sum) = port_overlaps b b.rcd_config b.win_config 0 b.win_config in
    let c = ch_num b b.rcd_config in
    record b {
      ch_bw =
          if is_buffer b.rcd_config && ltb c 2
          then set chs c (max (get_or chs c 0) (u32 (sum + get_rt_bw b b.rcd_config)))
          else chs;
    }

-- The sum of the bandwidths of all controllers, and the highest sum of a port.
unfoldable pub sum_overlap : List Decon → ℕ
sum_overlap [] = 0
sum_overlap (d ∷ ds) = u32 (d.bts.rt_avg_bw + sum_overlap ds)

unfoldable pub sum_port : ℕ → List Decon → ℕ
sum_port c [] = 0
sum_port c (d ∷ ds) = u32 (get_or d.bts.ch_bw c 0 + sum_port c ds)

unfoldable pub sum_all_decon_bw : List Decon → ℕ × ℕ
sum_all_decon_bw ds = (sum_overlap ds, max (sum_port 0 ds) (sum_port 1 ds))

abbrev pub full_window : Panel → WinConfig
full_window c = record {
  state = WinState.disabled;
  src_w = c.image_width;
  src_h = c.image_height;
  dst_x = 0;
  dst_y = 0;
  dst_w = c.image_width;
  dst_h = c.image_height;
  is_rot = false;
  is_comp = false;
  dpp_id = 0;
  format = DrmFormat.argb8888;
}

abbrev pub with_resol_clk : Decon → Decon
with_resol_clk d =
    let clk = u32 (get_resol_clock d.config.image_width d.config.image_height d.params.fps) in
    record d { bts = record d.bts { resol_clk = clk } }

-- The host after it, and the clock.
unfoldable pub calc_disp_with_full_size : Decon → Decon × ℕ
calc_disp_with_full_size d =
    let d' = with_resol_clk d in
    (d', u32 (calc_aclk_disp d' (full_window d.config) d'.bts.resol_clk d'.bts.resol_clk))

-- The loop over the windows that are shown.
unfoldable pub max_op_freq : Decon → List WinConfig → ℕ
max_op_freq d [] = 0
max_op_freq d (w ∷ ws) =
    let rest = max_op_freq d ws in
    if is_shown w
    then max (u32 (calc_aclk_disp d w d.bts.resol_clk d.bts.max_disp_freq)) rest
    else rest

-- The clock of the windows, or of a window of the full size if there is none.
unfoldable pub operating_freq : Decon → Decon × ℕ
operating_freq d =
    let freq = max_op_freq d d.bts.win_config in
    let full = calc_disp_with_full_size d in if freq == 0 then full else (d, freq)

-- dpu_bts_find_max_disp_freq, beside the other controllers.
unfoldable pub find_max_disp_freq : List Decon → Decon → Decon
find_max_disp_freq others d =
    let b = update_disp_ch_bw (update_overlap_bw d.bts) in
    let (overlap, port) = sum_all_decon_bw (record d { bts = b } ∷ others) in
    let bus = u32 (port * 100) / u32 (d.params.bus_width * d.params.bus_util_pct) in
    let peak = max port (max (overlap / 2) b.write_bw) in
    let (d', op) =
      operating_freq (record d { bts = record b { max_disp_freq = bus; peak = peak } }) in
    record d' { bts = record d'.bts { max_disp_freq = max bus op } }
