-- ===== src/Bts/Clock.antt =====
-- exynos_drm_bts.c, the clocks: latencies of the pipeline, the nearest frequency level, and the clock
-- that a window needs, with and without rotation.
pub mod Levels
pub mod Rotation
pub mod Floor
use google_modules_display_s.Prelude.{
  ℕ, zero, suc, ◌+◌, ◌-◌, ◌*◌, ◌/◌, ◌%◌, max, min, Bool, true, false, ◌||◌, ◌&&◌, not, List, [],
  ◌∷◌, ltb, leb, ◌==◌, if◌then◌else◌, u32, u64, sub32, div_round_up, mult_frac32, mult_frac64,
  get_or, length,
}
use google_modules_display_s.Bts.{WinConfig, Params, Panel, Decon}

-- `DIV_ROUND_UP(FRAME_TIME_NSEC, fps)` is kept in an `int`.
unfoldable pub get_one_line_time : ℕ → ℕ → ℕ → ℕ → ℕ → ℕ
get_one_line_time lcd_height vbp vfp vsa fps =
    let tot_v = u32 (lcd_height + vfp + vsa + vbp) in u32 (div_round_up 1000000000 fps) / tot_v

pub comp_latency : ℕ → ℕ → ℕ → ℕ
comp_latency src_w ppc line_delay = mult_frac32 src_w line_delay ppc

pub scale_latency : ℕ → ℕ → ℕ → ℕ → ℕ
scale_latency src_w dst_w ppc line_delay =
    if ltb dst_w src_w
    then mult_frac32 (u32 (src_w * line_delay)) src_w (u32 (dst_w * ppc))
    else u32 (u32 (src_w * line_delay) + ppc / 2) / ppc

-- `ROT_READ_BYTE` is 32.
pub rotate_latency : ℕ → ℕ → ℕ
rotate_latency src_w r_ppc = u32 (src_w * (32 / r_ppc))

pub dsc_latency : ℕ → ℕ → ℕ → ℕ → ℕ
dsc_latency slice_num dsc_cnt dst_w ppc =
    if slice_num == 2
    then if dsc_cnt == 1 then u32 (dst_w * 2) else u32 (dst_w * 25) / u32 (10 * ppc)
    else if slice_num == 4
    then u32 (dst_w * 35) / u32 (10 * ppc)
    else dst_w

pub convert_aclk_to_ns : ℕ → ℕ
convert_aclk_to_ns aclk_mhz = u32 (10000 * 100 / aclk_mhz)

-- The product of the resolution and the rate is a 32-bit one, that with the margin a 64-bit one.
unfoldable pub get_resol_clock : ℕ → ℕ → ℕ → ℕ
get_resol_clock xres yres fps =
    let margin = 1100 + 68000 / xres in u64 (u32 (xres * yres * fps) * margin) / 1000 / 1000

unfoldable pub get_vblank_time_ns : Decon → ℕ
unfolding get_one_line_time
get_vblank_time_ns d =
    let line_t_ns = get_one_line_time d.config.image_height p.vbp p.vfp p.vsa p.fps in
    if d.config.video_mode
    then u32 (u32 (p.vbp + p.vfp) * line_t_ns)
    else u32 (p.vblank_usec * 1000)
  where
    open d use {params as p}

-- The loop from the lowest level up. It would end with the index -1, a `u32` for the caller.
pub nearest_from : List ℕ → ℕ → ℕ → ℕ
nearest_from lv aclk_base zero = 4294967295
nearest_from lv aclk_base (suc i) =
    if leb aclk_base (get_or lv i 0) then i else nearest_from lv aclk_base i

pub find_nearest_high_freq : List ℕ → ℕ → ℕ
unfolding nearest_from
find_nearest_high_freq lv aclk_base =
    if ltb (get_or lv 0 0) aclk_base then 0 else nearest_from lv aclk_base (length lv)

-- The cycles of the modules on the path, and with them the cycles of DSI.
pub rotate_cycles : Decon → ℕ → ℕ → ℕ → Bool → Bool → Bool → ℕ
unfolding comp_latency rotate_latency scale_latency dsc_latency
rotate_cycles d ppc src_w dst_w is_comp is_downscale is_dsc =
    let first =
      if is_comp then comp_latency src_w ppc p.delay_comp else rotate_latency src_w p.ppc_rotator in
    let scale = if is_downscale then scale_latency src_w dst_w p.ppc_scaler p.delay_scaler else 0 in
    let dsc = if is_dsc then dsc_latency c.slice_count c.dsc_count dst_w ppc else 0 in
    let dsi = if is_dsc then u32 (c.image_width + 2) / 3 else c.image_width in
    let basic = u32 (u32 (c.image_width * 11) / 10 + dsi) / ppc in
    u32 (basic + u32 (first + scale + dsc))
  where
    open d use {params as p, config as c}

-- From the label `retry_hi_freq` on: the clock that the rotator needs when the display runs at
-- `rot_clk`.
pub rotate_need : Decon → ℕ → ℕ → ℕ → ℕ
unfolding convert_aclk_to_ns get_vblank_time_ns
rotate_need d cycles src_w rot_clk =
    let dpu_cycle = u32 (cycles + rot_clk * 2 / 1000) in
    let aclk_x_1k_ns = convert_aclk_to_ns (u32 (rot_clk / 1000)) in
    let dpu_lat_t_ns = mult_frac32 aclk_x_1k_ns dpu_cycle 1000 in
    let max_lat_t_ns = get_vblank_time_ns d in
    let tx_allow_t_ns =
      if ltb dpu_lat_t_ns max_lat_t_ns
      then max_lat_t_ns - dpu_lat_t_ns
      else u32 (max_lat_t_ns * d.params.bus_util_pct) / 100 in
    let bus_perf = u32 (d.params.bus_width * d.params.rot_util_pct) in
    let rot_init_bw = u32 (mult_frac64 1000000000 (u32 (src_w * 32 * 3)) tx_allow_t_ns / 1000) in
    u32 (rot_init_bw * 100) / bus_perf

-- The choice of the clock, with at most one retry at the next higher level; `need` is `rotate_need`.
pub rotate_choice : List ℕ → ℕ → (ℕ → ℕ) → ℕ
rotate_choice lv aclk_base need =
    let i = find_nearest_high_freq lv aclk_base in
    let clk = get_or lv i 0 in
    if ltb clk (need clk)
    then if i == 0
      then need clk
      else (let higher = get_or lv (i - 1) 0 in
          if ltb higher (need clk) then max higher (need higher) else need clk)
    else clk

pub calc_rotate_aclk : Decon → ℕ → ℕ → ℕ → ℕ → Bool → Bool → Bool → ℕ
calc_rotate_aclk d aclk_base ppc src_w dst_w is_comp is_downscale is_dsc =
    rotate_choice d.params.dfs_lv_khz aclk_base
      (rotate_need d (rotate_cycles d ppc src_w dst_w is_comp is_downscale is_dsc) src_w)

-- `ratio_v` and `ratio_a` of a vertical scale-down.
unfoldable pub down_ratio_v : ℕ → ℕ → ℕ
down_ratio_v src_h dst_h = u32 (src_h + dst_h - 1) / dst_h

unfoldable pub down_ratio_a : ℕ → ℕ → ℕ
unfolding down_ratio_v
down_ratio_a src_h dst_h =
    sub32 (u32 (down_ratio_v src_h dst_h * 1000)) (mult_frac32 src_h 1000 dst_h)

-- The pixels of the window in a frame of lines, times 1000 (`aclk_disp` before the frame rate).
unfoldable pub line_load : Panel → ℕ → ℕ → ℕ → ℕ → ℕ
unfolding down_ratio_v down_ratio_a
line_load c src_w src_h dst_w dst_h =
    let diff_w = if leb src_w dst_w then 0 else src_w - dst_w in
    let panel_w = u32 (c.image_width + diff_w) in
    if ltb dst_h src_h
    then (let ratio_v = down_ratio_v src_h dst_h in
        let ratio_a = down_ratio_a src_h dst_h in
        let widest = max src_w dst_w in
        let line_a = max (u32 (sub32 ratio_v 2 * src_w + widest)) panel_w in
        let line_b = max (u32 (sub32 ratio_v 1 * src_w + widest)) panel_w in
        u32 (line_a * ratio_a + line_b * sub32 1000 ratio_a))
    else (let ratio_v = if leb dst_h src_h then 1000 else mult_frac32 src_h 1000 dst_h in
        u32 (panel_w * ratio_v + c.image_width * sub32 1000 ratio_v))

-- The clock of a window before the floor that the panel sets.
unfoldable pub window_clock : Decon → WinConfig → ℕ → ℕ → ℕ
unfolding line_load
window_clock d w src_w src_h =
    let margin = 1100 + 68000 / c.image_width in
    let load = line_load c src_w src_h w.dst_w w.dst_h in
    let aclk_disp = mult_frac64 load (u32 (c.image_height * p.fps)) 1000 in
    let khz = u64 (aclk_disp * margin) / 1000 / 1000 in
    let comp =
      if not (p.afbc_clk_ppc_margin == 0) && w.is_comp
      then mult_frac64 khz p.afbc_clk_ppc_margin 100
      else khz in
    comp / p.ppc
  where
    open d use {params as p, config as c}

unfoldable pub calc_aclk_disp : Decon → WinConfig → ℕ → ℕ → ℕ
calc_aclk_disp d w resol_clk max_clk =
    let src_w = if w.is_rot then w.src_h else w.src_w in
    let src_h = if w.is_rot then w.src_w else w.src_h in
    let is_downscale = ltb w.dst_w src_w || ltb w.dst_h src_h in
    let is_dsc = d.config.dsc_enabled in
    let ppc = if is_dsc then min d.params.ppc d.config.dsc_count else d.params.ppc in
    let khz = max (window_clock d w src_w src_h) (resol_clk / ppc) in
    if w.is_rot
    then calc_rotate_aclk d (u32 (max khz max_clk)) ppc src_w w.dst_w w.is_comp is_downscale is_dsc
    else khz
