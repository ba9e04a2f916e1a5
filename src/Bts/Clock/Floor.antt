-- ===== src/Bts/Clock/Floor.antt =====
-- Bounds on the clock of a window.
use google_modules_display_s.Prelude.{
  ℕ, ◌+◌, ◌*◌, ◌/◌, ◌%◌, ◌≤◌, ◌<◌, ◌-◌, ◌≡◌, ◌^◌, length, get_or, arith, max, min, Bool, true, ltb,
  mult_frac32-eq_div, le_of_mul_lt, u32, if◌then◌else◌, Bool-cases, inl, inr, ◌||◌,
}
use native.Mathlib.Nat.{lt-mul-div-succ, div-mul-le_self, mod-eq_of_lt}
use google_modules_display_s.Bts.{Decon, WinConfig}
use google_modules_display_s.Bts.Clock.{
  down_ratio_v, down_ratio_a, window_clock, calc_rotate_aclk, calc_aclk_disp,
}
use google_modules_display_s.Bts.Clock.Rotation.{Falling, calc_rotate_aclk-Serves}

-- The number of pixels that the panel takes in a cycle.
abbrev pub panel_ppc : Decon → ℕ
panel_ppc d = if d.config.dsc_enabled then min d.params.ppc d.config.dsc_count else d.params.ppc

rotated_floor :
    (d : Decon) (x ppc src_w dst_w : ℕ) (is_comp is_downscale is_dsc : Bool)
    → 0 < length d.params.dfs_lv_khz
    → Falling d.params.dfs_lv_khz
    → get_or d.params.dfs_lv_khz 0 0 < 2 ^ 32
    → x ≤ get_or d.params.dfs_lv_khz 0 0
    → x ≤ calc_rotate_aclk d (u32 x) ppc src_w dst_w is_comp is_downscale is_dsc
rotated_floor d x ppc src_w dst_w is_comp is_downscale is_dsc some_level falling small h =
    let s =
      calc_rotate_aclk-Serves d (u32 x) ppc src_w dst_w is_comp is_downscale is_dsc some_level
        falling (omega arith) in
    let floor = s.floor in omega arith

-- Every window, rotated or not, gets at least the clock of the panel, and a rotated one at least the
-- clock that the bus asks for, if these clocks are below 2 ^ 32 and the highest level, in a falling
-- table, reaches them.
pub calc_aclk_disp_floor :
    (d : Decon) (w : WinConfig) (resol_clk max_clk : ℕ)
    → 0 < length d.params.dfs_lv_khz
    → Falling d.params.dfs_lv_khz
    → get_or d.params.dfs_lv_khz 0 0 < 2 ^ 32
    → resol_clk / panel_ppc d ≤ get_or d.params.dfs_lv_khz 0 0
    → window_clock d w w.src_h w.src_w ≤ get_or d.params.dfs_lv_khz 0 0
    → max_clk ≤ get_or d.params.dfs_lv_khz 0 0
    → (resol_clk / panel_ppc d ≤ calc_aclk_disp d w resol_clk max_clk)
      × (w.is_rot ≡ true → max_clk ≤ calc_aclk_disp d w resol_clk max_clk)
unfolding calc_aclk_disp
calc_aclk_disp_floor d w resol_clk max_clk some_level falling small panel_in window_in max_in =
    elim (Bool-cases w.is_rot) [
      | inl rot ↦
          let load : ℕ = window_clock d w w.src_h w.src_w in
          let floor =
            rotated_floor d (max (max load (resol_clk / panel_ppc d)) max_clk) (panel_ppc d) w.src_h
              w.dst_w w.is_comp (ltb w.dst_w w.src_h || ltb w.dst_h w.src_w) d.config.dsc_enabled
              some_level falling small (omega arith) in
          rw rot (ground arith)
      | inr plain ↦ rw plain (ground arith)
    ]

ratio_v-bounds :
    (h d : ℕ)
    → 0 < d
    → h + d < 4294967296
    → (h ≤ down_ratio_v h d * d) × (down_ratio_v h d * d < h + d)
unfolding down_ratio_v
ratio_v-bounds h d pos small =
    let up = lt-mul-div-succ (h + d - 1) pos in
    let low = div-mul-le_self (h + d - 1) d in
    let fits : (h + d - 1) % 4294967296 ≡ h + d - 1 = mod-eq_of_lt (omega arith) in
    rw fits (omega arith)

-- The weight of a vertical scale-down is a share of 1000, so that `1000 - ratio_a` does not wrap, and
-- it makes up the ratio: ratio_v * 1000 is ratio_a and the thousandfold ratio rounded down. The heights are
-- those of a frame: 0 < dst_h < src_h, and the products below 2 ^ 32.
pub down_ratio_a_bounds :
    (src_h dst_h : ℕ)
    → 0 < dst_h
    → dst_h < src_h
    → src_h < 2147483
    → (down_ratio_a src_h dst_h ≤ 1000)
      × (down_ratio_a src_h dst_h + src_h * 1000 / dst_h ≡ down_ratio_v src_h dst_h * 1000)
unfolding down_ratio_a
down_ratio_a_bounds src_h dst_h pos scaled small =
    let v : ℕ = down_ratio_v src_h dst_h in
    let e = mult_frac32-eq_div src_h 1000 dst_h pos (omega arith) in
    let b = ratio_v-bounds src_h dst_h pos (omega arith) in
    let up = lt-mul-div-succ (src_h * 1000) pos in
    let low = div-mul-le_self (src_h * 1000) dst_h in
    let w : ℕ = src_h * 1000 / dst_h in
    let above = le_of_mul_lt w (v * 1000) dst_h (omega arith) in
    let below = le_of_mul_lt (v * 1000) (w + 1000) dst_h (omega arith) in
    let little : v ≤ v * dst_h = grind arith in rw e (omega arith)
