-- ===== src/Bts/Clock/Rotation.antt =====
-- The clock for a rotated window.
use google_modules_display_s.Prelude.{
  ℕ, ◌≡◌, ◌≤◌, ◌<◌, ◌-◌, List, length, get_or, arith, Bool, ltb, ◌&&◌, not, ◌==◌, if◌then◌else◌,
}
use google_modules_display_s.Bts.{Decon}
use google_modules_display_s.Bts.Clock.{
  find_nearest_high_freq, rotate_choice, rotate_cycles, rotate_need, calc_rotate_aclk,
}
use google_modules_display_s.Bts.Clock.Levels.{find_nearest_high_freq-IsNearest}

-- The table of levels starts with the highest.
abbrev pub Falling : List ℕ → Type 0
Falling lv = (i j : ℕ) → i ≤ j → j < length lv → get_or lv j 0 ≤ get_or lv i 0

-- `r` reaches `base` and a level `clk` of the table at which the rotator needs no more than `r`, not
-- below the nearest level above `base`. If `r` is above the level next to that one, it is just what the
-- rotator needs there.
pub record Serves (lv : List ℕ) (base : ℕ) (need : ℕ → ℕ) (r : ℕ) : Type 0 where
  pub floor : base ≤ r
  pub clk : ℕ
  pub reached : clk ≤ r
  pub enough : need clk ≤ r
  pub place : ℕ
  pub is_level : (place ≤ find_nearest_high_freq lv base) × (clk ≡ get_or lv place 0)
  pub level : get_or lv (find_nearest_high_freq lv base) 0 ≤ clk
  pub next :
      0 < find_nearest_high_freq lv base
      → get_or lv (find_nearest_high_freq lv base - 1) 0 < r
      → r ≡ need (get_or lv (find_nearest_high_freq lv base - 1) 0)

-- The level at which the choice stops.
abbrev pub served : ℕ → ℕ → ℕ → (ℕ → ℕ) → ℕ
served i clk higher need =
    if ltb clk (need clk) && not (i == 0) && ltb higher (need clk) then higher else clk

rotate_choice-Serves :
    (lv : List ℕ) (base : ℕ) (need : ℕ → ℕ)
    → 0 < length lv
    → Falling lv
    → base ≤ get_or lv 0 0
    → Serves lv base need (rotate_choice lv base need)
unfolding rotate_choice
rotate_choice-Serves lv base need some_level falling h =
    let i : ℕ = find_nearest_high_freq lv base in
    let near = (find_nearest_high_freq-IsNearest lv base some_level).0 h in
    let reaches = near.reaches in
    let up = falling (i - 1) i (omega arith) near.in_range in
    record {
      floor = ground arith;
      clk = served i (get_or lv i 0) (get_or lv (i - 1) 0) need;
      reached = ground arith;
      enough = ground arith;
      place =
          if ltb (get_or lv i 0) (need (get_or lv i 0))
            && not (i == 0)
            && ltb (get_or lv (i - 1) 0) (need (get_or lv i 0))
          then i - 1
          else i;
      is_level = ground arith;
      level = ground arith;
      next = λ some_next above. ground (arith, some_next, above, up);
    }

pub calc_rotate_aclk-Serves :
    (d : Decon) (base ppc src_w dst_w : ℕ) (is_comp is_downscale is_dsc : Bool)
    → 0 < length d.params.dfs_lv_khz
    → Falling d.params.dfs_lv_khz
    → base ≤ get_or d.params.dfs_lv_khz 0 0
    → Serves d.params.dfs_lv_khz base
        (rotate_need d (rotate_cycles d ppc src_w dst_w is_comp is_downscale is_dsc) src_w)
        (calc_rotate_aclk d base ppc src_w dst_w is_comp is_downscale is_dsc)
unfolding calc_rotate_aclk
calc_rotate_aclk-Serves d base ppc src_w dst_w is_comp is_downscale is_dsc some_level falling h =
    rotate_choice-Serves d.params.dfs_lv_khz base _ some_level falling h
