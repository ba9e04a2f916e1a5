-- ===== src/Dsim/HsClock/Underrun.antt =====
-- dsim_calc_underrun against the time that a frame leaves to the low power state.
use google_modules_display_s.Prelude.{
  ℕ, ◌+◌, ◌-◌, ◌*◌, ◌/◌, ◌^◌, ◌<◌, ◌≡◌, ◌≢◌, ◌↔◌, some, none, arith, u32,
}
use google_modules_display_s.Dsim.State.{Timing}
use google_modules_display_s.Dsim.HsClock.{calc_underrun, word_clk, max_frame_time, min_frame_time}

-- With the frame's time at hand: u counts the idle word clocks by 100, rounded up.
pub record CoversIdle (idle_ns wclk u : ℕ) : Type 0 where
  pub enough : idle_ns * wclk < (100 * u + 1) * 1000000000
  pub tight : 100 * u * 1000000000 < idle_ns * wclk + 100 * 1000000000

idle_bounds :
    (x u : ℕ)
    → u ≡ (x / 1000000000 + 99) / 100
    → (x < (100 * u + 1) * 1000000000) × (100 * u * 1000000000 < x + 100 * 1000000000)
idle_bounds x u e = omega arith

-- dsim_calc_underrun accepts a clock exactly if the least time of a frame's transfer is at most the
-- highest time of a frame. The count that it then gives, in units of 100 word clocks, is the time that
-- is left rounded up, with the word clocks rounded down first. Condition: the time that
-- is left, in ns, times the word clock is below 2 ^ 64.
pub calc_underrun-CoversIdle :
    (t : Timing) (c : ℕ)
    → (max_frame_time t - min_frame_time t (word_clk c)) * word_clk c < 2 ^ 64
    → ((calc_underrun t c ≡ none) ↔ (max_frame_time t < min_frame_time t (word_clk c)))
      × ((u : ℕ)
          → calc_underrun t c ≡ some u
          → CoversIdle (max_frame_time t - min_frame_time t (word_clk c)) (word_clk c) u)
unfolding calc_underrun
calc_underrun-CoversIdle t c fits =
    let idle : (u : ℕ)
        → calc_underrun t c ≡ some u
        → CoversIdle (max_frame_time t - min_frame_time t (word_clk c)) (word_clk c) u =
      λ u e.
        (let r =
            idle_bounds ((max_frame_time t - min_frame_time t (word_clk c)) * word_clk c) u
              (ground arith) in
          record { enough = r.0; tight = r.1 }) in
    (ground arith, idle)

-- If the idle time of the TE signal is longer than a frame, then their difference wraps, and every
-- clock whose frame takes less than 2 ^ 63 ns is accepted. Condition: the idle time is below 2 ^ 32 us.
pub calc_underrun_wraps :
    (t : Timing) (c : ℕ)
    → t.te_idle_us < 2 ^ 32
    → 100000000000 / u32 (t.vrefresh * u32 (100 + t.te_var)) < 1000 * t.te_idle_us
    → min_frame_time t (word_clk c) < 2 ^ 63
    → calc_underrun t c ≢ none
unfolding calc_underrun max_frame_time
calc_underrun_wraps t c w longer least = ground arith
