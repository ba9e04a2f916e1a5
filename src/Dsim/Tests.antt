-- ===== src/Dsim/Tests.antt =====
-- The theorems on the DSI host at a PLL fed with 38.4 MHz and a panel of 1440 by 3120 pixels.
use google_modules_display_s.Prelude.{
  ◌+◌, ◌*◌, ◌/◌, ◌^◌, ◌≡◌, ◌<◌, refl, sym, ◌-◌, some, none, true, false, [], ◌∷◌, arith,
}
use mathlib.Core.Option.{some-injective}
use google_modules_display_s.Dsim.Pll.{
  PllFeatures, Pms, done, calc_pmsk, quotient, find_s, divider_p, int_part, frac_part, top_bit,
  finish, with_s,
}
use google_modules_display_s.Dsim.Pll.Fraction.{Rounded}
use google_modules_display_s.Dsim.Pll.Dividers.{Accepted, calc_pmsk-Accepted, calc_pmsk-Rounded}
use google_modules_display_s.Dsim.State.{Dsim, DsimState, PllParam, StdphyPms, Timing}
use google_modules_display_s.Dsim.HsClock.{
  calc_underrun, word_clk, max_frame_time, min_frame_time, set_hs_clock, pms_of, frame_bytes,
  update_clks, update_clock_config, apply_clock, with_pms,
}
use google_modules_display_s.Dsim.HsClock.Store.{
  values, Call, store, call, apply_pending, current_param, set_pending, store_clock, is_allowed,
  hs_clock_store,
}
use google_modules_display_s.Dsim.HsClock.Sync.{InSync, call-InSync}
use google_modules_display_s.Dsim.HsClock.Pending.{PendingDiffers}

abbrev features : PllFeatures
features = record {
  finput = 38400000;
  foptimum = 19200000;
  fout_min = 80000000;
  fout_max = 4500000000;
  fvco_min = 2000000000;
  fvco_max = 4500000000;
  p_min = 1;
  p_max = 63;
  m_min = 50;
  m_max = 1023;
  s_min = 0;
  s_max = 6;
  k_bits = 16;
}

abbrev dividers : Pms
dividers = record { p = 2; m = 73; s = 1; k = 36181 }

dividers_of_1393 : calc_pmsk features 1393 ≡ done dividers
unfolding divider_p find_s quotient int_part frac_part top_bit finish with_s calc_pmsk
dividers_of_1393 = refl

calc_pmsk-Accepted_example : Accepted features (1393 * 1000000) dividers
calc_pmsk-Accepted_example =
    calc_pmsk-Accepted features 1393 dividers (omega arith) (omega arith) (omega arith)
      (omega arith) dividers_of_1393

quotient_fits : quotient features 2 (1393 * 1000000 * 2 ^ 1) / 2 ^ 17 < 2 ^ 32
unfolding quotient
quotient_fits = omega arith

calc_pmsk-Rounded_example :
    Rounded (2 ^ 15) (1393 * 1000000 * 2 ^ 1 / 2 * 2 ^ (16 + 1) / (38400000 / 2)) 73 36181
calc_pmsk-Rounded_example =
    calc_pmsk-Rounded features 1393 15 dividers (omega arith) (omega arith) (omega arith)
      (omega arith) refl (omega arith) (omega arith) (omega arith) dividers_of_1393

abbrev timing : Timing
timing = record {
  vactive = 3120;
  hactive = 1440;
  vrefresh = 120;
  te_idle_us = 0;
  te_var = 1;
  data_lane_cnt = 4;
  dsc_enabled = true;
  bpp = 24;
}

count_at_1393 : calc_underrun timing 1393 ≡ some 1541
unfolding max_frame_time word_clk frame_bytes min_frame_time calc_underrun
count_at_1393 = refl

idle_fits : (max_frame_time timing - min_frame_time timing (word_clk 1393)) * word_clk 1393 < 2 ^ 64
unfolding max_frame_time word_clk frame_bytes min_frame_time calc_underrun
idle_fits = omega arith

abbrev entry : PllParam
entry = record {
  name = [];
  p = 2;
  m = 57;
  s = 1;
  k = 19115;
  mfr = 0;
  mrr = 0;
  sel_pf = 0;
  icp = 0;
  afc_enb = 0;
  extafc = 0;
  feed_en = 0;
  fsel = 0;
  fout_mask = 0;
  rsel = 0;
  dither_en = false;
  pll_freq = 1100;
  esc_freq = 20;
  cmd_underrun_cnt = 900;
}

abbrev pms_of_entry : StdphyPms
pms_of_entry = record {
  p = 2;
  m = 57;
  s = 1;
  k = 19115;
  mfr = 0;
  mrr = 0;
  sel_pf = 0;
  icp = 0;
  afc_enb = 0;
  extafc = 0;
  feed_en = 0;
  fsel = 0;
  fout_mask = 0;
  rsel = 0;
  dither_en = false;
}

abbrev host : Dsim
host = record {
  features = some features;
  params = entry ∷ [];
  current = some 0;
  allowed_hs_clks = none;
  force_set_hs_clk = false;
  timing = timing;
  dphy_pms = pms_of_entry;
  cmd_underrun_cnt = 900;
  clk_param = record { hs_clk = 1100; esc_clk = 20; pending_hs_clk = 1393; hs_clk_changed = false };
  state = DsimState.hsclken;
}

-- The entry that a new clock leaves, and the host.
abbrev next_entry : PllParam
next_entry = record entry { m = 73; k = 36181; pll_freq = 1393; cmd_underrun_cnt = 1541 }

abbrev next_host : Dsim
next_host = record host {
  params = next_entry ∷ [];
  dphy_pms = record pms_of_entry { m = 73; k = 36181 };
  cmd_underrun_cnt = 1541;
  clk_param = record { hs_clk = 1393; esc_clk = 20; pending_hs_clk = 0; hs_clk_changed = true };
}

abbrev to_1393 : Call
to_1393 = store (values 1393 true)

stored : call host to_1393 ≡ some (record { dsim = next_host; ret = none; restarted = true })
unfolding call hs_clock_store current_param is_allowed store_clock set_pending pms_of update_clks
    update_clock_config apply_clock with_pms set_hs_clock max_frame_time word_clk frame_bytes
    min_frame_time calc_underrun divider_p find_s quotient int_part frac_part top_bit finish with_s
    calc_pmsk
stored = refl

set_late : apply_pending host ≡ some (record { dsim = next_host; ret = none; restarted = false })
unfolding apply_pending pms_of update_clks update_clock_config apply_clock with_pms set_hs_clock
    max_frame_time word_clk frame_bytes min_frame_time calc_underrun divider_p find_s quotient
    int_part frac_part top_bit finish with_s calc_pmsk
set_late = refl

host-InSync : InSync host
unfolding current_param pms_of
host-InSync q e =
    let at : entry ≡ q = some-injective entry q e in
    rw (sym at) (record { hs_clk = refl; esc_clk = refl; dividers = refl; underrun = λ n. refl })

host-PendingDiffers : PendingDiffers host
host-PendingDiffers n = omega arith

call-InSync_example : InSync next_host
call-InSync_example =
    call-InSync host to_1393 (record { dsim = next_host; ret = none; restarted = true }) host-InSync
      stored
