-- ===== src/Bts/Frame/Tests.antt =====
-- A frame with two windows, from its windows to the votes.
use google_modules_display_s.Prelude.{
  ℕ, suc, zero, ◌+◌, ◌≤◌, ◌<◌, ◌≡◌, ap, refl, arith, List, [], ◌∷◌, get_or, some, none, Option,
  replicate, false,
}
use google_modules_display_s.Format.{dpu_find_fmt_info, DrmFormat-discrete}
use google_modules_display_s.Bts.{Decon}
use google_modules_display_s.Bts.Tests.{window, bts, decon, votes}
use google_modules_display_s.Bts.Clock.{
  down_ratio_a, down_ratio_v, get_resol_clock, calc_aclk_disp, line_load, window_clock,
}
use google_modules_display_s.Bts.Bandwidth.{
  on_port, every, update_overlap_bw, update_disp_ch_bw, find_max_disp_freq, get_rt_bw, ch_num,
  is_win_half_covered, covering_bw, overlap_bw, under_rcd, overlaps, rcd_total, port_overlaps,
  sum_port, sum_overlap, sum_all_decon_bw, operating_freq, max_op_freq, calc_disp_with_full_size,
}
use google_modules_display_s.Bts.Bandwidth.Lines.{load, need, InWords}
use google_modules_display_s.Bts.Vote.{update_resources}
use google_modules_display_s.Bts.Vote.Phases.{replay}
use google_modules_display_s.Bts.Frame.{
  calc_bw, calc_enabled, conclude_bw, with_bw, read_windows, side_bw, window_bw,
  convert_config_to_info, calc_dpp_bw, vblank_of, store_rt, choose_clock, calc_urgent_latency,
  idle_bw, find_max_dpp_read_rt_bw, urgent_entry,
}
use google_modules_display_s.Bts.Frame.Covered.{calc_bw-covered}

-- The upper half of the panel from plane 0, and the middle from plane 1.
abbrev frame : Decon
frame = record decon {
  bts = record bts {
    rt_bw = replicate 20 (record { val = 0; ch_num = 0 });
    win_config =
        record window { src_h = 1560; dst_h = 1560 }
        ∷ record window { src_h = 1000; dst_y = 1000; dst_h = 1000; dpp_id = 1 }
        ∷ [];
  };
}

abbrev or_frame : Option Decon → Decon
or_frame none = frame
or_frame (some d) = d

abbrev calculated : Decon
calculated = or_frame (calc_bw [] frame)

frame-calculated : calc_bw [] frame ≡ some calculated
unfolding calc_bw calc_enabled conclude_bw read_windows side_bw window_bw convert_config_to_info
    dpu_find_fmt_info DrmFormat-discrete
frame-calculated = refl

-- In KB/s; the panel is read at 60 frames a second.
numbers :
    (calculated.bts.total_bw ≡ 884736)
    × (calculated.bts.rt_avg_bw ≡ 2372198)
    × (calculated.bts.peak ≡ 2372198)
    × (calculated.bts.ch_bw ≡ 2372198 ∷ 0 ∷ [])
unfolding calc_bw calc_enabled conclude_bw read_windows side_bw window_bw convert_config_to_info
    dpu_find_fmt_info DrmFormat-discrete calc_urgent_latency choose_clock with_bw calc_dpp_bw
    find_max_disp_freq operating_freq max_op_freq update_disp_ch_bw calc_disp_with_full_size ch_num
    covering_bw get_rt_bw is_win_half_covered overlap_bw overlaps port_overlaps rcd_total
    sum_all_decon_bw sum_overlap sum_port under_rcd update_overlap_bw calc_aclk_disp down_ratio_a
    down_ratio_v get_resol_clock line_load window_clock find_max_dpp_read_rt_bw idle_bw store_rt
    urgent_entry vblank_of
numbers = (refl, refl, refl, refl)

calculated-InWords : InWords (calculated.bts.rcd_config ∷ calculated.bts.win_config)
unfolding calc_bw calc_enabled conclude_bw read_windows side_bw window_bw convert_config_to_info
    dpu_find_fmt_info DrmFormat-discrete calc_urgent_latency choose_clock with_bw calc_dpp_bw
    find_max_disp_freq operating_freq max_op_freq update_disp_ch_bw calc_disp_with_full_size ch_num
    covering_bw get_rt_bw is_win_half_covered overlap_bw overlaps port_overlaps rcd_total
    sum_all_decon_bw sum_overlap sum_port under_rcd update_overlap_bw calc_aclk_disp down_ratio_a
    down_ratio_v get_resol_clock line_load window_clock find_max_dpp_read_rt_bw idle_bw store_rt
    urgent_entry vblank_of
calculated-InWords = (omega arith, (omega arith, (omega arith, tt)))

calculated_fits :
    need calculated.bts every (calculated.bts.rcd_config ∷ calculated.bts.win_config) < 4294967296
unfolding need calc_bw calc_enabled conclude_bw read_windows side_bw window_bw
    convert_config_to_info dpu_find_fmt_info DrmFormat-discrete calc_urgent_latency choose_clock
    with_bw calc_dpp_bw find_max_disp_freq operating_freq max_op_freq update_disp_ch_bw
    calc_disp_with_full_size ch_num covering_bw get_rt_bw is_win_half_covered overlap_bw overlaps
    port_overlaps rcd_total sum_all_decon_bw sum_overlap sum_port under_rcd update_overlap_bw
    calc_aclk_disp down_ratio_a down_ratio_v get_resol_clock line_load window_clock
    find_max_dpp_read_rt_bw idle_bw store_rt urgent_entry vblank_of
calculated_fits = omega arith

ports_fit : (c : ℕ) → get_or calculated.bts.ch_bw c 0 + sum_port c [] < 4294967296
unfolding sum_port
ports_fit zero = omega (arith, ap (λ (x : List ℕ). get_or x 0 0) numbers.3)
ports_fit (suc zero) = omega (arith, ap (λ (x : List ℕ). get_or x 1 0) numbers.3)
ports_fit (suc (suc c)) = omega (arith, ap (λ (x : List ℕ). get_or x (suc (suc c)) 0) numbers.3)

calc_bw-covered_example :
    load calculated.bts
      (on_port calculated.bts 0)
      (calculated.bts.rcd_config ∷ calculated.bts.win_config)
      1200
    ≤ (replay (update_resources calculated false).1 votes).bw.peak
unfolding sum_overlap
calc_bw-covered_example =
    calc_bw-covered [] frame calculated votes refl frame-calculated
      (λ z. omega (arith, z, numbers.0)) (omega arith) calculated-InWords calculated_fits ports_fit
      (omega (arith, numbers.1)) 0 1200 (omega arith)
