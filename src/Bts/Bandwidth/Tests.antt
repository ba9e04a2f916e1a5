-- ===== src/Bts/Bandwidth/Tests.antt =====
-- Two windows that overlap, one controller, and the witnesses of the theorems on bandwidths.
use google_modules_display_s.Prelude.{ℕ, ◌≤◌, ◌<◌, ◌≡◌, refl, arith, [], ◌∷◌, get_or}
use google_modules_display_s.Bts.{Bts}
use google_modules_display_s.Bts.Tests.{window, bts}
use google_modules_display_s.Bts.Bandwidth.{
  on_port, every, update_overlap_bw, update_disp_ch_bw, get_rt_bw, ch_num, is_win_half_covered,
  covering_bw, overlap_bw, under_rcd, overlaps, rcd_total, port_overlaps,
}
use google_modules_display_s.Bts.Bandwidth.Lines.{load, need, InWords}
use google_modules_display_s.Bts.Bandwidth.Lines.Least.{Tall, update_overlap_bw-Least}
use google_modules_display_s.Bts.Bandwidth.Ports.{update_disp_ch_bw-covers}

-- The upper half is read from plane 0 and the middle from plane 1, over one port.
abbrev pub two : Bts
two = record bts {
  rt_bw = record { val = 700; ch_num = 0 } ∷ record { val = 500; ch_num = 0 } ∷ [];
  win_config =
      record window { dst_h = 1560 }
      ∷ record window { dst_y = 1000; dst_h = 1000; dpp_id = 1 }
      ∷ [];
}

both_on_a_line :
    ((update_overlap_bw two).rt_avg_bw ≡ 1200)
    × (get_or (update_disp_ch_bw two).ch_bw 0 0 ≡ 1200)
    × (get_or (update_disp_ch_bw two).ch_bw 1 0 ≡ 0)
unfolding update_overlap_bw update_disp_ch_bw get_rt_bw ch_num is_win_half_covered covering_bw
    overlap_bw under_rcd overlaps rcd_total port_overlaps
both_on_a_line = (refl, refl, refl)

two-InWords : InWords (two.rcd_config ∷ two.win_config)
two-InWords = (omega arith, (omega arith, (omega arith, tt)))

two-Tall : Tall (two.rcd_config ∷ two.win_config)
two-Tall = (omega arith, (omega arith, (omega arith, tt)))

two_fit : need two every (two.rcd_config ∷ two.win_config) < 4294967296
unfolding need get_rt_bw
two_fit = omega arith

port_fits : need two (on_port two 0) (two.rcd_config ∷ two.win_config) < 4294967296
unfolding need get_rt_bw ch_num
port_fits = omega arith

update_overlap_bw-Least_example :
    ((y : ℕ)
      → load two every (two.rcd_config ∷ two.win_config) y ≤ (update_overlap_bw two).rt_avg_bw)
    × ((bound : ℕ)
        → ((y : ℕ) → load two every (two.rcd_config ∷ two.win_config) y ≤ bound)
        → (update_overlap_bw two).rt_avg_bw ≤ bound)
update_overlap_bw-Least_example = update_overlap_bw-Least two two-Tall two-InWords two_fit

update_disp_ch_bw-covers_example :
    load two (on_port two 0) (two.rcd_config ∷ two.win_config) 1200
    ≤ get_or (update_disp_ch_bw two).ch_bw 0 0
update_disp_ch_bw-covers_example =
    update_disp_ch_bw-covers two 0 (omega arith) two-InWords port_fits 1200
