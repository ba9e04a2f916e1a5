-- ===== src/Bts/Bandwidth/Peak.antt =====
-- The peak that dpu_bts_find_max_disp_freq asks for.
use google_modules_display_s.Prelude.{
  ℕ, zero, suc, ◌+◌, ◌/◌, ◌≤◌, ◌<◌, ◌≡◌, refl, max, List, ◌∷◌, ◌==◌, u32, arith, Bool-cases, inl,
  inr, get_or,
}
use google_modules_display_s.Bts.{Bts, Decon}
use google_modules_display_s.Bts.Bandwidth.{
  on_port, every, update_overlap_bw, update_disp_ch_bw, sum_overlap, sum_port, sum_all_decon_bw,
  calc_disp_with_full_size, max_op_freq, operating_freq, find_max_disp_freq,
}
use google_modules_display_s.Bts.Bandwidth.Lines.{
  load, need, load_same, need_port, InWords, update_overlap_bw-covers,
}
use google_modules_display_s.Bts.Bandwidth.Ports.{update_disp_ch_bw-covers}

-- What the choice of the clock keeps.
pub record Kept (b b' : Bts) : Type 0 where
  pub peak : b'.peak ≡ b.peak
  pub planes : b'.rt_bw ≡ b.rt_bw
  pub windows : b'.win_config ≡ b.win_config
  pub corner : b'.rcd_config ≡ b.rcd_config
  pub ports : b'.ch_bw ≡ b.ch_bw
  pub lines : b'.rt_avg_bw ≡ b.rt_avg_bw
  pub write : b'.write_bw ≡ b.write_bw
  pub enabled : b'.enabled ≡ b.enabled
  pub read_bw : b'.read_bw ≡ b.read_bw
  pub total_bw : b'.total_bw ≡ b.total_bw
  pub prev_peak : b'.prev_peak ≡ b.prev_peak
  pub prev_rt_avg_bw : b'.prev_rt_avg_bw ≡ b.prev_rt_avg_bw
  pub prev_total_bw : b'.prev_total_bw ≡ b.prev_total_bw
  pub prev_max_disp_freq : b'.prev_max_disp_freq ≡ b.prev_max_disp_freq

same-Kept : (b : Bts) → Kept b b
same-Kept b = record {
  peak = refl;
  planes = refl;
  windows = refl;
  corner = refl;
  ports = refl;
  lines = refl;
  write = refl;
  enabled = refl;
  read_bw = refl;
  total_bw = refl;
  prev_peak = refl;
  prev_rt_avg_bw = refl;
  prev_total_bw = refl;
  prev_max_disp_freq = refl;
}

operating_freq-Kept : (d : Decon) → Kept d.bts (operating_freq d).0.bts
unfolding operating_freq calc_disp_with_full_size
operating_freq-Kept d = elim (Bool-cases (max_op_freq d d.bts.win_config == 0)) [
  | inl e ↦ rw e (record {
    peak = refl;
    planes = refl;
    windows = refl;
    corner = refl;
    ports = refl;
    lines = refl;
    write = refl;
    enabled = refl;
    read_bw = refl;
    total_bw = refl;
    prev_peak = refl;
    prev_rt_avg_bw = refl;
    prev_total_bw = refl;
    prev_max_disp_freq = refl;
  })
  | inr e ↦ rw e (same-Kept d.bts)
]

-- The bandwidths that dpu_bts_find_max_disp_freq computes first, and the peak from them.
pub computed : Bts → Bts
computed b = update_disp_ch_bw (update_overlap_bw b)

port_of : List Decon → Decon → ℕ → ℕ
port_of others d c = u32 (get_or (computed d.bts).ch_bw c 0 + sum_port c others)

overlap_of : List Decon → Decon → ℕ
overlap_of others d = u32 ((computed d.bts).rt_avg_bw + sum_overlap others)

pub peak_of : List Decon → Decon → ℕ
peak_of others d =
    max (max (port_of others d 0) (port_of others d 1))
      (max (overlap_of others d / 2) (computed d.bts).write_bw)

pub find_max-Kept :
    (others : List Decon) (d : Decon)
    → Kept
        (record d.bts {
          peak = peak_of others d;
          ch_bw = (computed d.bts).ch_bw;
          rt_avg_bw = (computed d.bts).rt_avg_bw;
        })
        (find_max_disp_freq others d).bts
unfolding find_max_disp_freq update_disp_ch_bw update_overlap_bw sum_all_decon_bw sum_port
    sum_overlap computed port_of overlap_of peak_of
find_max-Kept others d =
    let k = operating_freq-Kept _ in
    record {
      peak = k.peak;
      planes = k.planes;
      windows = k.windows;
      corner = k.corner;
      ports = k.ports;
      lines = k.lines;
      write = k.write;
      enabled = k.enabled;
      read_bw = k.read_bw;
      total_bw = k.total_bw;
      prev_peak = k.prev_peak;
      prev_rt_avg_bw = k.prev_rt_avg_bw;
      prev_total_bw = k.prev_total_bw;
      prev_max_disp_freq = k.prev_max_disp_freq;
    }

computed_lines : (b : Bts) → (computed b).rt_avg_bw ≡ (update_overlap_bw b).rt_avg_bw
unfolding computed update_disp_ch_bw
computed_lines b = ground arith

port_line :
    (b : Bts) (c y : ℕ)
    → c < 2
    → InWords (b.rcd_config ∷ b.win_config)
    → need b every (b.rcd_config ∷ b.win_config) < 4294967296
    → load b (on_port b c) (b.rcd_config ∷ b.win_config) y ≤ get_or (computed b).ch_bw c 0
unfolding computed update_overlap_bw
port_line b c y h r n =
    let b' = update_overlap_bw b in
    let same = load_same b b' c refl (b.rcd_config ∷ b.win_config) y in
    let fits = need_port b c (b.rcd_config ∷ b.win_config) in
    let covered = update_disp_ch_bw-covers b' c h r (omega (arith, n, same.1, fits)) y in
    omega (arith, same.0, covered)

port_peak :
    (others : List Decon) (d : Decon) (c : ℕ)
    → c < 2
    → get_or (computed d.bts).ch_bw c 0 + sum_port c others < 4294967296
    → get_or (computed d.bts).ch_bw c 0 ≤ peak_of others d
unfolding peak_of port_of
port_peak others d zero h fits = omega (arith, fits)
port_peak others d (suc zero) h fits = omega (arith, fits)
port_peak others d (suc (suc c)) h fits = absurd (omega arith)

half_peak :
    (others : List Decon) (d : Decon)
    → (computed d.bts).rt_avg_bw + sum_overlap others < 4294967296
    → (computed d.bts).rt_avg_bw / 2 ≤ peak_of others d
unfolding peak_of overlap_of
half_peak others d fits = omega (arith, fits)

write_peak : (others : List Decon) (d : Decon) → (computed d.bts).write_bw ≤ peak_of others d
unfolding peak_of
write_peak others d = omega arith

-- If no sum overflows, the peak that dpu_bts_find_max_disp_freq asks for is at least what goes over each
-- port of the bus on each line of the panel, half of what this controller reads on any line, and what it
-- writes back.
pub find_max_disp_freq-covers :
    (others : List Decon) (d : Decon)
    → InWords (d.bts.rcd_config ∷ d.bts.win_config)
    → need d.bts every (d.bts.rcd_config ∷ d.bts.win_config) < 4294967296
    → ((c : ℕ) → get_or (computed d.bts).ch_bw c 0 + sum_port c others < 4294967296)
    → (computed d.bts).rt_avg_bw + sum_overlap others < 4294967296
    → ((c y : ℕ)
        → c < 2
        → load d.bts (on_port d.bts c) (d.bts.rcd_config ∷ d.bts.win_config) y
          ≤ (find_max_disp_freq others d).bts.peak)
      × ((y : ℕ)
          → load d.bts every (d.bts.rcd_config ∷ d.bts.win_config) y / 2
            ≤ (find_max_disp_freq others d).bts.peak)
      × ((computed d.bts).write_bw ≤ (find_max_disp_freq others d).bts.peak)
find_max_disp_freq-covers others d r n ports lines =
    let k = (find_max-Kept others d).peak in
    (
      λ c y h.
          let entry = port_line d.bts c y h r n in
          let chosen = port_peak others d c h (ports c) in omega (arith, entry, chosen, k),
      λ y.
          let line = update_overlap_bw-covers d.bts r n y in
          let half = half_peak others d lines in omega (arith, line, computed_lines d.bts, half, k),
      omega (arith, k, write_peak others d),
    )
