-- ===== src/Bts/Frame/Covered.antt =====
-- From the windows of a frame to the votes: what is voted for before the hardware takes the frame over
-- covers what its windows read.
use google_modules_display_s.Prelude.{
  ℕ, ◌+◌, ◌≤◌, ◌<◌, ◌≡◌, ◌≢◌, refl, sym, ap, ◌∙◌, Bool, true, false, Option, none, some, List, ◌∷◌,
  ◌==◌, if◌then◌else◌, u32, arith, get_or,
}
use mathlib.Core.Path.{subst}
use mathlib.Core.Option.{some-injective}
use google_modules_display_s.Bts.{Bts, Decon}
use google_modules_display_s.Bts.Bandwidth.{
  on_port, every, sum_overlap, sum_port, find_max_disp_freq, with_resol_clk,
  calc_disp_with_full_size,
}
use google_modules_display_s.Bts.Bandwidth.Lines.{load, need, InWords, load_same, need_same}
use google_modules_display_s.Bts.Bandwidth.Peak.{
  Kept, computed, peak_of, find_max-Kept, find_max_disp_freq-covers,
}
use google_modules_display_s.Bts.Vote.{update_resources}
use google_modules_display_s.Bts.Vote.Phases.{
  Votes, replay, Settled, update_resources-Covers, peak_kept,
}
use google_modules_display_s.Bts.Frame.{
  Reads, with_bw, calc_urgent_latency, idle_bw, choose_clock, conclude_bw, calc_enabled, calc_bw,
}

-- The state before the choice of the clock.
record Read (d0 d : Decon) : Type 0 where
  enabled : d.bts.enabled ≡ d0.bts.enabled
  prev_peak : d.bts.prev_peak ≡ d0.bts.prev_peak
  prev_rt_avg_bw : d.bts.prev_rt_avg_bw ≡ d0.bts.prev_rt_avg_bw
  prev_total_bw : d.bts.prev_total_bw ≡ d0.bts.prev_total_bw
  prev_max_disp_freq : d.bts.prev_max_disp_freq ≡ d0.bts.prev_max_disp_freq
  total : d.bts.total_bw ≡ u32 (d.bts.read_bw + d.bts.write_bw)

conclude_bw-Read :
    (others : List Decon) (d d1 : Decon) (r : Option Reads) (wb rcd : Option (ℕ × ℕ))
    → conclude_bw others d r wb rcd ≡ some d1
    → (d' : Decon) × Read d d' × (calc_urgent_latency others (choose_clock others d') ≡ d1)
unfolding conclude_bw with_bw
conclude_bw-Read others d d1 (some r) (some wb) (some rcd) h = (
  with_bw d r wb rcd,
  record {
    enabled = refl;
    prev_peak = refl;
    prev_rt_avg_bw = refl;
    prev_total_bw = refl;
    prev_max_disp_freq = refl;
    total = refl;
  },
  some-injective _ _ h,
)
conclude_bw-Read others d d1 none wb rcd h = absurd (ground (arith, h))
conclude_bw-Read others d d1 (some r) none rcd h = absurd (ground (arith, h))
conclude_bw-Read others d d1 (some r) (some wb) none h = absurd (ground (arith, h))

-- A result of dpu_bts_calc_bw comes from such a state.
calc_bw-Read :
    (others : List Decon) (d0 d1 : Decon)
    → d0.bts.enabled ≡ true
    → calc_bw others d0 ≡ some d1
    → (d : Decon) × Read d0 d × (calc_urgent_latency others (choose_clock others d) ≡ d1)
unfolding calc_bw calc_enabled
calc_bw-Read others d0 d1 on h =
    let taken : calc_bw others d0 ≡ calc_enabled others d0 =
      ap (λ t. if t then calc_enabled others d0 else some d0) on in
    let (d, r, e) = conclude_bw-Read others (with_resol_clk d0) d1 _ _ _ (sym taken ∙ h) in
    (
      d,
      record {
        enabled = r.enabled;
        prev_peak = r.prev_peak;
        prev_rt_avg_bw = r.prev_rt_avg_bw;
        prev_total_bw = r.prev_total_bw;
        prev_max_disp_freq = r.prev_max_disp_freq;
        total = r.total;
      },
      e,
    )

if-Kept :
    (t : Bool) (d d' : Decon)
    → Kept d.bts d'.bts
    → Kept d.bts d.bts
    → Kept d.bts (if t then d' else d).bts
if-Kept true d d' k same = k
if-Kept false d d' k same = same

urgent-Kept : (others : List Decon) (d : Decon) → Kept d.bts (calc_urgent_latency others d).bts
unfolding calc_urgent_latency
urgent-Kept others d =
    if-Kept d.bts_urgent_rd_lat.enabled d _
      (record {
        peak = refl;
        planes = refl;
        windows = refl;
        corner = refl;
        ports = refl;
        lines = refl;
        write = refl;
        enabled = refl;
        read_bw = refl;
        total_bw = refl;
        prev_peak = refl;
        prev_rt_avg_bw = refl;
        prev_total_bw = refl;
        prev_max_disp_freq = refl;
      })
      (record {
        peak = refl;
        planes = refl;
        windows = refl;
        corner = refl;
        ports = refl;
        lines = refl;
        write = refl;
        enabled = refl;
        read_bw = refl;
        total_bw = refl;
        prev_peak = refl;
        prev_rt_avg_bw = refl;
        prev_total_bw = refl;
        prev_max_disp_freq = refl;
      })

trans-Kept : (a b c : Bts) → Kept a b → Kept b c → Kept a c
trans-Kept a b c k l = record {
  peak = l.peak ∙ k.peak;
  planes = l.planes ∙ k.planes;
  windows = l.windows ∙ k.windows;
  corner = l.corner ∙ k.corner;
  ports = l.ports ∙ k.ports;
  lines = l.lines ∙ k.lines;
  write = l.write ∙ k.write;
  enabled = l.enabled ∙ k.enabled;
  read_bw = l.read_bw ∙ k.read_bw;
  total_bw = l.total_bw ∙ k.total_bw;
  prev_peak = l.prev_peak ∙ k.prev_peak;
  prev_rt_avg_bw = l.prev_rt_avg_bw ∙ k.prev_rt_avg_bw;
  prev_total_bw = l.prev_total_bw ∙ k.prev_total_bw;
  prev_max_disp_freq = l.prev_max_disp_freq ∙ k.prev_max_disp_freq;
}

-- Where there is something to read, the frame comes from dpu_bts_find_max_disp_freq.
frame-Kept :
    (others : List Decon) (d d1 : Decon)
    → d.bts.total_bw ≢ 0
    → calc_urgent_latency others (choose_clock others d) ≡ d1
    → Kept
        (record d.bts {
          peak = peak_of others d;
          ch_bw = (computed d.bts).ch_bw;
          rt_avg_bw = (computed d.bts).rt_avg_bw;
        })
        d1.bts
unfolding choose_clock
frame-Kept others d d1 some_bw e =
    let busy : (d.bts.total_bw == 0) ≡ false = ground (arith, some_bw) in
    let found : choose_clock others d ≡ find_max_disp_freq others d =
      ap (λ t. if t then idle_bw d else find_max_disp_freq others d) busy in
    let k = find_max-Kept others d in
    let l = urgent-Kept others (choose_clock others d) in
    rw e at (trans-Kept _ _ _ (rw (sym found) at k) l)

if_total :
    (t : Bool) (a b : Decon) (n : ℕ)
    → a.bts.total_bw ≡ n
    → b.bts.total_bw ≡ n
    → (if t then a else b).bts.total_bw ≡ n
if_total true a b n p q = p
if_total false a b n p q = q

choose_total :
    (others : List Decon) (d d1 : Decon)
    → calc_urgent_latency others (choose_clock others d) ≡ d1
    → d1.bts.total_bw ≡ d.bts.total_bw
unfolding choose_clock idle_bw calc_disp_with_full_size
choose_total others d d1 e =
    let k = (urgent-Kept others (choose_clock others d)).total_bw in
    ap (λ (x : Decon). x.bts.total_bw) (sym e)
    ∙ k
    ∙ if_total (d.bts.total_bw == 0) (idle_bw d) (find_max_disp_freq others d) _ refl
        (find_max-Kept others d).total_bw

-- For a frame that reads or writes something, and if no sum overflows, the update before the hardware
-- takes the frame over votes for a peak that covers what goes over each port of the bus on each line of
-- the panel.
pub calc_bw-covered :
    (others : List Decon) (d0 d1 : Decon) (v : Votes)
    → d0.bts.enabled ≡ true
    → calc_bw others d0 ≡ some d1
    → d1.bts.total_bw ≢ 0
    → Settled d0.bts v
    → InWords (d1.bts.rcd_config ∷ d1.bts.win_config)
    → need d1.bts every (d1.bts.rcd_config ∷ d1.bts.win_config) < 4294967296
    → ((c : ℕ) → get_or d1.bts.ch_bw c 0 + sum_port c others < 4294967296)
    → d1.bts.rt_avg_bw + sum_overlap others < 4294967296
    → (c y : ℕ) → c < 2
    → load d1.bts (on_port d1.bts c) (d1.bts.rcd_config ∷ d1.bts.win_config) y
      ≤ (replay (update_resources d1 false).1 v).bw.peak
calc_bw-covered others d0 d1 v on calc busy s r n ports lines c y h =
    let (d, before, e) = calc_bw-Read others d0 d1 on calc in
    let total = choose_total others d d1 e in
    let k = frame-Kept others d d1 (λ z. busy (total ∙ z)) e in
    let m = find_max-Kept others d in
    let on1 : d1.bts.enabled ≡ true = k.enabled ∙ before.enabled ∙ on in
    let s1 : Settled d1.bts v = record {
      disp = s.disp ∙ sym (k.prev_max_disp_freq ∙ before.prev_max_disp_freq);
      peak = s.peak ∙ sym (k.prev_peak ∙ before.prev_peak);
      rt = s.rt ∙ sym (k.prev_rt_avg_bw ∙ before.prev_rt_avg_bw);
      total = s.total ∙ sym (k.prev_total_bw ∙ before.prev_total_bw);
    } in
    let sum : d1.bts.total_bw ≡ u32 (d1.bts.read_bw + d1.bts.write_bw) =
      omega (arith, total, before.total, k.read_bw, k.write) in
    let cover = (update_resources-Covers d1 v on1 s1 sum).peak in
    let shown : (d1.bts.rcd_config ∷ d1.bts.win_config) ≡ d.bts.rcd_config ∷ d.bts.win_config =
      ap (λ w. w ∷ d1.bts.win_config) k.corner ∙ ap (λ ws. d.bts.rcd_config ∷ ws) k.windows in
    let fits =
      need_same d1.bts d.bts k.planes (d1.bts.rcd_config ∷ d1.bts.win_config)
      ∙ ap (need d.bts every) shown in
    let entries = λ (p : ℕ). ap (λ (x : List ℕ). get_or x p 0) k.ports in
    let line =
      (find_max_disp_freq-covers others d (subst InWords shown r) (omega (arith, n, fits))
          (λ p. omega (arith, ports p, entries p)) (omega (arith, lines, k.lines))).0
        c y h in
    let same = (load_same d1.bts d.bts c k.planes (d1.bts.rcd_config ∷ d1.bts.win_config) y).0 in
    let moved = ap (λ ws. load d.bts (on_port d.bts c) ws y) shown in
    omega (arith, same, moved, line, m.peak, k.peak, peak_kept d1 on1, cover)
