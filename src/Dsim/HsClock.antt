-- ===== src/Dsim/HsClock.antt =====
-- The high speed clock of exynos_drm_dsim.c: dsim_calc_underrun, dsim_set_hs_clock,
-- dsim_update_clock_config, dsim_get_clock_mode and dsim_set_clock_mode.
-- A pointer to an entry of the PLL table is its index. Locks, register accesses and log messages are
-- not modelled; a restart of the link is a flag of the result.
pub mod Underrun
pub mod Store
pub mod Cases
pub mod StoreCases
pub mod Sync
pub mod Pending
pub mod Contract
pub mod Mode
use google_modules_display_s.Prelude.{
  ℕ, zero, suc, ◌+◌, ◌-◌, ◌*◌, ◌/◌, ◌%◌, Bool, true, false, not, ◌||◌, ◌&&◌, Option, none, some,
  List, [], ◌∷◌, ltb, ◌==◌, if◌then◌else◌, u32, u64, Ret, Errno, take, set, get_elem?, length,
  is_ok,
}
use google_modules_display_s.Dsim.Pll.{
  PllFeatures, Pms, Outcome, done, einval, undefined, calc_pmsk,
}
use google_modules_display_s.Dsim.State.{DsimState, PllParam, StdphyPms, Clks, Timing, Dsim}

-- The highest time of a frame, in ns: a difference of two `long`s, stored in 64 unsigned bits.
unfoldable pub max_frame_time : Timing → ℕ
max_frame_time t =
    let wrap : ℕ = 18446744073709551616 in
    (100000000000 / u32 (t.vrefresh * u32 (100 + t.te_var)) + wrap - 1000 * t.te_idle_us) % wrap

-- The word clock.
unfoldable pub word_clk : ℕ → ℕ
word_clk hs_clock_mhz = hs_clock_mhz * 1000000 / 16

-- The bytes of a frame: the pixels, and a header of 7 bytes for a line.
unfoldable pub frame_bytes : Timing → ℕ
frame_bytes t =
    let w_threshold = if t.dsc_enabled then t.hactive / 3 else t.hactive in
    let frame_data = u32 (u32 (t.vactive * w_threshold) * t.bpp) / 8 in
    let packet_header = u32 (t.vactive * 7) in frame_data + packet_header

-- The least time to transfer a frame, in ns.
unfoldable pub min_frame_time : Timing → ℕ → ℕ
min_frame_time t wclk = u64 (frame_bytes t * 1000000000) / u64 (u32 (2 * t.data_lane_cnt) * wclk)

-- `none` is -EINVAL, and otherwise what `*underrun` is set to.
unfoldable pub calc_underrun : Timing → ℕ → Option ℕ
calc_underrun t hs_clock_mhz =
    let wclk = word_clk hs_clock_mhz in
    let most = max_frame_time t in
    let least = min_frame_time t wclk in
    if ltb most least
    then none
    else some (u32 (u64 (u64 ((most - least) * wclk) / 1000000000 + 100 - 1) / 100))

-- `struct stdphy_pms` as dsim_update_clock_config fills it.
unfoldable pub pms_of : PllParam → StdphyPms
pms_of q = record {
  p = q.p;
  m = q.m;
  s = q.s;
  k = q.k;
  mfr = q.mfr;
  mrr = q.mrr;
  sel_pf = q.sel_pf;
  icp = q.icp;
  afc_enb = q.afc_enb;
  extafc = q.extafc;
  feed_en = q.feed_en;
  fsel = q.fsel;
  fout_mask = q.fout_mask;
  rsel = q.rsel;
  dither_en = q.dither_en;
}

unfoldable pub update_clks : PllParam → Clks → Clks
update_clks q c =
    if not (c.hs_clk == q.pll_freq)
    then (record {
      hs_clk = q.pll_freq;
      esc_clk = q.esc_freq;
      pending_hs_clk = 0;
      hs_clk_changed = true;
    })
    else (record {
      hs_clk = q.pll_freq;
      esc_clk = q.esc_freq;
      pending_hs_clk = c.pending_hs_clk;
      hs_clk_changed = if not (c.pending_hs_clk == 0) then true else c.hs_clk_changed;
    })

-- Without an underrun count the old one stays, under a warning.
unfoldable pub update_clock_config : PllParam → Dsim → Dsim
update_clock_config q d = record d {
  dphy_pms = pms_of q;
  clk_param = update_clks q d.clk_param;
  cmd_underrun_cnt =
      if not (q.cmd_underrun_cnt == 0) then q.cmd_underrun_cnt else d.cmd_underrun_cnt;
}

-- `!strncmp(mode->name, p->name, plen)`.
pub is_prefix : List ℕ → List ℕ → Bool
is_prefix [] ys = true
is_prefix (x ∷ xs) [] = false
is_prefix (x ∷ xs) (y ∷ ys) = (x == y) && is_prefix xs ys

-- The loop of dsim_get_clock_mode from entry `i` on, `ret` its fallback so far.
-- `DRM_DISPLAY_MODE_LEN` is 32.
pub search_mode : List PllParam → List ℕ → ℕ → Option ℕ → Option ℕ
search_mode [] name i ret = ret
search_mode (q ∷ qs) name i ret =
    let found = search_mode qs name (suc i) (some i) in
    let skipped = search_mode qs name (suc i) ret in
    if is_prefix (take 32 q.name) (take 32 name)
    then (if length (take 32 q.name) == length (take 32 name) then some i else found)
    else skipped

pub get_clock_mode : Dsim → List ℕ → Option ℕ
get_clock_mode d name = search_mode d.params name 0 none

-- What a call leaves behind: the host, the result, and whether the link was restarted.
pub record Step : Type 0 where
  pub dsim : Dsim
  pub ret : Ret
  pub restarted : Bool

-- From the point where `p` is found.
pub use_mode : Dsim → ℕ → PllParam → Dsim
use_mode d i q =
    let q' : PllParam = elim (calc_underrun d.timing q.pll_freq) [
      | none ↦ q
      | some u ↦ record q { cmd_underrun_cnt = u }
    ] in
    update_clock_config q' (record d { params = set d.params i q'; current = some i })

pub set_clock_mode : Dsim → List ℕ → Step
set_clock_mode d name = elim (get_clock_mode d name) [
  | none ↦ record { dsim = d; ret = some Errno.enoent; restarted = false }
  | some i ↦ elim (get_elem? d.params i) [
    | none ↦ record { dsim = d; ret = some Errno.enoent; restarted = false }
    | some q ↦ record { dsim = use_mode d i q; ret = none; restarted = false }
  ]
]

-- From the point where the new clock is known to differ.
unfoldable pub apply_clock : Dsim → ℕ → PllParam → Pms → ℕ → ℕ → Bool → Step
apply_clock d i q pms lp_underrun hs_clock apply_now =
    let q' = record q {
      pll_freq = hs_clock;
      p = pms.p;
      m = pms.m;
      s = pms.s;
      k = pms.k;
      cmd_underrun_cnt = lp_underrun;
    } in
    record {
      dsim = update_clock_config q' (record d { params = set d.params i q' });
      ret = none;
      restarted = apply_now && (elim d.state [ DsimState.hsclken ↦ true | _ ↦ false ]);
    }

pub fails : Dsim → Errno → Step
fails d e = record { dsim = d; ret = some e; restarted = false }

-- From dsim_calc_underrun on, which comes before the test of `current_pll_param`.
unfoldable pub with_pms : Dsim → Pms → ℕ → Bool → Step
with_pms d pms hs_clock apply_now = elim (calc_underrun d.timing hs_clock) [
  | none ↦ fails d Errno.einval
  | some u ↦ elim d.current [
    | none ↦ fails d Errno.eagain
    | some i ↦ elim (get_elem? d.params i) [
      | none ↦ fails d Errno.eagain
      | some q ↦
          if hs_clock == q.pll_freq
          then (record { dsim = d; ret = none; restarted = false })
          else apply_clock d i q pms u hs_clock apply_now
    ]
  ]
]

-- `none` is a run without a meaning in C.
unfoldable pub set_hs_clock : Dsim → ℕ → Bool → Option Step
set_hs_clock d hs_clock apply_now = elim d.features [
  | none ↦ some (fails d Errno.enodev)
  | some f ↦ elim (calc_pmsk f hs_clock) [
    | undefined ↦ none
    | einval ↦ some (fails d Errno.einval)
    | done pms ↦ some (with_pms d pms hs_clock apply_now)
  ]
]
