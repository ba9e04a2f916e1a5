-- ===== src/Dsim/HsClock/Contract.antt =====
-- What dsim_set_hs_clock and the disable with a pending clock promise.
use google_modules_display_s.Prelude.{
  ℕ, ◌≡◌, ◌≢◌, ◌⊎◌, inl, inr, refl, sym, ap, some, Bool, true, false, arith, get_elem?,
  get_elem?-set-some, is_ok, ◌∙◌, ◌&&◌, if◌then◌else◌, ◌==◌,
}
use google_modules_display_s.Dsim.Pll.{Pms, PllFeatures, calc_pmsk, done}
use google_modules_display_s.Dsim.State.{Dsim, DsimState, PllParam}
use google_modules_display_s.Dsim.HsClock.{
  Step, update_clock_config, update_clks, apply_clock, set_hs_clock, pms_of, calc_underrun,
}
use google_modules_display_s.Dsim.HsClock.Store.{current_param, apply_pending}
use google_modules_display_s.Dsim.HsClock.Cases.{Unchanged, current_param-entry, set_hs_clock-cases}
use google_modules_display_s.Dsim.HsClock.Sync.{InSync, set_hs_clock-InSync}
use google_modules_display_s.Dsim.HsClock.Pending.{PendingDiffers}

-- The result `st` of setting the clock `hs` of host `d`.
pub record ClockSet (d : Dsim) (hs : ℕ) (now : Bool) (st : Step) : Type 0 where
  pub on_error : is_ok st.ret ≡ false → (st.dsim ≡ d) × (st.restarted ≡ false)
  pub on_success :
      is_ok st.ret ≡ true → (q : PllParam) × (current_param st.dsim ≡ some q) × (q.pll_freq ≡ hs)
  pub dividers :
      (st.dsim ≡ d)
      ⊎ ((f : PllFeatures) × (pms : Pms) × (d.features ≡ some f)
          × (calc_pmsk f hs ≡ done pms)
          × (st.dsim.dphy_pms.p ≡ pms.p)
          × (st.dsim.dphy_pms.m ≡ pms.m)
          × (st.dsim.dphy_pms.s ≡ pms.s)
          × (st.dsim.dphy_pms.k ≡ pms.k)
          × ((u : ℕ) × (calc_underrun d.timing hs ≡ some u)
              × (st.dsim.cmd_underrun_cnt ≡ (if u == 0 then d.cmd_underrun_cnt else u))))
  pub reported :
      st.dsim.clk_param.hs_clk ≢ d.clk_param.hs_clk
      → (st.dsim.clk_param.hs_clk_changed ≡ true) × (st.dsim.clk_param.pending_hs_clk ≡ 0)
  pub restart : st.restarted ≡ true → (now ≡ true) × (d.state ≡ DsimState.hsclken)

Unchanged-ClockSet :
    (d : Dsim) (hs : ℕ) (now : Bool) (st : Step) → Unchanged d hs st → ClockSet d hs now st
Unchanged-ClockSet d hs now st u = record {
  on_error = λ h. (u.dsim, u.restarted);
  on_success = λ h. rw u.dsim (u.same_clock h);
  dividers = inl u.dsim;
  reported = λ n. absurd (n (ap (λ (x : Dsim). x.clk_param.hs_clk) u.dsim));
  restart = λ h. ground (arith, h, u.restarted);
}

is_hsclken :
    (s : DsimState) (now : Bool)
    → (now && (elim s [ DsimState.hsclken ↦ true | _ ↦ false ])) ≡ true
    → (now ≡ true) × (s ≡ DsimState.hsclken)
is_hsclken s now h = ground arith

apply_clock-ClockSet :
    (d : Dsim) (i : ℕ) (q : PllParam) (pms : Pms) (u hs : ℕ) (now : Bool)
    → d.current ≡ some i
    → get_elem? d.params i ≡ some q
    → (f : PllFeatures) → d.features ≡ some f
    → calc_pmsk f hs ≡ done pms
    → calc_underrun d.timing hs ≡ some u
    → ClockSet d hs now (apply_clock d i q pms u hs now)
unfolding apply_clock update_clock_config update_clks pms_of
apply_clock-ClockSet d i q pms u hs now ei e f ef ep eu = record {
  on_error = λ h. ground (arith, h);
  on_success = λ h. (_, current_param-entry _ i ei ∙ get_elem?-set-some d.params i _ e, refl);
  dividers = inr (f, pms, ef, ep, refl, refl, refl, refl, (u, eu, ground arith));
  reported = λ n. ground (arith, n);
  restart = λ h. is_hsclken d.state now h;
}

pub set_hs_clock-ClockSet :
    (d : Dsim) (hs : ℕ) (now : Bool) (st : Step)
    → set_hs_clock d hs now ≡ some st
    → ClockSet d hs now st
set_hs_clock-ClockSet d hs now st e = elim (set_hs_clock-cases d hs now st e) [
  | inl same ↦ Unchanged-ClockSet d hs now st same
  | inr new ↦ rw new.step (
      apply_clock-ClockSet d new.i new.q new.pms new.u hs now new.index new.entry new.f new.features
        new.dividers new.underrun)
]

applied :
    (d : Dsim) (st : Step)
    → InSync d
    → PendingDiffers d
    → d.clk_param.pending_hs_clk ≢ 0
    → set_hs_clock d d.clk_param.pending_hs_clk false ≡ some st
    → is_ok st.ret ≡ true
    → (st.dsim.clk_param.hs_clk ≡ d.clk_param.pending_hs_clk)
      × (st.dsim.clk_param.pending_hs_clk ≡ 0)
applied d st sync p n e ok =
    let s = set_hs_clock-ClockSet d d.clk_param.pending_hs_clk false st e in
    let entry = s.on_success ok in
    let clk =
      (set_hs_clock-InSync d d.clk_param.pending_hs_clk false st sync e entry.0 entry.1).hs_clk
      ∙ entry.2 in
    (clk, (s.reported (λ same. p n (sym clk ∙ same))).1)

-- On a host in line with its current entry, whose pending clock differs from that of the link, a disable
-- that sets the pending clock with result 0 makes it the clock of the link, and nothing stays pending.
pub apply_pending_settles :
    (d : Dsim) (st : Step)
    → InSync d
    → PendingDiffers d
    → d.clk_param.pending_hs_clk ≢ 0
    → apply_pending d ≡ some st
    → is_ok st.ret ≡ true
    → (st.dsim.clk_param.hs_clk ≡ d.clk_param.pending_hs_clk)
      × (st.dsim.clk_param.pending_hs_clk ≡ 0)
unfolding apply_pending
apply_pending_settles d st sync p n e ok = applied d st sync p n (ground (arith, n, e)) ok
