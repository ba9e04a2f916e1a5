-- ===== src/Dsim/HsClock/Sync.antt =====
-- The dividers and clocks that the next start of the link programs are those of the current entry of
-- the PLL table.
use google_modules_display_s.Prelude.{
  ℕ, ◌≡◌, ◌≢◌, inl, inr, refl, sym, ap, some, Bool, false, arith, get_elem?, get_elem?-set-some,
  List, ◌∙◌,
}
use google_modules_display_s.Dsim.Pll.{Pms}
use google_modules_display_s.Dsim.State.{Dsim, PllParam}
use google_modules_display_s.Dsim.HsClock.{
  Step, pms_of, update_clock_config, update_clks, use_mode, fails, set_clock_mode, apply_clock,
  set_hs_clock,
}
use google_modules_display_s.Dsim.HsClock.Store.{
  current_param, hs_clock_store, Parsed, set_pending, Call, mode_set, hs_clock, store,
  encoder_disable, call,
}
use google_modules_display_s.Dsim.HsClock.Cases.{
  current_param-entry, set_hs_clock-cases, set_clock_mode-cases,
}
use google_modules_display_s.Dsim.HsClock.StoreCases.{hs_clock_store-cases, apply_pending-cases}
use mathlib.Core.Option.{some-injective}

-- The configuration is that of entry q. A count of 0 is left out, as it is not copied.
pub record Agrees (q : PllParam) (d : Dsim) : Type 0 where
  pub hs_clk : d.clk_param.hs_clk ≡ q.pll_freq
  pub esc_clk : d.clk_param.esc_clk ≡ q.esc_freq
  pub dividers : d.dphy_pms ≡ pms_of q
  pub underrun : q.cmd_underrun_cnt ≢ 0 → d.cmd_underrun_cnt ≡ q.cmd_underrun_cnt

abbrev pub InSync : Dsim → Type 0
InSync d = (q : PllParam) → current_param d ≡ some q → Agrees q d

update_clock_config-Agrees : (q : PllParam) (d : Dsim) → Agrees q (update_clock_config q d)
unfolding update_clock_config update_clks
update_clock_config-Agrees q d = record {
  hs_clk = ground arith;
  esc_clk = ground arith;
  dividers = refl;
  underrun = λ n. ground (arith, n);
}

-- Configuring the host from its current entry.
configured-InSync :
    (b : Dsim) (i : ℕ) (q : PllParam)
    → b.current ≡ some i
    → get_elem? b.params i ≡ some q
    → InSync (update_clock_config q b)
unfolding update_clock_config
configured-InSync b i q ei e r er =
    let same : some q ≡ some r =
      sym (current_param-entry (update_clock_config q b) i ei ∙ e) ∙ er in
    rw (sym (some-injective q r same)) (update_clock_config-Agrees q b)

use_mode-InSync :
    (d : Dsim) (i : ℕ) (q : PllParam) → get_elem? d.params i ≡ some q → InSync (use_mode d i q)
unfolding use_mode
use_mode-InSync d i q e = configured-InSync _ i _ refl (get_elem?-set-some d.params i _ e)

apply_clock-InSync :
    (d : Dsim) (i : ℕ) (q : PllParam) (pms : Pms) (u hs : ℕ) (now : Bool)
    → d.current ≡ some i
    → get_elem? d.params i ≡ some q
    → InSync (apply_clock d i q pms u hs now).dsim
unfolding apply_clock
apply_clock-InSync d i q pms u hs now ei e =
    configured-InSync _ i _ ei (get_elem?-set-some d.params i _ e)

set_clock_mode-InSync : (d : Dsim) (name : List ℕ) → InSync d → InSync (set_clock_mode d name).dsim
unfolding fails
set_clock_mode-InSync d name sync = elim (set_clock_mode-cases d name) [
  | inl same ↦ rw (ap (λ (s : Step). s.dsim) same) sync
  | inr found ↦ rw (ap (λ (s : Step). s.dsim) found.3) (use_mode-InSync d found.0 found.1 found.2)
]

pub set_hs_clock-InSync :
    (d : Dsim) (hs : ℕ) (now : Bool) (st : Step)
    → InSync d
    → set_hs_clock d hs now ≡ some st
    → InSync st.dsim
set_hs_clock-InSync d hs now st sync e = elim (set_hs_clock-cases d hs now st e) [
  | inl same ↦ rw same.dsim sync
  | inr new ↦
      rw (ap (λ (s : Step). s.dsim) new.step)
        (apply_clock-InSync d new.i new.q new.pms new.u hs now new.index new.entry)
]

set_pending-InSync : (d : Dsim) (v : ℕ) → InSync d → InSync (set_pending d v)
unfolding set_pending current_param
set_pending-InSync d v sync r er =
    let s = sync r er in
    record { hs_clk = s.hs_clk; esc_clk = s.esc_clk; dividers = s.dividers; underrun = s.underrun }

hs_clock_store-InSync :
    (d : Dsim) (input : Parsed) (st : Step)
    → InSync d
    → hs_clock_store d input ≡ some st
    → InSync st.dsim
hs_clock_store-InSync d input st sync e = elim (hs_clock_store-cases d input st e) [
  | inl same ↦ rw same sync
  | inr (inl pend) ↦ rw pend.1 (set_pending-InSync d pend.0 sync)
  | inr (inr new) ↦
      set_hs_clock-InSync (set_pending d 0) new.0 new.1 st (set_pending-InSync d 0 sync) new.2
]

-- A host whose dividers, clocks and underrun count are those of its current PLL entry stays so
-- under every call that changes the clock: a change of the mode, a new clock, a store to the sysfs
-- file, and a disable with a clock pending. An underrun count of 0 in the entry is left out.
pub call-InSync : (d : Dsim) (c : Call) (st : Step) → InSync d → call d c ≡ some st → InSync st.dsim
unfolding call
call-InSync d (mode_set name) st sync e =
    rw (ap (λ (s : Step). s.dsim) (sym (some-injective _ st e))) (set_clock_mode-InSync d name sync)
call-InSync d (hs_clock hs now) st sync e = set_hs_clock-InSync d hs now st sync e
call-InSync d (store input) st sync e = hs_clock_store-InSync d input st sync e
call-InSync d encoder_disable st sync e = elim (apply_pending-cases d st e) [
  | inl same ↦ rw same sync
  | inr new ↦ set_hs_clock-InSync d d.clk_param.pending_hs_clk false st sync new
]
