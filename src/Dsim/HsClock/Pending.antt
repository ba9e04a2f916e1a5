-- ===== src/Dsim/HsClock/Pending.antt =====
-- The clock that is stored while the link is not active, and the flag that a clock has changed.
use google_modules_display_s.Prelude.{
  ℕ, ◌≡◌, ◌≢◌, inl, inr, refl, sym, ap, some, Bool, false, arith, List,
}
use mathlib.Core.Option.{some-injective}
use google_modules_display_s.Dsim.State.{Dsim, PllParam}
use google_modules_display_s.Dsim.HsClock.{
  Step, update_clock_config, update_clks, use_mode, fails, set_clock_mode, apply_clock,
  set_hs_clock,
}
use google_modules_display_s.Dsim.HsClock.Store.{
  hs_clock_store, Parsed, set_pending, Call, mode_set, hs_clock, store, encoder_disable, call,
}
use google_modules_display_s.Dsim.HsClock.Cases.{set_hs_clock-cases, set_clock_mode-cases}
use google_modules_display_s.Dsim.HsClock.StoreCases.{hs_clock_store-cases, apply_pending-cases}
use google_modules_display_s.Dsim.HsClock.Sync.{InSync}

-- A pending clock differs from that of the link.
abbrev pub PendingDiffers : Dsim → Type 0
PendingDiffers d = d.clk_param.pending_hs_clk ≢ 0 → d.clk_param.pending_hs_clk ≢ d.clk_param.hs_clk

configured-PendingDiffers :
    (q : PllParam) (d : Dsim) → PendingDiffers d → PendingDiffers (update_clock_config q d)
unfolding update_clock_config update_clks
configured-PendingDiffers q d p n = ground (arith, n, p)

set_clock_mode-PendingDiffers :
    (d : Dsim) (name : List ℕ) → PendingDiffers d → PendingDiffers (set_clock_mode d name).dsim
unfolding fails use_mode
set_clock_mode-PendingDiffers d name p = elim (set_clock_mode-cases d name) [
  | inl same ↦ rw (ap (λ (s : Step). s.dsim) same) p
  | inr found ↦ rw (ap (λ (s : Step). s.dsim) found.3) (configured-PendingDiffers _ _ p)
]

set_hs_clock-PendingDiffers :
    (d : Dsim) (hs : ℕ) (now : Bool) (st : Step)
    → PendingDiffers d
    → set_hs_clock d hs now ≡ some st
    → PendingDiffers st.dsim
unfolding apply_clock
set_hs_clock-PendingDiffers d hs now st p e = elim (set_hs_clock-cases d hs now st e) [
  | inl same ↦ rw same.dsim p
  | inr new ↦ rw (ap (λ (s : Step). s.dsim) new.step) (configured-PendingDiffers _ _ p)
]

set_pending-PendingDiffers :
    (d : Dsim) (v : ℕ) → (v ≢ 0 → v ≢ d.clk_param.hs_clk) → PendingDiffers (set_pending d v)
unfolding set_pending
set_pending-PendingDiffers d v h = h

hs_clock_store-PendingDiffers :
    (d : Dsim) (input : Parsed) (st : Step)
    → InSync d
    → PendingDiffers d
    → hs_clock_store d input ≡ some st
    → PendingDiffers st.dsim
hs_clock_store-PendingDiffers d input st sync p e = elim (hs_clock_store-cases d input st e) [
  | inl same ↦ rw same p
  | inr (inl pend) ↦
      rw pend.1
        (set_pending-PendingDiffers d pend.0 (λ n. rw (sync pend.2 pend.3).hs_clk (pend.4 n)))
  | inr (inr new) ↦
      set_hs_clock-PendingDiffers (set_pending d 0) new.0 new.1 st
        (set_pending-PendingDiffers d 0 (λ n. absurd (n refl))) new.2
]

-- On a host whose clock is that of its current PLL entry, no call that changes the clock leaves a
-- pending clock that is the clock of the link, if there was none before: what is pending is
-- always a change.
pub call-PendingDiffers :
    (d : Dsim) (c : Call) (st : Step)
    → InSync d
    → PendingDiffers d
    → call d c ≡ some st
    → PendingDiffers st.dsim
unfolding call
call-PendingDiffers d (mode_set name) st sync p e =
    rw (ap (λ (s : Step). s.dsim) (sym (some-injective _ st e)))
      (set_clock_mode-PendingDiffers d name p)
call-PendingDiffers d (hs_clock hs now) st sync p e = set_hs_clock-PendingDiffers d hs now st p e
call-PendingDiffers d (store input) st sync p e = hs_clock_store-PendingDiffers d input st sync p e
call-PendingDiffers d encoder_disable st sync p e = elim (apply_pending-cases d st e) [
  | inl same ↦ rw same p
  | inr new ↦ set_hs_clock-PendingDiffers d d.clk_param.pending_hs_clk false st p new
]
