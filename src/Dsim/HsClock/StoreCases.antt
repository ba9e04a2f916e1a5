-- ===== src/Dsim/HsClock/StoreCases.antt =====
-- What a store of the clock, and a disable with a pending clock, did.
use google_modules_display_s.Prelude.{
  ℕ, ◌≡◌, ◌≢◌, ◌⊎◌, inl, inr, refl, some, Bool, false, arith, Option-cases, Bool-cases, ◌==◌,
  if◌then◌else◌,
}
use google_modules_display_s.Dsim.State.{DsimState, Dsim, PllParam}
use google_modules_display_s.Dsim.HsClock.{Step, set_hs_clock, fails}
use google_modules_display_s.Dsim.HsClock.Store.{
  apply_pending, hs_clock_store, store_clock, Parsed, values, malformed, set_pending, is_allowed,
  current_param,
}

pub apply_pending-cases :
    (d : Dsim) (st : Step)
    → apply_pending d ≡ some st
    → (st.dsim ≡ d) ⊎ (set_hs_clock d d.clk_param.pending_hs_clk false ≡ some st)
unfolding apply_pending
apply_pending-cases d st e = ground arith

-- A store sets the pending clock, never to the current one, or goes on to the new clock.
abbrev pub StoreCase : Dsim → Step → Type 0
StoreCase d st =
    (st.dsim ≡ d)
    ⊎ ((v : ℕ) × (st.dsim ≡ set_pending d v)
        × (q : PllParam) × (current_param d ≡ some q)
        × (v ≢ 0 → v ≢ q.pll_freq))
    ⊎ ((hs : ℕ) × (now : Bool) × (set_hs_clock (set_pending d 0) hs now ≡ some st))

-- What a store leaves pending.
abbrev left_pending : PllParam → ℕ → ℕ
left_pending q hs = if q.pll_freq == hs then 0 else hs

queued :
    (d : Dsim) (q : PllParam) (hs : ℕ) (st : Step)
    → current_param d ≡ some q
    → st.dsim ≡ set_pending d (left_pending q hs)
    → StoreCase d st
queued d q hs st eq e = inr (inl (left_pending q hs, e, q, eq, λ n. ground (arith, n)))

active_cases :
    (d : Dsim) (q : PllParam) (hs : ℕ) (now : Bool) (st : Step)
    → current_param d ≡ some q
    → d.state ≡ DsimState.hsclken
    → store_clock d q hs now ≡ some st
    → StoreCase d st
unfolding store_clock
active_cases d q hs now st eq es e = elim (Bool-cases (q.pll_freq == hs)) [
  | inl same ↦ inr (inl (0, ground (arith, same, es, e), q, eq, λ n. absurd (n refl)))
  | inr other ↦ inr (inr (hs, now, ground (arith, other, es, e)))
]

store_clock-cases :
    (d : Dsim) (q : PllParam) (hs : ℕ) (now : Bool) (st : Step)
    → current_param d ≡ some q
    → (s : DsimState) → d.state ≡ s
    → store_clock d q hs now ≡ some st
    → StoreCase d st
unfolding store_clock
store_clock-cases d q hs now st eq DsimState.hsclken es e = active_cases d q hs now st eq es e
store_clock-cases d q hs now st eq DsimState.ulps es e = queued d q hs st eq (ground (arith, es, e))
store_clock-cases d q hs now st eq DsimState.suspend es e =
    queued d q hs st eq (ground (arith, es, e))
store_clock-cases d q hs now st eq DsimState.bypass es e =
    queued d q hs st eq (ground (arith, es, e))
store_clock-cases d q hs now st eq DsimState.handover es e =
    queued d q hs st eq (ground (arith, es, e))
store_clock-cases d q hs now st eq DsimState.missing es e =
    queued d q hs st eq (ground (arith, es, e))

values_cases :
    (d : Dsim) (q : PllParam) (hs : ℕ) (now : Bool) (st : Step)
    → current_param d ≡ some q
    → hs_clock_store d (values hs now) ≡ some st
    → StoreCase d st
unfolding hs_clock_store fails
values_cases d q hs now st eq e = elim (Bool-cases (is_allowed d hs)) [
  | inl y ↦ store_clock-cases d q hs now st eq d.state refl (ground (arith, y, eq, e))
  | inr n ↦ inl (ground (arith, n, eq, e))
]

pub hs_clock_store-cases :
    (d : Dsim) (input : Parsed) (st : Step) → hs_clock_store d input ≡ some st → StoreCase d st
unfolding hs_clock_store fails
hs_clock_store-cases d (values hs now) st e = elim (Option-cases (current_param d)) [
  | inl n ↦ inl (ground (arith, n, e))
  | inr q ↦ values_cases d q.0 hs now st q.1 e
]
hs_clock_store-cases d (malformed m) st e = inl (ground (arith, e))
