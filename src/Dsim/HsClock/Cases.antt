-- ===== src/Dsim/HsClock/Cases.antt =====
-- What a call of dsim_set_hs_clock did: nothing, or a new clock in the current entry.
use google_modules_display_s.Prelude.{
  ℕ, ◌≡◌, ◌≢◌, ◌⊎◌, inl, inr, refl, sym, ap, some, none, Bool, true, false, arith, get_elem?,
  Option-cases, Bool-cases, ◌==◌, ==_iff, if◌then◌else◌, ◌∙◌, is_ok, Errno, List,
}
use google_modules_display_s.Dsim.Pll.{
  Pms, PllFeatures, calc_pmsk, done, einval, undefined, Outcome,
}
use google_modules_display_s.Dsim.State.{Dsim, PllParam}
use google_modules_display_s.Dsim.HsClock.{
  use_mode, get_clock_mode, set_clock_mode, Step, apply_clock, with_pms, set_hs_clock,
  calc_underrun, fails,
}
use google_modules_display_s.Dsim.HsClock.Store.{current_param}

-- The host is as before, and a result of 0 means that the clock was the current one.
pub record Unchanged (d : Dsim) (hs : ℕ) (st : Step) : Type 0 where
  pub dsim : st.dsim ≡ d
  pub restarted : st.restarted ≡ false
  pub same_clock :
      is_ok st.ret ≡ true → (q : PllParam) × (current_param d ≡ some q) × (q.pll_freq ≡ hs)

-- The clock went into entry i, with the dividers and the count for it.
pub record Applied (d : Dsim) (hs : ℕ) (now : Bool) (st : Step) : Type 0 where
  pub i : ℕ
  pub q : PllParam
  pub f : PllFeatures
  pub pms : Pms
  pub u : ℕ
  pub index : d.current ≡ some i
  pub entry : get_elem? d.params i ≡ some q
  pub differs : hs ≢ q.pll_freq
  pub features : d.features ≡ some f
  pub dividers : calc_pmsk f hs ≡ done pms
  pub underrun : calc_underrun d.timing hs ≡ some u
  pub step : st ≡ apply_clock d i q pms u hs now

fails-Unchanged : (d : Dsim) (hs : ℕ) (e : _) → Unchanged d hs (fails d e)
unfolding fails
fails-Unchanged d hs e = record { dsim = refl; restarted = refl; same_clock = λ h. ground arith }

no_underrun :
    (d : Dsim) (pms : Pms) (hs : ℕ) (now : Bool)
    → calc_underrun d.timing hs ≡ none
    → with_pms d pms hs now ≡ fails d Errno.einval
unfolding with_pms
no_underrun d pms hs now e = ground (arith, e)

no_current :
    (d : Dsim) (pms : Pms) (hs : ℕ) (now : Bool) (u : ℕ)
    → calc_underrun d.timing hs ≡ some u
    → d.current ≡ none
    → with_pms d pms hs now ≡ fails d Errno.eagain
unfolding with_pms
no_current d pms hs now u eu e = ground (arith, e, eu)

no_entry :
    (d : Dsim) (pms : Pms) (hs : ℕ) (now : Bool) (u i : ℕ)
    → calc_underrun d.timing hs ≡ some u
    → d.current ≡ some i
    → get_elem? d.params i ≡ none
    → with_pms d pms hs now ≡ fails d Errno.eagain
unfolding with_pms
no_entry d pms hs now u i eu ei e = ground (arith, e, ei, eu)

with_entry :
    (d : Dsim) (pms : Pms) (hs : ℕ) (now : Bool) (u i : ℕ) (q : PllParam)
    → calc_underrun d.timing hs ≡ some u
    → d.current ≡ some i
    → get_elem? d.params i ≡ some q
    → with_pms d pms hs now ≡ (
        if hs == q.pll_freq
        then record { dsim = d; ret = none; restarted = false }
        else apply_clock d i q pms u hs now)
unfolding with_pms
with_entry d pms hs now u i q eu ei eq = ground (arith, eu, ei, eq)

pub current_param-entry :
    (d : Dsim) (i : ℕ) → d.current ≡ some i → current_param d ≡ get_elem? d.params i
unfolding current_param
current_param-entry d i e = ground (arith, e)

abbrev pub Case : Dsim → ℕ → Bool → Step → Type 0
Case d hs now st = Unchanged d hs st ⊎ Applied d hs now st

entry_cases :
    (d : Dsim) (f : PllFeatures) (pms : Pms) (hs : ℕ) (now : Bool) (u i : ℕ) (q : PllParam)
    → d.features ≡ some f
    → calc_pmsk f hs ≡ done pms
    → calc_underrun d.timing hs ≡ some u
    → d.current ≡ some i
    → get_elem? d.params i ≡ some q
    → Case d hs now (with_pms d pms hs now)
entry_cases d f pms hs now u i q ef ep eu ei eq =
    let w = with_entry d pms hs now u i q eu ei eq in
    elim (Bool-cases (hs == q.pll_freq)) [
      | inl same ↦
          let e =
            w
            ∙ ap
                (λ (b : Bool).
                  if b
                  then (record { dsim = d; ret = none; restarted = false })
                  else apply_clock d i q pms u hs now)
                same in
          inl (
            rw e (record {
              dsim = refl;
              restarted = refl;
              same_clock =
                  λ h. (q, current_param-entry d i ei ∙ eq, sym ((==_iff hs q.pll_freq).0 same));
            }))
      | inr other ↦
          let e =
            w
            ∙ ap
                (λ (b : Bool).
                  if b
                  then (record { dsim = d; ret = none; restarted = false })
                  else apply_clock d i q pms u hs now)
                other in
          inr (record {
            i = i;
            q = q;
            f = f;
            pms = pms;
            u = u;
            index = ei;
            entry = eq;
            differs = ground (arith, other);
            features = ef;
            dividers = ep;
            underrun = eu;
            step = e;
          })
    ]

with_pms-cases :
    (d : Dsim) (f : PllFeatures) (pms : Pms) (hs : ℕ) (now : Bool)
    → d.features ≡ some f
    → calc_pmsk f hs ≡ done pms
    → Case d hs now (with_pms d pms hs now)
with_pms-cases d f pms hs now ef ep = elim (Option-cases (calc_underrun d.timing hs)) [
  | inl e ↦ inl (rw (no_underrun d pms hs now e) (fails-Unchanged d hs _))
  | inr u ↦ elim (Option-cases d.current) [
    | inl e ↦ inl (rw (no_current d pms hs now u.0 u.1 e) (fails-Unchanged d hs _))
    | inr i ↦ elim (Option-cases (get_elem? d.params i.0)) [
      | inl e ↦ inl (rw (no_entry d pms hs now u.0 i.0 u.1 i.1 e) (fails-Unchanged d hs _))
      | inr q ↦ entry_cases d f pms hs now u.0 i.0 q.0 ef ep u.1 i.1 q.1
    ]
  ]
]

by_outcome :
    (d : Dsim) (f : PllFeatures) (hs : ℕ) (now : Bool) (st : Step)
    → d.features ≡ some f
    → set_hs_clock d hs now ≡ some st
    → (o : Outcome) → calc_pmsk f hs ≡ o
    → Case d hs now st
unfolding set_hs_clock
by_outcome d f hs now st ef e (done pms) eo =
    let g : st ≡ with_pms d pms hs now = ground (arith, e, ef, eo) in
    rw g (with_pms-cases d f pms hs now ef eo)
by_outcome d f hs now st ef e einval eo =
    let g : st ≡ fails d Errno.einval = ground (arith, e, ef, eo) in
    inl (rw g (fails-Unchanged d hs _))
by_outcome d f hs now st ef e undefined eo = absurd (ground (arith, e, ef, eo))

pub set_hs_clock-cases :
    (d : Dsim) (hs : ℕ) (now : Bool) (st : Step)
    → set_hs_clock d hs now ≡ some st
    → Case d hs now st
unfolding set_hs_clock
set_hs_clock-cases d hs now st e = elim (Option-cases d.features) [
  | inl none_there ↦
      let g : st ≡ fails d Errno.enodev = ground (arith, e, none_there) in
      inl (rw g (fails-Unchanged d hs _))
  | inr f ↦ by_outcome d f.0 hs now st f.1 e (calc_pmsk f.0 hs) refl
]

-- A change of the mode without an entry for it, and with entry i.
pub set_clock_mode-cases :
    (d : Dsim) (name : List ℕ)
    → (set_clock_mode d name ≡ fails d Errno.enoent)
      ⊎ ((i : ℕ) × (q : PllParam) × (get_elem? d.params i ≡ some q)
          × (set_clock_mode d name
              ≡ record { dsim = use_mode d i q; ret = none; restarted = false }))
unfolding set_clock_mode fails
set_clock_mode-cases d name = elim (Option-cases (get_clock_mode d name)) [
  | inl e ↦ inl (ground (arith, e))
  | inr i ↦ elim (Option-cases (get_elem? d.params i.0)) [
    | inl e ↦ let ei = i.1 in inl (ground (arith, e, ei))
    | inr q ↦ let ei = i.1 in let eq = q.1 in inr (i.0, q.0, q.1, ground (arith, ei, eq))
  ]
]
