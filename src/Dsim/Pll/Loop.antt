-- ===== src/Dsim/Pll/Loop.antt =====
-- The loop of dsim_calc_pmsk ends, with the least power of two that brings the clock up to the
-- minimum of the VCO.
use google_modules_display_s.Prelude.{
  ℕ, zero, suc, ◌+◌, ◌*◌, ◌^◌, ◌≤◌, ◌<◌, ◌≡◌, refl, some, arith, ltb, ltb→lt, ltb-false, Bool-cases,
  inl, inr, u64, ap, ℕ_discrete, ◌∙◌, lt→ltb,
}
use native.Mathlib.Nat.{pow-le-pow_right, mod-eq_of_lt}
use google_modules_display_s.Dsim.Pll.{find_s}

-- The loop ended after `suc t` rounds: hs * 2 ^ t is the first that reaches the minimum.
pub record Least (hs fvco_min t : ℕ) : Type 0 where
  pub reaches : fvco_min ≤ hs * 2 ^ t
  pub small : t ≤ 30
  pub first : (r : ℕ) → r < t → hs * 2 ^ r < fvco_min

fits : (hs s : ℕ) → hs * 2 ^ 30 < 2 ^ 64 → s ≤ 30 → u64 (hs * 2 ^ s) ≡ hs * 2 ^ s
fits hs s h le =
    let p : 2 ^ s ≤ 2 ^ 30 = pow-le-pow_right (omega arith) le in
    let q : hs * 2 ^ s ≤ hs * 2 ^ 30 = grind arith in mod-eq_of_lt (omega arith)

step_first :
    (hs fvco_min t : ℕ)
    → hs * 2 ^ t < fvco_min
    → ((r : ℕ) → r < t → hs * 2 ^ r < fvco_min)
    → (r : ℕ) → r < suc t
    → hs * 2 ^ r < fvco_min
step_first hs fvco_min t at below r h = elim (ℕ_discrete r t) [
  | yes e ↦ rw e at
  | no ne ↦ below r (omega arith)
]

find_s-step :
    (fuel hs fvco_min : ℕ)
    → 0 < fvco_min
    → find_s (suc fuel) hs fvco_min 0 0 ≡ find_s fuel hs fvco_min 1 (u64 (hs * 2 ^ 0))
unfolding find_s
find_s-step fuel hs fvco_min some_min = rw (lt→ltb _ _ some_min)

find_s-from :
    (fuel hs fvco_min t : ℕ)
    → hs * 2 ^ 30 < 2 ^ 64
    → fvco_min ≤ hs * 2 ^ 30
    → suc t + fuel ≡ 31
    → ((r : ℕ) → r < t → hs * 2 ^ r < fvco_min)
    → (u : ℕ) × (find_s fuel hs fvco_min (suc t) (hs * 2 ^ t) ≡ some (suc u, hs * 2 ^ u))
      × Least hs fvco_min u
unfolding find_s
find_s-from zero hs fvco_min t small enough e first =
    let top : hs * 2 ^ t ≡ hs * 2 ^ 30 =
      let e30 : t ≡ 30 = omega arith in ap (λ (j : ℕ). hs * 2 ^ j) e30 in
    (t, ground arith, record { reaches = omega arith; small = omega arith; first = first })
find_s-from (suc fuel) hs fvco_min t small enough e first =
    elim (Bool-cases (ltb (hs * 2 ^ t) fvco_min)) [
      | inl more ↦
          let ih =
            find_s-from fuel hs fvco_min (suc t) small enough (omega arith)
              (step_first hs fvco_min t (ltb→lt _ _ more) first) in
          (ih.0, rw more (rw (fits hs (suc t) small (omega arith)) ih.1), ih.2)
      | inr stop ↦
          (t, rw stop, record { reaches = ltb-false _ _ stop; small = omega arith; first = first })
    ]

first_round :
    (hs fvco_min : ℕ)
    → hs * 2 ^ 30 < 2 ^ 64
    → 0 < fvco_min
    → find_s 31 hs fvco_min 0 0 ≡ find_s 30 hs fvco_min 1 (hs * 2 ^ 0)
first_round hs fvco_min small some_min =
    find_s-step 30 hs fvco_min some_min
    ∙ ap (find_s 30 hs fvco_min 1) (fits hs 0 small (omega arith))

-- With a clock that 2 ^ 30 times brings up to a positive minimum, without leaving 64 bits, the loop
-- ends within the shifts that are defined, and with the least power of two that reaches the minimum.
pub find_s-Least :
    (hs fvco_min : ℕ)
    → hs * 2 ^ 30 < 2 ^ 64
    → 0 < fvco_min
    → fvco_min ≤ hs * 2 ^ 30
    → (t : ℕ) × (find_s 31 hs fvco_min 0 0 ≡ some (suc t, hs * 2 ^ t)) × Least hs fvco_min t
find_s-Least hs fvco_min small some_min enough =
    let from = find_s-from 30 hs fvco_min 0 small enough refl (λ r h. elim h [ ]) in
    (from.0, first_round hs fvco_min small some_min ∙ from.1, from.2)
