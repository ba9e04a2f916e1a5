-- ===== src/Dsim/Pll.antt =====
-- dsim_calc_pmsk of exynos_drm_dsim.c: the dividers of the PLL for a clock of the DSI lanes. The
-- function computes p, s, m and k in this order, with a check of the range after each but k.
pub mod Loop
pub mod Dividers
pub mod Fraction
use google_modules_display_s.Prelude.{
  ℕ, zero, suc, ◌+◌, ◌-◌, ◌*◌, ◌/◌, ◌%◌, ◌^◌, Bool, true, false, ◌||◌, Option, none, some, ltb,
  ◌==◌, if◌then◌else◌, u32, u64, sub32,
}

-- `struct dsim_pll_features`.
pub record PllFeatures : Type 0 where
  pub finput : ℕ
  pub foptimum : ℕ
  pub fout_min : ℕ
  pub fout_max : ℕ
  pub fvco_min : ℕ
  pub fvco_max : ℕ
  pub p_min : ℕ
  pub p_max : ℕ
  pub m_min : ℕ
  pub m_max : ℕ
  pub s_min : ℕ
  pub s_max : ℕ
  pub k_bits : ℕ

-- The dividers in `struct stdphy_pms`.
pub record Pms : Type 0 where
  pub p : ℕ
  pub m : ℕ
  pub s : ℕ
  pub k : ℕ

-- What a call does: it writes the dividers and returns 0, it returns -EINVAL, or the loop shifts an
-- `int` by 31 bits or more, which has no meaning in C.
pub data Outcome : Type 0 where
  done : Pms → Outcome
  einval : Outcome
  undefined : Outcome

-- `DIV_ROUND_CLOSEST` on 64 bits, kept in 32 bits, and at least 1.
unfoldable pub divider_p : PllFeatures → ℕ
divider_p f = let p = u32 (u64 (f.finput + f.foptimum / 2) / f.foptimum) in if p == 0 then 1 else p

-- The loop for s: what `s` and `fvco` are when it ends, with one round of fuel for each shift of an
-- `int` that is defined.
unfoldable pub find_s : ℕ → ℕ → ℕ → ℕ → ℕ → Option (ℕ × ℕ)
find_s zero hs fvco_min s fvco = if ltb fvco fvco_min then none else some (s, fvco)
find_s (suc fuel) hs fvco_min s fvco =
    let rest = find_s fuel hs fvco_min (suc s) (u64 (hs * 2 ^ s)) in
    if ltb fvco fvco_min then rest else some (s, fvco)

-- (fvco / 2) * 2 ^ (k_bits + 1) / (finput / p)
unfoldable pub quotient : PllFeatures → ℕ → ℕ → ℕ
quotient f p fvco = u64 (fvco / 2 * 2 ^ (f.k_bits + 1)) / (f.finput / p)

unfoldable pub int_part : ℕ → ℕ → ℕ
int_part k_bits q = u32 (q / 2 ^ (k_bits + 1))

-- The fraction, rounded up to `k_bits` bits.
unfoldable pub frac_part : ℕ → ℕ → ℕ
frac_part k_bits q = (u32 (q % 2 ^ (k_bits + 1)) + 1) / 2

-- The bit `1 << (k_bits - 1)` of k.
unfoldable pub top_bit : ℕ → ℕ → Bool
top_bit k_bits k = k / 2 ^ (k_bits - 1) % 2 == 1

-- From the quotient on.
unfoldable pub finish : PllFeatures → ℕ → ℕ → ℕ → Outcome
finish f p s q =
    let m = int_part f.k_bits q in
    if ltb m f.m_min || ltb f.m_max m
    then einval
    else (let k = frac_part f.k_bits q in
        done (record { p = p; m = if top_bit f.k_bits k then u32 (m + 1) else m; s = s; k = k }))

-- From the end of the loop on; `s` is its value there, before `--s`.
unfoldable pub with_s : PllFeatures → ℕ → ℕ → ℕ → Outcome
with_s f p s fvco =
    let s' = sub32 s 1 in
    if ltb f.fvco_max fvco
    then einval
    else if ltb s' f.s_min || ltb f.s_max s'
    then einval
    else finish f p s' (quotient f p fvco)

unfoldable pub calc_pmsk : PllFeatures → ℕ → Outcome
calc_pmsk f hs_clock_mhz =
    let p = divider_p f in
    let hs = hs_clock_mhz * 1000000 in
    if ltb p f.p_min || ltb f.p_max p
    then einval
    else if ltb hs f.fout_min || ltb f.fout_max hs
    then einval
    else elim (find_s 31 hs f.fvco_min 0 0) [ none ↦ undefined | some r ↦ with_s f p r.0 r.1 ]
