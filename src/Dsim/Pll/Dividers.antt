-- ===== src/Dsim/Pll/Dividers.antt =====
-- What the dividers that dsim_calc_pmsk accepts satisfy.
use google_modules_display_s.Prelude.{
  ℕ, suc, ◌+◌, ◌*◌, ◌/◌, ◌^◌, ◌≤◌, ◌<◌, ◌≡◌, refl, ap, some, arith, sub32,
}
use native.Mathlib.Nat.{mod-eq_of_lt}
use google_modules_display_s.Dsim.Pll.{
  PllFeatures, Pms, done, calc_pmsk, find_s, with_s, finish, divider_p, quotient,
}
use google_modules_display_s.Dsim.Pll.Fraction.{Rounded, finish-Rounded}
use google_modules_display_s.Dsim.Pll.Loop.{find_s-Least, Least}

finish-done :
    (f : PllFeatures) (p s q : ℕ) (d : Pms)
    → finish f p s q ≡ done d
    → f.m_max < 4294967295
    → (d.p ≡ p) × (d.s ≡ s) × (f.m_min ≤ d.m) × (d.m ≤ f.m_max + 1)
unfolding finish
finish-done f p s q d e h = ground arith

with_s-done :
    (f : PllFeatures) (p t fvco : ℕ) (d : Pms)
    → with_s f p (suc t) fvco ≡ done d
    → f.m_max < 4294967295
    → t ≤ 30
    → (d.p ≡ p)
      × (d.s ≡ t)
      × (f.m_min ≤ d.m)
      × (d.m ≤ f.m_max + 1)
      × (f.s_min ≤ t)
      × (t ≤ f.s_max)
      × (fvco ≤ f.fvco_max)
unfolding with_s
with_s-done f p t fvco d e h small =
    let same : sub32 (suc t) 1 ≡ t = omega arith in
    ground (arith, same, finish-done f p t (quotient f p fvco) d)

-- What an accepted call promises of the dividers for a clock of `hs` Hz.
pub record Accepted (f : PllFeatures) (hs : ℕ) (d : Pms) : Type 0 where
  pub p_range : (f.p_min ≤ d.p) × (d.p ≤ f.p_max)
  pub m_range : (f.m_min ≤ d.m) × (d.m ≤ f.m_max + 1)
  pub s_range : (f.s_min ≤ d.s) × (d.s ≤ f.s_max)
  pub out_range : (f.fout_min ≤ hs) × (hs ≤ f.fout_max)
  pub vco_range : (f.fvco_min ≤ hs * 2 ^ d.s) × (hs * 2 ^ d.s ≤ f.fvco_max)
  pub least : (r : ℕ) → r < d.s → hs * 2 ^ r < f.fvco_min

after_loop :
    (f : PllFeatures) (hs p : ℕ) (d : Pms)
    → hs * 2 ^ 30 < 2 ^ 64
    → 0 < f.fvco_min
    → f.fvco_min ≤ hs * 2 ^ 30
    → f.m_max < 4294967295
    → (t : ℕ) → Least hs f.fvco_min t
    → with_s f p (suc t) (hs * 2 ^ t) ≡ done d
    → (f.p_min ≤ p) × (p ≤ f.p_max)
    → (f.fout_min ≤ hs) × (hs ≤ f.fout_max)
    → Accepted f hs d
after_loop f hs p d small some_min enough h t l e pr out =
    let w = with_s-done f p t (hs * 2 ^ t) d e h (l.small) in
    let at : hs * 2 ^ d.s ≡ hs * 2 ^ t = ap (λ (j : ℕ). hs * 2 ^ j) w.1 in
    record {
      p_range = rw w.0 pr;
      m_range = ground arith;
      s_range = ground arith;
      out_range = out;
      vco_range = ground (arith, l.reaches);
      least = λ r b. l.first r (ground arith);
    }

checked :
    (f : PllFeatures) (c : ℕ) (d : Pms)
    → calc_pmsk f c ≡ done d
    → (t : ℕ) → find_s 31 (c * 1000000) f.fvco_min 0 0 ≡ some (suc t, c * 1000000 * 2 ^ t)
    → (with_s f (divider_p f) (suc t) (c * 1000000 * 2 ^ t) ≡ done d)
      × ((f.p_min ≤ divider_p f) × (divider_p f ≤ f.p_max))
      × (f.fout_min ≤ c * 1000000)
      × (c * 1000000 ≤ f.fout_max)
unfolding calc_pmsk
checked f c d e t loop = ground (arith, loop)

-- If the call for a clock of `c` MHz writes dividers, then p and s lie in their ranges, the clock in
-- the range of the output, and the clock times 2 ^ s in the range of the VCO; s is the least that
-- brings the clock up to it. m reaches its minimum, and its maximum plus 1 at most, as the carry
-- of k comes after the check. Conditions: `c * 10 ^ 6 * 2 ^ 30` fits in 64 bits and reaches a positive
-- minimum of the VCO, and m's maximum is below 2 ^ 32 - 1.
pub calc_pmsk-Accepted :
    (f : PllFeatures) (c : ℕ) (d : Pms)
    → c * 1000000 * 2 ^ 30 < 2 ^ 64
    → 0 < f.fvco_min
    → f.fvco_min ≤ c * 1000000 * 2 ^ 30
    → f.m_max < 4294967295
    → calc_pmsk f c ≡ done d
    → Accepted f (c * 1000000) d
calc_pmsk-Accepted f c d small some_min enough h e =
    let loop = find_s-Least (c * 1000000) f.fvco_min small some_min enough in
    let w = checked f c d e loop.0 loop.1 in
    after_loop f (c * 1000000) (divider_p f) d small some_min enough h loop.0 loop.2 w.0 w.1
      (w.2, w.3)

to_finish :
    (f : PllFeatures) (p t fvco : ℕ) (d : Pms)
    → with_s f p (suc t) fvco ≡ done d
    → t ≤ 30
    → finish f p t (quotient f p fvco) ≡ done d
unfolding with_s
to_finish f p t fvco d e small =
    let same : sub32 (suc t) 1 ≡ t = omega arith in ground (arith, same)

quotient_exact :
    (f : PllFeatures) (p fvco j : ℕ)
    → f.k_bits ≡ suc j
    → fvco / 2 * 2 ^ (suc j + 1) < 2 ^ 64
    → quotient f p fvco ≡ fvco / 2 * 2 ^ (suc j + 1) / (f.finput / p)
unfolding quotient
quotient_exact f p fvco j kb whole =
    rw kb (ap (λ t. t / (f.finput / p)) (mod-eq_of_lt (omega (arith, whole))))

-- If the call writes dividers, then with q the half of the clock times 2 ^ s, times 2 ^ (k_bits + 1),
-- over the input divided by p, h = 2 ^ (k_bits - 1), and q mod 4 * h below 4 * h - 1, k fits in its bits
-- and m * 2 * h + k, with k read as two's complement, is q / 2 rounded up. With q mod 4 * h equal to 4 *
-- h - 1, k is 2 * h, which does not fit in its bits, and m is not increased. Conditions: those of the
-- ranges, 2 to 29 bits of k, the product below 2 ^ 64, and an integer part below 2 ^ 32.
pub calc_pmsk-Rounded :
    (f : PllFeatures) (c j : ℕ) (d : Pms)
    → c * 1000000 * 2 ^ 30 < 2 ^ 64
    → 0 < f.fvco_min
    → f.fvco_min ≤ c * 1000000 * 2 ^ 30
    → f.m_max < 4294967295
    → f.k_bits ≡ suc j
    → j < 29
    → c * 1000000 * 2 ^ d.s / 2 * 2 ^ (suc j + 1) < 2 ^ 64
    → c * 1000000 * 2 ^ d.s / 2 * 2 ^ (suc j + 1) / (f.finput / d.p) / 2 ^ (suc j + 1) < 2 ^ 32
    → calc_pmsk f c ≡ done d
    → Rounded (2 ^ j) (c * 1000000 * 2 ^ d.s / 2 * 2 ^ (suc j + 1) / (f.finput / d.p)) d.m d.k
calc_pmsk-Rounded f c j d small some_min enough h kb bits whole fits e =
    let exact = quotient_exact f d.p (c * 1000000 * 2 ^ d.s) j kb whole in
    let loop = find_s-Least (c * 1000000) f.fvco_min small some_min enough in
    let w = checked f c d e loop.0 loop.1 in
    let low = loop.2.small in
    let g = with_s-done f (divider_p f) loop.0 (c * 1000000 * 2 ^ loop.0) d w.0 h low in
    let fin = to_finish f (divider_p f) loop.0 (c * 1000000 * 2 ^ loop.0) d w.0 low in
    let same : quotient f (divider_p f) (c * 1000000 * 2 ^ loop.0)
        ≡ quotient f d.p (c * 1000000 * 2 ^ d.s) =
      rw g.0 (rw g.1 refl) in
    rw⁻¹ exact (
      finish-Rounded f (divider_p f) loop.0 (quotient f d.p (c * 1000000 * 2 ^ d.s)) j d
        (rw same at fin) kb bits h (rw exact fits))
