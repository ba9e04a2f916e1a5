-- ===== src/Dsim/Pll/Fraction.antt =====
-- The integer part m and the fraction k that dsim_calc_pmsk cuts out of the quotient.
use google_modules_display_s.Prelude.{
  ℕ, suc, ◌+◌, ◌-◌, ◌*◌, ◌/◌, ◌%◌, ◌^◌, ◌≤◌, ◌<◌, ◌≡◌, refl, sym, ap, true, arith, if◌then◌else◌,
  ◌∙◌, ◌↔◌, Bool, ==_iff, leb,
}
use native.Mathlib.Nat.{
  pow-le-pow_right, mod-eq_of_lt, div-eq_of_lt-le, div-add-mod', div-eq_of_lt, mod-lt, pow-suc,
  one-le-pow,
}
use google_modules_display_s.Dsim.Pll.{PllFeatures, Pms, done, finish, int_part, frac_part, top_bit}

-- The bit of value h in a number up to 2 * h.
bit_of : (h k : ℕ) → 0 < h → k ≤ 2 * h → (k / h % 2 ≡ 1) ↔ ((h ≤ k) × (k < 2 * h))
bit_of h k pos le =
    let below : k < h → k / h ≡ 0 = λ b. div-eq_of_lt b in
    let inside : h ≤ k → k < 2 * h → k / h ≡ 1 =
      λ a b. div-eq_of_lt-le h (omega arith) (omega arith) in
    let at : k ≡ 2 * h → k / h ≡ 2 = λ e. div-eq_of_lt-le h (omega arith) (omega arith) in
    ground (arith, below, inside, at)

-- Cutting q at 4 * h, the lower part rounded up to a multiple of 2, is rounding q up.
cut : (h q : ℕ) → 0 < h → q / (4 * h) * (2 * h) + (q % (4 * h) + 1) / 2 ≡ (q + 1) / 2
cut h q pos =
    let e = div-add-mod' q (4 * h) in
    let a : q / (4 * h) * (4 * h) ≡ 2 * (q / (4 * h) * (2 * h)) = grind arith in omega arith

pub top_bit_iff :
    (j k : ℕ) → k ≤ 2 * 2 ^ j → (top_bit (suc j) k ≡ true) ↔ ((2 ^ j ≤ k) × (k < 2 * 2 ^ j))
unfolding top_bit
top_bit_iff j k le =
    let pos : 0 < 2 ^ j = one-le-pow j 2 (omega arith) in
    let same : suc j - 1 ≡ j = omega arith in
    rw same (ground (arith, bit_of (2 ^ j) k pos le, ==_iff (k / 2 ^ j % 2) 1))

-- What is read off an accepted quotient, for a fraction of `suc j` bits.
parts :
    (f : PllFeatures) (p s q j : ℕ) (d : Pms)
    → finish f p s q ≡ done d
    → f.k_bits ≡ suc j
    → f.m_max < 4294967295
    → (d.m ≡ int_part (suc j) q + (if top_bit (suc j) d.k then 1 else 0))
      × (d.k ≡ frac_part (suc j) q)
unfolding finish
parts f p s q j d e kb m = ground arith

parts_nat :
    (j q : ℕ)
    → j < 29
    → q / 2 ^ (suc j + 1) < 2 ^ 32
    → (h : ℕ) → 2 ^ j ≡ h
    → (int_part (suc j) q ≡ q / (4 * h)) × (frac_part (suc j) q ≡ (q % (4 * h) + 1) / 2)
unfolding int_part frac_part
parts_nat j q small fits h e =
    let le : 2 ^ j ≤ 2 ^ 28 = pow-le-pow_right (omega arith) {j = 28} (omega arith) in
    let shift : 2 ^ (suc j + 1) ≡ 2 ^ suc (suc j) = ap (λ (i : ℕ). 2 ^ i) (omega arith) in
    let four : 2 ^ (suc j + 1) ≡ 4 * h = omega (arith, shift, e, pow-suc 2 (suc j), pow-suc 2 j) in
    let pos : 1 ≤ 2 ^ j = one-le-pow j 2 (omega arith) in
    let fits' : q / (4 * h) < 2 ^ 32 = rw four at fits in
    let low : q % (4 * h) < 4 * h = mod-lt q (omega arith) in
    (
      rw four (mod-eq_of_lt fits'),
      rw four (ap (λ (r : ℕ). (r + 1) / 2) (mod-eq_of_lt (omega arith))),
    )

-- m and k as a number q is rounded to, with h the value of k's top bit. A k with its top bit set stands for
-- k - 2 * h.
pub record Rounded (h q m k : ℕ) : Type 0 where
  pub value :
      q % (4 * h) + 1 < 4 * h → m * (2 * h) + k ≡ (q + 1) / 2 + (if leb h k then 2 * h else 0)
  pub fits : q % (4 * h) + 1 < 4 * h → k < 2 * h
  pub full : q % (4 * h) + 1 ≡ 4 * h → (k ≡ 2 * h) × (m ≡ q / (4 * h))

rounded :
    (h q m k : ℕ) (b : Bool)
    → 0 < h
    → k ≡ (q % (4 * h) + 1) / 2
    → m ≡ q / (4 * h) + (if b then 1 else 0)
    → ((b ≡ true) ↔ ((h ≤ k) × (k < 2 * h)))
    → Rounded h q m k
rounded h q m k b pos ek em iff =
    let c = cut h q pos in
    let low : q % (4 * h) < 4 * h = mod-lt q (omega arith) in
    record {
      value = λ u.
          let more : (q / (4 * h) + 1) * (2 * h) ≡ q / (4 * h) * (2 * h) + 2 * h = grind arith in
          let none_more : (q / (4 * h) + 0) * (2 * h) ≡ q / (4 * h) * (2 * h) = grind arith in
          let em' : m * (2 * h) ≡ (q / (4 * h) + (if b then 1 else 0)) * (2 * h) =
            ap (λ (x : ℕ). x * (2 * h)) em in
          ground (arith, c, more, none_more);
      fits = λ u. omega arith;
      full = λ u. ground arith;
    }

pub finish-Rounded :
    (f : PllFeatures) (p s q j : ℕ) (d : Pms)
    → finish f p s q ≡ done d
    → f.k_bits ≡ suc j
    → j < 29
    → f.m_max < 4294967295
    → q / 2 ^ (suc j + 1) < 2 ^ 32
    → Rounded (2 ^ j) q d.m d.k
finish-Rounded f p s q j d e kb bits m fits =
    let r = parts f p s q j d e kb m in
    let n = parts_nat j q bits fits (2 ^ j) refl in
    let pos : 1 ≤ 2 ^ j = one-le-pow j 2 (omega arith) in
    let low : q % (4 * 2 ^ j) < 4 * 2 ^ j = mod-lt q (omega arith) in
    let ek = r.1 ∙ n.1 in
    let le : d.k ≤ 2 * 2 ^ j = omega arith in
    rounded (2 ^ j) q d.m d.k (top_bit (suc j) d.k) pos ek (rw (sym n.0) r.0) (top_bit_iff j d.k le)
