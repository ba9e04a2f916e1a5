-- ===== src/Dqe/Gray.antt =====
-- The gray level that LHBM reads from the histogram.
use google_modules_display_s.Prelude.{
  ℕ, suc, ◌+◌, ◌*◌, ◌/◌, ◌≤◌, ◌<◌, ◌≡◌, Bool, true, ◌&&◌, List, [], ◌∷◌, arith, ltb, length, u32,
}
use native.Mathlib.Nat.{div-le_of_le-mul, mul-le-mul_left}
use google_modules_display_s.Dqe.State.{histogram_chan_lhbm, Dqe}
use google_modules_display_s.Dqe.{lhbm_sums, lhbm_callback}

-- The sum of the bins, and that of the bins times their places.
abbrev pub sum_bins : List ℕ → ℕ
sum_bins [] = 0
sum_bins (x ∷ xs) = x + sum_bins xs

abbrev pub weighted_from : ℕ → List ℕ → ℕ
weighted_from i [] = 0
weighted_from i (x ∷ xs) = x * i + weighted_from (suc i) xs

-- A bin is a number of 16 bits.
abbrev pub are_words : List ℕ → Bool
are_words [] = true
are_words (x ∷ xs) = ltb x 65536 && are_words xs

mul-bound : (x i : ℕ) → i ≤ 255 → x * i ≤ x * 255
mul-bound x i h = mul-le-mul_left x h

-- The sums of 256 bins are below 2 ^ 32.
lhbm_sums-Exact :
    (i sum weighted_sum : ℕ) (xs : List ℕ)
    → i + length xs ≤ 256
    → are_words xs ≡ true
    → sum ≤ i * 65535
    → weighted_sum ≤ i * 16711425
    → lhbm_sums i sum weighted_sum xs ≡ (sum + sum_bins xs, weighted_sum + weighted_from i xs)
unfolding lhbm_sums
lhbm_sums-Exact i s w [] l a hs hw = ground arith
lhbm_sums-Exact i s w (x ∷ xs) l a hs hw =
    let small : x < 65536 = ground (arith, a) in
    let m : x * i ≤ 16711425 = omega (arith, mul-bound x i (omega arith)) in
    let s1 : u32 (s + x) ≡ s + x = omega arith in
    let w1 : u32 (w + u32 (x * i)) ≡ w + x * i = omega (arith, m) in
    let ih =
      lhbm_sums-Exact (suc i) (s + x) (w + x * i) xs (omega arith) (ground (arith, a)) (omega arith)
        (omega (arith, m)) in
    ground (arith, s1, w1, ih)

weighted-bound :
    (i : ℕ) (xs : List ℕ) → i + length xs ≤ 256 → weighted_from i xs ≤ sum_bins xs * 255
weighted-bound i [] l = omega arith
weighted-bound i (x ∷ xs) l =
    omega (arith, mul-bound x i (omega arith), weighted-bound (suc i) xs (omega arith))

-- For at most 256 bins of 16 bits that are not all empty, the callback of the LHBM channel sets the
-- gray level to the mean place of the bins, without wrapping around in 32 bits, and it is at most 255.
pub lhbm_callback-Mean :
    (bins : List ℕ) (d : Dqe)
    → length bins ≤ 256
    → are_words bins ≡ true
    → 0 < sum_bins bins
    → ((lhbm_callback histogram_chan_lhbm bins d).lhbm_gray_level
        ≡ weighted_from 0 bins / sum_bins bins)
      × ((lhbm_callback histogram_chan_lhbm bins d).lhbm_gray_level ≤ 255)
unfolding lhbm_callback
lhbm_callback-Mean bins d l a n =
    let e = lhbm_sums-Exact 0 0 0 bins (omega (arith, l)) a (omega arith) (omega arith) in
    let mean : (lhbm_callback histogram_chan_lhbm bins d).lhbm_gray_level
        ≡ weighted_from 0 bins / sum_bins bins =
      ground (arith, e, n) in
    let bound : weighted_from 0 bins / sum_bins bins ≤ 255 =
      div-le_of_le-mul (sum_bins bins) (weighted-bound 0 bins (omega (arith, l))) in
    (mean, omega (arith, mean, bound))
