-- ===== src/Dpp/Align.antt =====
-- The test by a mask is divisibility, for a power of two.
use google_modules_display_s.Prelude.{
  ℕ, zero, suc, ◌+◌, ◌-◌, ◌*◌, ◌/◌, ◌%◌, ◌^◌, ◌≡◌, ◌≤◌, ◌<◌, ◌↔◌, sym, ap, ◌∙◌, true, arith, min,
  sub32, ==_iff,
}
use Prim.Native.Nat.{bit_and, digits, bit_and-bitwise}
use native.Mathlib.Nat.{
  div-add-mod', mod-lt, mod-eq_of_lt, add-mul-mod_self_right, two-pow-succ, one-le-pow,
  pow-le-pow_right, mod-one, zero-mod,
}
use google_modules_display_s.Dpp.{is_aligned}

-- The remainder by 2 * m, digit by digit.
mod_double : (x m : ℕ) → 0 < m → x % (m + m) ≡ x / 2 % m * 2 + x % 2
mod_double x m pos =
    let low : ℕ = x / 2 % m * 2 + x % 2 in
    let r = mod-lt (x / 2) pos in
    let small : low < m + m = omega arith in
    let e = div-add-mod' (x / 2) m in
    let whole : x / 2 / m * (m + m) ≡ 2 * (x / 2 / m * m) = grind arith in
    let split : low + x / 2 / m * (m + m) ≡ x = omega arith in
    ap (λ (t : ℕ). t % (m + m)) (sym split)
    ∙ add-mul-mod_self_right low (x / 2 / m) (m + m)
    ∙ mod-eq_of_lt small

masked : (n a k : ℕ) → a ≤ n → digits (λ b. zero) min n a (2 ^ k - 1) ≡ a % 2 ^ k
masked zero zero k h = sym (zero-mod (2 ^ k))
masked zero (suc a) k h = absurd (omega arith)
masked (suc n) zero k h = sym (zero-mod (2 ^ k))
masked (suc n) (suc a) zero h =
    let ih = masked n (suc a / 2) zero (omega arith) in
    omega (arith, ih, mod-one (suc a), mod-one (suc a / 2))
masked (suc n) (suc a) (suc k) h =
    let ih = masked n (suc a / 2) k (omega arith) in
    let p : 1 ≤ 2 ^ k = one-le-pow k 2 (omega arith) in
    let d = two-pow-succ k in
    let half : (2 ^ suc k - 1) / 2 ≡ 2 ^ k - 1 = omega arith in
    let odd : (2 ^ suc k - 1) % 2 ≡ 1 = omega arith in
    let m : suc a % 2 ^ suc k ≡ suc a / 2 % 2 ^ k * 2 + suc a % 2 =
      ap (λ (t : ℕ). suc a % t) d ∙ mod_double (suc a) (2 ^ k) p in
    ap
      (λ (b : ℕ).
        digits (λ b. zero) min n (suc a / 2) b * 2 + min (suc a % 2) ((2 ^ suc k - 1) % 2))
      half
    ∙ omega (arith, ih, odd, m)

-- On 32 bits, IS_ALIGNED for a power of two is divisibility.
pub is_aligned_iff : (x k : ℕ) → k < 32 → (is_aligned x (2 ^ k) ≡ true) ↔ (x % 2 ^ k ≡ 0)
unfolding is_aligned
is_aligned_iff x k small =
    let most : 2 ^ k ≤ 2 ^ 31 = pow-le-pow_right (omega arith) {j = 31} (omega arith) in
    let p : 1 ≤ 2 ^ k = one-le-pow k 2 (omega arith) in
    let mask : sub32 (2 ^ k) 1 ≡ 2 ^ k - 1 = omega arith in
    let e : bit_and x (sub32 (2 ^ k) 1) ≡ x % 2 ^ k =
      ap (bit_and x) mask ∙ bit_and-bitwise x (2 ^ k - 1) ∙ masked x x k (omega arith) in
    rw e (==_iff (x % 2 ^ k) 0)
