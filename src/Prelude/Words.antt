-- ===== src/Prelude/Words.antt =====
-- Machine words as native numbers, and the arithmetic macros of the kernel's headers.
-- A division by 0 has no meaning in C. Here it gives 0, and the theorems rule it out.
use Prim.Native.Nat.{ℕ, ◌+◌, ◌-◌, ◌*◌, ◌/◌, ◌%◌, ◌≤◌, ◌<◌}
use mathlib.Core.Path.{◌≡◌, ap, ◌∙◌, sym}
use native.Mathlib.Nat.{div-add-mod, add-mul-div_right, div-le_self, mod-eq_of_lt}
use native.Mathlib.Decide.{dec_le}
use native.Mathlib.Omega.{arith}

abbrev pub u32 : ℕ → ℕ
u32 n = n % 4294967296

abbrev pub u64 : ℕ → ℕ
u64 n = n % 18446744073709551616

-- `a - b` on two values below the modulus.
abbrev pub sub32 : ℕ → ℕ → ℕ
sub32 a b = (a + 4294967296 - b) % 4294967296

abbrev pub div_round_up : ℕ → ℕ → ℕ
div_round_up n d = (n + d - 1) / d

abbrev pub div_round_closest : ℕ → ℕ → ℕ
div_round_closest n d = (n + d / 2) / d

-- `mult_frac(x, n, d)`: x * n / d by the quotient and the remainder of x, on 32-bit words.
abbrev pub mult_frac32 : ℕ → ℕ → ℕ → ℕ
mult_frac32 x n d = u32 (x / d * n + u32 (x % d * n) / d)

abbrev pub mult_frac64 : ℕ → ℕ → ℕ → ℕ
mult_frac64 x n d = u64 (x / d * n + u64 (x % d * n) / d)

split_product : (x n d : ℕ) → x * n ≡ x % d * n + x / d * n * d
split_product x n d = ap (λ (t : ℕ). t * n) (sym (div-add-mod x d)) ∙ omega arith

-- Where the product fits, the macro gives the quotient rounded down.
pub mult_frac32-eq_div : (x n d : ℕ) → 0 < d → x * n < 4294967296 → mult_frac32 x n d ≡ x * n / d
mult_frac32-eq_div x n d pos fits =
    let q : ℕ = x / d * n in
    let r : ℕ = x % d * n in
    let e = split_product x n d in
    let s = add-mul-div_right r q pos in
    let small : r < 4294967296 = grind arith in
    let f : (r + q * d) / d ≡ x * n / d = ap (λ (t : ℕ). t / d) (sym e) in
    rw (mod-eq_of_lt small) (omega (arith, f, s, div-le_self (x * n) d))

-- A bound on multiples of d is a bound on the factors.
pub le_of_mul_lt : (a b d : ℕ) → a * d < b * d + d → a ≤ b
le_of_mul_lt a b d h = elim (dec_le a b) [
  | yes p ↦ p
  | no p ↦
      absurd (
        let q : b + 1 ≤ a = omega arith in let m : (b + 1) * d ≤ a * d = grind arith in omega arith)
]
