-- ===== src/Windows/Bits.antt =====
-- Masks of bits: how many are set, which is the first, and what find_set_bits_mask takes.
use google_modules_display_s.Prelude.{
  ℕ, zero, suc, ◌+◌, ◌<◌, ◌≤◌, ◌≡◌, refl, true, false, ◌&&◌, none, some, arith, ltb, ◌==◌, ◌⊎◌, inl,
  inr, Option-cases,
}
use google_modules_display_s.Windows.{
  Mask, no_bits, put_bit, clear_bit, bit_count, weight, first_bit, find_bits,
}

-- Where bits add up, so do their numbers.
pub weight_add :
    (n : ℕ) (f g h : Mask)
    → ((i : ℕ) → bit_count (f i) + bit_count (g i) ≡ bit_count (h i))
    → weight n f + weight n g ≡ weight n h
unfolding weight
weight_add zero f g h e = refl
weight_add (suc n) f g h e = omega (arith, weight_add n f g h e, e n)

pub weight-no_bits : (n : ℕ) → weight n no_bits ≡ 0
unfolding weight
weight-no_bits zero = refl
weight-no_bits (suc n) = omega (arith, weight-no_bits n)

weight-single : (n b : ℕ) → weight n (λ i. i == b) ≡ bit_count (ltb b n)
unfolding weight
weight-single zero b = ground arith
weight-single (suc n) b = ground (arith, weight-single n b)

-- A bit below the bound, added or taken away.
weight-put_bit :
    (n b : ℕ) (f : Mask) → f b ≡ false → b < n → weight n (put_bit b f) ≡ suc (weight n f)
weight-put_bit n b f e h =
    let parts = weight_add n f (λ i. i == b) (put_bit b f) (λ i. ground arith) in
    ground (arith, parts, weight-single n b)

weight-clear_bit :
    (n b : ℕ) (f : Mask) → f b ≡ true → b < n → suc (weight n (clear_bit b f)) ≡ weight n f
weight-clear_bit n b f e h =
    let parts = weight_add n (clear_bit b f) (λ i. i == b) f (λ i. ground arith) in
    ground (arith, parts, weight-single n b)

-- The bit that is found is set and below the bound; if none is, no bit is set.
pub first_bit-IsSet :
    (left i b : ℕ) (f : Mask)
    → first_bit left i f ≡ some b
    → (f b ≡ true) × (i ≤ b) × (b < i + left)
unfolding first_bit
first_bit-IsSet zero i b f e = ground arith
first_bit-IsSet (suc left) i b f e = ground (arith, first_bit-IsSet left (suc i) b f)

first_bit-none :
    (left i j : ℕ) (f : Mask) → first_bit left i f ≡ none → i ≤ j → j < i + left → f j ≡ false
unfolding first_bit
first_bit-none zero i j f e h k = absurd (omega arith)
first_bit-none (suc left) i j f e h k = ground (arith, first_bit-none left (suc i) j f)

pub weight_zero : (n : ℕ) (f : Mask) → ((j : ℕ) → j < n → f j ≡ false) → weight n f ≡ 0
unfolding weight
weight_zero zero f h = refl
weight_zero (suc n) f h = ground (arith, h n, weight_zero n f (λ j k. h j (omega arith)))

first_bit-cases :
    (f : Mask)
    → ((first_bit 32 0 f ≡ none) × (weight 32 f ≡ 0))
      ⊎ ((b : ℕ) × (first_bit 32 0 f ≡ some b) × (f b ≡ true) × (b < 32))
first_bit-cases f = elim (Option-cases (first_bit 32 0 f)) [
  | inl e ↦ inl (e, weight_zero 32 f (λ j k. first_bit-none 32 0 j f e (omega arith) k))
  | inr (b, e) ↦ let found = first_bit-IsSet 32 0 b f e in inr (b, e, found.0, omega (arith, found))
]

-- With enough bits, as many as asked for are taken, all of them from the mask.
pub record Takes (n : ℕ) (f out r : Mask) : Type 0 where
  pub many : weight 32 r ≡ weight 32 out + n
  pub from : (i : ℕ) → bit_count (r i) ≤ bit_count (out i) + bit_count (f i)

pub find_bits-Takes :
    (n : ℕ) (f out : Mask)
    → n ≤ weight 32 f
    → ((i : ℕ) → (f i && out i) ≡ false)
    → Takes n f out (find_bits n f out)
unfolding find_bits
find_bits-Takes zero f out h apart = record { many = omega arith; from = λ i. omega arith }
find_bits-Takes (suc n) f out h apart = elim (first_bit-cases f) [
  | inl (e, z) ↦ absurd (omega (arith, z))
  | inr (b, e, set, low) ↦
      let cleared = weight-clear_bit 32 b f set low in
      let added = weight-put_bit 32 b out (ground (arith, apart b)) low in
      let rest =
        find_bits-Takes n (clear_bit b f) (put_bit b out) (omega (arith, cleared))
          (λ i. ground (arith, apart i)) in
      rw (e, find_bits)
        (record { many = omega (arith, rest.many, added); from = λ i. ground (arith, rest.from i) })
]

-- With too few, the mask is 0.
pub find_bits_short : (n : ℕ) (f out : Mask) → weight 32 f < n → find_bits n f out ≡ no_bits
unfolding find_bits
find_bits_short zero f out h = absurd (omega arith)
find_bits_short (suc n) f out h = elim (first_bit-cases f) [
  | inl (e, z) ↦ rw (e, find_bits) refl
  | inr (b, e, set, low) ↦
      let cleared = weight-clear_bit 32 b f set low in
      rw (e, find_bits) (find_bits_short n (clear_bit b f) (put_bit b out) (omega (arith, cleared)))
]
