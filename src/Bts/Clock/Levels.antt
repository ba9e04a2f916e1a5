-- ===== src/Bts/Clock/Levels.antt =====
-- The search for a frequency level.
use google_modules_display_s.Prelude.{
  ℕ, zero, suc, ◌≤◌, ◌<◌, ◌≡◌, List, length, get_or, arith, leb, leb→le, Bool-cases, false,
  ℕ_discrete, inl, inr, leb-false,
}
use google_modules_display_s.Bts.Clock.{nearest_from, find_nearest_high_freq}

-- `i` is the last level, and so the lowest clock of a table in falling order, that reaches `base`.
pub record IsNearest (lv : List ℕ) (base n i : ℕ) : Type 0 where
  pub in_range : i < n
  pub reaches : base ≤ get_or lv i 0
  pub last : (j : ℕ) → i < j → j < n → get_or lv j 0 < base

-- What holds below n and at n holds below n + 1.
last_of :
    (lv : List ℕ) (base n j : ℕ)
    → get_or lv n 0 < base
    → (j < n → get_or lv j 0 < base)
    → j < suc n
    → get_or lv j 0 < base
last_of lv base n j at below h = elim (ℕ_discrete j n) [
  | yes e ↦ rw e at
  | no ne ↦ below (omega arith)
]

above_zero :
    (lv : List ℕ) (base n : ℕ) → base ≤ get_or lv 0 0 → leb base (get_or lv n 0) ≡ false → 0 < n
above_zero lv base zero h t = ground arith
above_zero lv base (suc n) h t = omega arith

nearest_from-IsNearest :
    (lv : List ℕ) (base n : ℕ)
    → base ≤ get_or lv 0 0
    → 0 < n
    → IsNearest lv base n (nearest_from lv base n)
unfolding nearest_from
nearest_from-IsNearest lv base zero h p = absurd (omega arith)
nearest_from-IsNearest lv base (suc n) h p = elim (Bool-cases (leb base (get_or lv n 0))) [
  | inl t ↦ rw t (record {
    in_range = omega arith;
    reaches = leb→le _ _ t;
    last = λ j above below. absurd (omega arith);
  })
  | inr t ↦
      let ih = nearest_from-IsNearest lv base n h (above_zero lv base n h t) in
      rw t (record {
        in_range = let i = ih.in_range in omega arith;
        reaches = ih.reaches;
        last = λ j above below. last_of lv base n j (leb-false _ _ t) (ih.last j above) below;
      })
]

-- For a clock that the highest level reaches, the level that is found exists and reaches it, and no
-- lower level does. For a higher clock it is the highest level.
pub find_nearest_high_freq-IsNearest :
    (lv : List ℕ) (base : ℕ)
    → 0 < length lv
    → (base ≤ get_or lv 0 0 → IsNearest lv base (length lv) (find_nearest_high_freq lv base))
      × (get_or lv 0 0 < base → find_nearest_high_freq lv base ≡ 0)
unfolding find_nearest_high_freq
find_nearest_high_freq-IsNearest lv base h =
    ground (arith, nearest_from-IsNearest lv base (length lv))
