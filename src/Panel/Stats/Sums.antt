-- ===== src/Panel/Stats/Sums.antt =====
-- The sum of all counters, and what one update does to it.
use google_modules_display_s.Prelude.{
  ℕ, zero, suc, ◌+◌, ◌<◌, ◌≤◌, ◌≡◌, refl, List, [], ◌∷◌, arith, if◌then◌else◌, length, set, get_or,
  replicate, u64, Bool-cases, inl, inr, length-set,
}
use google_modules_display_s.Panel.{DisplayState, on, hbm, lp, off}
use google_modules_display_s.Panel.Stats.{same_state, add_time}
use native.Mathlib.Nat.{mod-eq_of_lt}

unfoldable pub sum : List ℕ → ℕ
sum [] = 0
sum (x ∷ xs) = x + sum xs

abbrev pub total : (DisplayState → List ℕ) → ℕ
total time = sum (time on) + sum (time hbm) + sum (time lp) + sum (time off)

-- The lists of counters, with one changed.
abbrev pub put : DisplayState → (List ℕ → List ℕ) → (DisplayState → List ℕ) → DisplayState → List ℕ
put st more time t = if same_state t st then more (time t) else time t

get_or-le-sum : (xs : List ℕ) (i : ℕ) → get_or xs i 0 ≤ sum xs
unfolding sum
get_or-le-sum [] i = omega arith
get_or-le-sum (x ∷ xs) zero = omega arith
get_or-le-sum (x ∷ xs) (suc i) = omega (arith, get_or-le-sum xs i)

sum-set : (xs : List ℕ) (i v : ℕ) → i < length xs → sum (set xs i (get_or xs i 0 + v)) ≡ sum xs + v
unfolding sum
sum-set [] i v h = absurd (omega arith)
sum-set (x ∷ xs) zero v h = omega arith
sum-set (x ∷ xs) (suc i) v h = omega (arith, sum-set xs i v (omega (arith, h)))

-- A counter below its limit is increased, and its list keeps its length.
sum-add_time :
    (i d : ℕ) (xs : List ℕ)
    → i < length xs
    → sum xs + d < 18446744073709551616
    → (sum (add_time i d xs) ≡ sum xs + d) × (length (add_time i d xs) ≡ length xs)
unfolding add_time
sum-add_time i d xs h fits =
    let small : get_or xs i 0 + d < 18446744073709551616 = omega (arith, get_or-le-sum xs i) in
    let w = mod-eq_of_lt small in
    (rw (w) (sum-set xs i d h), length-set xs i (u64 (get_or xs i 0 + d)))

pub sum-replicate : (n : ℕ) → sum (replicate n 0) ≡ 0
unfolding sum
sum-replicate zero = refl
sum-replicate (suc n) = omega (arith, sum-replicate n)

pub total-put :
    (st : DisplayState) (i d : ℕ) (time : DisplayState → List ℕ)
    → i < length (time st)
    → total time + d < 18446744073709551616
    → total (put st (add_time i d) time) ≡ total time + d
total-put on i d time h f = omega (arith, (sum-add_time i d (time on) h (omega arith)).0)
total-put hbm i d time h f = omega (arith, (sum-add_time i d (time hbm) h (omega arith)).0)
total-put lp i d time h f = omega (arith, (sum-add_time i d (time lp) h (omega arith)).0)
total-put off i d time h f = omega (arith, (sum-add_time i d (time off) h (omega arith)).0)

length-add_time : (i d : ℕ) (xs : List ℕ) → length (add_time i d xs) ≡ length xs
unfolding add_time
length-add_time i d xs = length-set xs i (u64 (get_or xs i 0 + d))

pub length-put :
    (st t : DisplayState) (i d : ℕ) (time : DisplayState → List ℕ)
    → length (put st (add_time i d) time t) ≡ length (time t)
length-put st t i d time = elim (Bool-cases (same_state t st)) [
  | inl b ↦ rw (b) (length-add_time i d (time t))
  | inr b ↦ rw (b) refl
]
