-- ===== src/Panel/Stats/Index.antt =====
-- The place of a resolution and a refresh rate among the counters of a state.
use google_modules_display_s.Prelude.{
  ℕ, suc, ◌+◌, ◌*◌, ◌/◌, ◌%◌, ◌<◌, ◌≡◌, refl, sym, ap, ◌∙◌, Bool, true, false, ◌||◌, Option, none,
  some, List, [], ◌∷◌, arith, length, get_elem?, Bool-cases, inl, inr,
}
use google_modules_display_s.Panel.{DisplayState, off, Resolution}
use google_modules_display_s.Panel.Stats.{
  same_res, same_rate, same_state, DisplayStats, next_place, index_of, rates, place,
  get_time_state_idx,
}
use native.Mathlib.Nat.{div-eq_of_lt, mod-eq_of_lt, add-mul-div_right, add-mul-mod_self_right}

-- A place of a table, with the value there.
pub record Found {A : Type 0} (p : A → Bool) (xs : List A) (i : ℕ) : Type 0 where
  pub value : A
  pub there : get_elem? xs i ≡ some value
  pub fits : p value ≡ true
  pub inside : i < length xs

module _ {A : Type 0} (p : A → Bool) where
  next-Found :
      (x : A) (xs : List A) (i : ℕ) (o : Option ℕ)
      → ((j : ℕ) → o ≡ some j → Found p xs j)
      → next_place o ≡ some i
      → Found p (x ∷ xs) i
  unfolding next_place
  next-Found x xs i none f e = ground arith
  next-Found x xs i (some j) f e =
      let r = f j refl in
      let s : suc j ≡ i = ground arith in
      rw (sym s) (record {
        value = r.value;
        there = r.there;
        fits = r.fits;
        inside = omega (arith, r.inside);
      })

  pub index_of-Found : (xs : List A) (i : ℕ) → index_of p xs ≡ some i → Found p xs i
  unfolding index_of
  index_of-Found [] i e = ground arith
  index_of-Found (x ∷ xs) i e = elim (Bool-cases (p x)) [
    | inl b ↦
        let s : 0 ≡ i = ground arith in
        rw (sym s) (record { value = x; there = refl; fits = b; inside = omega arith })
    | inr b ↦ next-Found x xs i (index_of p xs) (λ j f. index_of-Found xs j f) (ground arith)
  ]

-- What the place of a state stands for.
pub record StandsFor (s : DisplayStats) (state : DisplayState) (v : ℕ) (r : Resolution) (i : ℕ)
    : Type 0 where
  pub res : Resolution
  pub at : get_elem? s.res_table (i / length (rates s state)) ≡ some res
  pub wide : res.hdisplay ≡ r.hdisplay
  pub high : res.vdisplay ≡ r.vdisplay
  pub rate : get_elem? (rates s state) (i % length (rates s state)) ≡ some v

decode : (v n r : ℕ) → v < n → ((r * n + v) / n ≡ r) × ((r * n + v) % n ≡ v)
decode v n r h =
    let pos : 0 < n = omega arith in
    let q = div-eq_of_lt h in
    let w = mod-eq_of_lt h in
    let c : r * n + v ≡ v + r * n = omega arith in
    (
      ap (λ t. t / n) c ∙ (add-mul-div_right v r pos ∙ omega (arith, q)),
      ap (λ t. t % n) c ∙ (add-mul-mod_self_right v r n ∙ w),
    )

place-StandsFor :
    (s : DisplayStats) (state : DisplayState) (v : ℕ) (r : Resolution) (i : ℕ) (a b : Option ℕ)
    → ((j : ℕ) → a ≡ some j → Found (λ x. same_res x r) s.res_table j)
    → ((j : ℕ) → b ≡ some j → Found (λ x. same_rate x v) (rates s state) j)
    → place s state a b ≡ some i
    → StandsFor s state v r i × (i < s.available state)
unfolding place
place-StandsFor s state v r i none b f g e = ground arith
place-StandsFor s state v r i (some k) none f g e = ground arith
place-StandsFor s state v r i (some k) (some l) f g e =
    let x = f k refl in
    let y = g l refl in
    let d = decode l (length (rates s state)) k y.inside in
    let same : k * length (rates s state) + l ≡ i = ground arith in
    let less : i < s.available state = ground arith in
    let right : y.value ≡ v = ground (arith, y.fits) in
    let w : x.value.hdisplay ≡ r.hdisplay = ground (arith, x.fits) in
    let h : x.value.vdisplay ≡ r.vdisplay = ground (arith, x.fits) in
    (
      record {
        res = x.value;
        at = rw (sym same, d.0) x.there;
        wide = w;
        high = h;
        rate = rw (sym same, d.1, sym right) y.there;
      },
      less,
    )

-- The place that a resolution and a rate have among the counters of a state that is not off says
-- which they are: the quotient by the number of rates is the place of the resolution in its table,
-- and the remainder that of the rate in the table of the state; and it is one of the counters.
pub get_time_state_idx-StandsFor :
    (s : DisplayStats) (state : DisplayState) (v : ℕ) (r : Resolution) (i : ℕ)
    → same_state state off ≡ false
    → get_time_state_idx s state v r ≡ some i
    → StandsFor s state v r i × (i < s.available state)
unfolding get_time_state_idx
get_time_state_idx-StandsFor s state v r i n e =
    place-StandsFor s state v r i (index_of (λ x. same_res x r) s.res_table)
      (index_of (λ x. same_rate x v) (rates s state))
      (λ j h. index_of-Found (λ x. same_res x r) s.res_table j h)
      (λ j h. index_of-Found (λ x. same_rate x v) (rates s state) j h) (ground arith)

-- A place is one of the counters of its state.
pub get_time_state_idx-inside :
    (s : DisplayStats) (state : DisplayState) (v : ℕ) (r : Resolution) (i : ℕ)
    → get_time_state_idx s state v r ≡ some i
    → i < s.available state
unfolding get_time_state_idx
get_time_state_idx-inside s state v r i e = elim (Bool-cases (same_state state off)) [
  | inl b ↦ ground arith
  | inr b ↦ (get_time_state_idx-StandsFor s state v r i b e).1
]

module _ {A : Type 0} (p : A → Bool) where
  -- Whether some value passes a test.
  unfoldable pub has : List A → Bool
  has [] = false
  has (x ∷ xs) = p x || has xs

  some_place :
      (xs : List A) (o : Option ℕ)
      → ((o ≡ none) → has xs ≡ false)
      → has xs ≡ true
      → (i : ℕ) × (o ≡ some i)
  some_place xs none f h = ground (arith, f refl)
  some_place xs (some i) f h = (i, refl)

  next-none : (o : Option ℕ) → next_place o ≡ none → o ≡ none
  unfolding next_place
  next-none none e = refl
  next-none (some i) e = ground arith

  index_of-none : (xs : List A) → index_of p xs ≡ none → has xs ≡ false
  unfolding index_of has
  index_of-none [] e = refl
  index_of-none (x ∷ xs) e = ground (arith, index_of-none xs, next-none (index_of p xs))

  pub index_of-some : (xs : List A) → has xs ≡ true → (i : ℕ) × (index_of p xs ≡ some i)
  index_of-some xs h = some_place xs (index_of p xs) (index_of-none xs) h
