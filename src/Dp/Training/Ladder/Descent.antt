-- ===== src/Dp/Training/Ladder/Descent.antt =====
-- The row of links that dp_do_full_link_training goes down is the ladder, from any standard rate.
use google_modules_display_s.Prelude.{
  ℕ, ◌+◌, ◌/◌, ◌<◌, ◌≡◌, refl, sym, ap, ◌∙◌, true, none, some, List, [], ◌∷◌, ◌++◌, map, length,
  length-append, length-map, arith, inl, inr, ◌⊎◌, ltb, leb,
}
use google_modules_display_s.Dp.{Rates, Link, Dp, get_max_link_rate, is_valid_rate, is_valid_lanes}
use google_modules_display_s.Dp.Training.{Line, next_link, get_lower_link_rate, full_training}
use google_modules_display_s.Dp.Training.Ladder.{
  on_lanes, keep, rungs, ladder, try_each, Chain, training_tries,
}

module _ (r : Rates) (top : ℕ) where
  hbr3_down : (n : ℕ) → next_link r top (on_lanes r n 30) ≡ some (on_lanes r n 20)
  unfolding next_link get_lower_link_rate
  hbr3_down n = rw r.code_hbr3 refl

  hbr2_down : (n : ℕ) → next_link r top (on_lanes r n 20) ≡ some (on_lanes r n 10)
  unfolding next_link get_lower_link_rate
  hbr2_down n = rw r.code_hbr2 refl

  hbr_down : (n : ℕ) → next_link r top (on_lanes r n 10) ≡ some (on_lanes r n 6)
  unfolding next_link get_lower_link_rate
  hbr_down n = rw r.code_hbr refl

  halve :
      (n : ℕ)
      → ltb 1 n ≡ true
      → next_link r top (on_lanes r n 6) ≡ some (record { link_rate = top; num_lanes = n / 2 })
  unfolding next_link
  halve n h = rw r.code_rbr (rw h refl)

  bottom : next_link r top (on_lanes r 1 6) ≡ none
  unfolding next_link
  bottom = rw r.code_rbr refl

  -- The rates below `c` are `cs`.
  Below : ℕ → List ℕ → Type 0
  Below c cs =
      (n : ℕ) (ls : List Link)
      → Chain r top (on_lanes r n 6) ls
      → Chain r top (on_lanes r n c) (map (on_lanes r n) cs ++ ls)

  from_rbr : Below 6 []
  unfolding Below
  from_rbr n ls c = c

  from_hbr : Below 10 (6 ∷ [])
  unfolding Below
  from_hbr n ls c = (hbr_down n, c)

  from_hbr2 : Below 20 (10 ∷ 6 ∷ [])
  unfolding Below
  from_hbr2 n ls c = (hbr2_down n, from_hbr n ls c)

  from_hbr3 : Below 30 (20 ∷ 10 ∷ 6 ∷ [])
  unfolding Below
  from_hbr3 n ls c = (hbr3_down n, from_hbr2 n ls c)

  module _ (c : ℕ) (cs : List ℕ) (below : Below c cs) (at_top : top ≡ r.link_rate c) where
    at_one : Chain r top (on_lanes r 1 c) (map (on_lanes r 1) cs ++ [])
    unfolding Below
    at_one = below 1 [] bottom

    halved :
        (n m : ℕ)
        → ltb 1 n ≡ true
        → n / 2 ≡ m
        → next_link r top (on_lanes r n 6) ≡ some (on_lanes r m c)
    halved n m h e =
        halve n h
        ∙ ap (λ (x : ℕ). some (record { link_rate = x; num_lanes = n / 2 })) at_top
        ∙ ap (λ (x : ℕ). some (on_lanes r x c)) e

    at_two :
        Chain r top
          (on_lanes r 2 c)
          (map (on_lanes r 2) cs ++ (on_lanes r 1 c ∷ (map (on_lanes r 1) cs ++ [])))
    unfolding Below
    at_two = below 2 _ (halved 2 1 refl refl, at_one)

    at_four : Chain r top (on_lanes r 4 c) (
        map (on_lanes r 4) cs
        ++ (on_lanes r 2 c
            ∷ (map (on_lanes r 2) cs ++ (on_lanes r 1 c ∷ (map (on_lanes r 1) cs ++ [])))))
    unfolding Below
    at_four = below 4 _ (halved 4 2 refl refl, at_two)

lanes_cases : (n : ℕ) → is_valid_lanes n ≡ true → (n ≡ 1) ⊎ ((n ≡ 2) ⊎ (n ≡ 4))
unfolding is_valid_lanes
lanes_cases n v = ground arith

rate_cases :
    (r : Rates) (x : ℕ)
    → is_valid_rate r x ≡ true
    → (x ≡ r.link_rate 6) ⊎ ((x ≡ r.link_rate 10) ⊎ ((x ≡ r.link_rate 20) ⊎ (x ≡ r.link_rate 30)))
unfolding is_valid_rate
rate_cases r x v = ground arith

module _ (r : Rates) (top : ℕ) (c : ℕ) (cs : List ℕ) (below : Below r top c cs)
    (at_top : top ≡ r.link_rate c) (short : length cs < 4)
    (all : keep (λ d. leb d (r.bw_code top)) (30 ∷ 20 ∷ 10 ∷ 6 ∷ []) ≡ c ∷ cs) where
  -- What follows the first link of the ladder.
  Follows : ℕ → Type 0
  Follows n =
      (ls : List Link) × (ladder r top n ≡ on_lanes r n c ∷ ls)
      × Chain r top (on_lanes r n c) ls
      × (length ls < 12)

  row_length :
      (n : ℕ) (ls : List Link) → length (map (on_lanes r n) cs ++ ls) ≡ length cs + length ls
  row_length n ls =
      length-append (map (on_lanes r n) cs) ls
      ∙ ap (λ (k : ℕ). k + length ls) (length-map cs (on_lanes r n))

  one_lane : Follows 1
  unfolding Follows ladder rungs
  one_lane = (
    map (on_lanes r 1) cs ++ [],
    rw all refl,
    at_one r top c cs below at_top,
    omega (arith, row_length 1 [], short),
  )

  two_lanes : Follows 2
  unfolding Follows ladder rungs
  two_lanes = (
    _,
    rw all refl,
    at_two r top c cs below at_top,
    omega (
      arith,
      row_length 2 (on_lanes r 1 c ∷ (map (on_lanes r 1) cs ++ [])),
      row_length 1 [],
      short,
    ),
  )

  four_lanes : Follows 4
  unfolding Follows ladder rungs
  four_lanes = (
    _,
    rw all refl,
    at_four r top c cs below at_top,
    omega (
      arith,
      row_length 4 (
          on_lanes r 2 c
          ∷ (map (on_lanes r 2) cs ++ (on_lanes r 1 c ∷ (map (on_lanes r 1) cs ++ [])))),
      row_length 2 (on_lanes r 1 c ∷ (map (on_lanes r 1) cs ++ [])),
      row_length 1 [],
      short,
    ),
  )

  follows : (n : ℕ) → is_valid_lanes n ≡ true → Follows n
  follows n v = elim (lanes_cases n v) [
    | inl e ↦ rw e one_lane
    | inr (inl e) ↦ rw e two_lanes
    | inr (inr e) ↦ rw e four_lanes
  ]

  tries_ladder :
      (line : Line) (t n : ℕ) (dp : Dp)
      → is_valid_lanes n ≡ true
      → get_max_link_rate r dp.host dp.sink ≡ top
      → dp.link ≡ record { link_rate = top; num_lanes = n }
      → full_training 12 r line t dp ≡ try_each r line t dp (ladder r top n)
  unfolding Follows
  tries_ladder line t n dp v e at_link =
      let (ls, el, ch, len) = follows n v in
      let start : dp.link ≡ on_lanes r n c =
        at_link ∙ ap (λ (x : ℕ). record { link_rate = x; num_lanes = n }) at_top in
      training_tries 12 r line t top dp ls len e (rw start ch)
      ∙ ap (try_each r line t dp) (ap (λ (l : Link). l ∷ ls) start ∙ sym el)

-- With both ends on standard rates and lanes, a full training from the best link tries the links of the
-- ladder one after the other, and it ends: 12 turns of its loop are enough.
pub full_training-ladder :
    (r : Rates) (line : Line) (t top n : ℕ) (dp : Dp)
    → is_valid_rate r top ≡ true
    → is_valid_lanes n ≡ true
    → get_max_link_rate r dp.host dp.sink ≡ top
    → dp.link ≡ record { link_rate = top; num_lanes = n }
    → full_training 12 r line t dp ≡ try_each r line t dp (ladder r top n)
full_training-ladder r line t top n dp vr vl e at_link = elim (rate_cases r top vr) [
  | inl h ↦
      tries_ladder r top 6 [] (from_rbr r top) h (omega arith) (rw h (rw r.code_rbr refl)) line t n
        dp vl e at_link
  | inr (inl h) ↦
      tries_ladder r top 10 (6 ∷ []) (from_hbr r top) h (omega arith) (rw h (rw r.code_hbr refl))
        line t n dp vl e at_link
  | inr (inr (inl h)) ↦
      tries_ladder r top 20 (10 ∷ 6 ∷ []) (from_hbr2 r top) h (omega arith)
        (rw h (rw r.code_hbr2 refl)) line t n dp vl e at_link
  | inr (inr (inr h)) ↦
      tries_ladder r top 30 (20 ∷ 10 ∷ 6 ∷ []) (from_hbr3 r top) h (omega arith)
        (rw h (rw r.code_hbr3 refl)) line t n dp vl e at_link
]
