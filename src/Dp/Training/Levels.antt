-- ===== src/Dp/Training/Levels.antt =====
-- The levels of the lanes in link training: their bounds, and what the bytes sent to the sink say of them.
use google_modules_display_s.Prelude.{
  ℕ, zero, suc, ◌+◌, ◌/◌, ◌%◌, ◌≤◌, ◌<◌, ◌≡◌, ◌↔◌, refl, Bool, true, some, List, [], ◌∷◌, map, take,
  get_elem?, replicate, arith, Bool-cases, inl, inr, if◌then◌else◌, ◌==◌,
}
use mathlib.Core.Option.{some-injective}
use google_modules_display_s.Dp.{Lane, Dp}
use google_modules_display_s.Dp.Training.{
  Status, lane_data, adjusted, is_same, validate_from, sent_data, validate, zero_lane,
}

-- The maximum flags of a lane stand for its levels, which are at most 3.
pub record Level (l : Lane) : Type 0 where
  pub vol : l.vol_swing_level ≤ 3
  pub pre : l.pre_empha_level ≤ 3
  pub flags :
      l.max_reach_value
      ≡ (if l.vol_swing_level == 3 then 4 else 0) + (if l.pre_empha_level == 3 then 32 else 0)

abbrev pub Levels : List Lane → Type 0
Levels [] = Unit
Levels (l ∷ ls) = Level l × Levels ls

adjusted-Level : (st : Status) (i : ℕ) → Level (adjusted st i)
unfolding adjusted
adjusted-Level st i = record { vol = omega arith; pre = omega arith; flags = refl }

-- The byte of a lane, taken apart.
lane_data_parts :
    (l : Lane)
    → Level l
    → (lane_data l % 4 ≡ l.vol_swing_level)
      × (lane_data l / 8 % 4 ≡ l.pre_empha_level)
      × (lane_data l < 64)
unfolding lane_data
lane_data_parts l v = ground (arith, v.vol, v.pre, v.flags)

-- The same two levels.
pub SameLevels : Lane → Lane → Type 0
SameLevels l l' =
    (l.vol_swing_level ≡ l'.vol_swing_level) × (l.pre_empha_level ≡ l'.pre_empha_level)

is_same_iff : (l l' : Lane) → Level l → (is_same (lane_data l) l' ≡ true) ↔ SameLevels l l'
unfolding is_same SameLevels
is_same_iff l l' v = let p = lane_data_parts l v in rw p.0 (rw p.1 (ground arith))

pub validate-Levels :
    (cr_done : Bool) (st : Status) (i : ℕ) (ls : List Lane) (bs : List ℕ)
    → Levels ls
    → Levels (validate_from cr_done st i ls bs).lanes
unfolding validate_from
validate-Levels cr_done st i [] bs v = v
validate-Levels cr_done st i (l ∷ ls) [] v = v
validate-Levels cr_done st i (l ∷ ls) (b ∷ bs) v =
    (adjusted-Level st i, validate-Levels cr_done st (suc i) ls bs v.1)

-- Lane `k` keeps its levels, where it is one of the `n` lanes of the link.
pub Unmoved : ℕ → List Lane → List Lane → ℕ → Type 0
Unmoved n ls ls' k =
    (k < n)
    × (l l' : Lane) × (get_elem? ls k ≡ some l)
    × (get_elem? ls' k ≡ some l')
    × SameLevels l l'

Unmoved-next :
    (n : ℕ) (l l' : Lane) (ls ls' : List Lane) (k : ℕ)
    → Unmoved n ls ls' k
    → Unmoved (suc n) (l ∷ ls) (l' ∷ ls') (suc k)
unfolding Unmoved
Unmoved-next n l l' ls ls' k (h, a, b, ea, eb, s) = (omega arith, a, b, ea, eb, s)

some-Unmoved :
    (cr_done : Bool) (st : Status) (n i : ℕ) (ls : List Lane)
    → Levels ls
    → (validate_from cr_done st i ls (map lane_data (take n ls))).same ≡ true
    → (k : ℕ) × Unmoved n ls (validate_from cr_done st i ls (map lane_data (take n ls))).lanes k
unfolding validate_from Unmoved
some-Unmoved cr_done st zero i [] v e = absurd (ground (arith, e))
some-Unmoved cr_done st zero i (l ∷ ls) v e = absurd (ground (arith, e))
some-Unmoved cr_done st (suc n) i [] v e = absurd (ground (arith, e))
some-Unmoved cr_done st (suc n) i (l ∷ ls) v e =
    elim (Bool-cases (is_same (lane_data l) (adjusted st i))) [
      | inl h ↦
          (0, (omega arith, l, adjusted st i, refl, refl, (is_same_iff l (adjusted st i) v.0).0 h))
      | inr h ↦
          let (k, u) = some-Unmoved cr_done st n (suc i) ls v.1 (ground (arith, e, h)) in
          (suc k, Unmoved-next n l (adjusted st i) ls _ k u)
    ]

Unmoved-same :
    (cr_done : Bool) (st : Status) (n i : ℕ) (ls : List Lane) (k : ℕ)
    → Levels ls
    → Unmoved n ls (validate_from cr_done st i ls (map lane_data (take n ls))).lanes k
    → (validate_from cr_done st i ls (map lane_data (take n ls))).same ≡ true
unfolding validate_from Unmoved
Unmoved-same cr_done st zero i ls k v (h, a, b, ea, eb, s) = absurd (omega arith)
Unmoved-same cr_done st (suc n) i [] k v (h, a, b, ea, eb, s) = ground (arith, ea)
Unmoved-same cr_done st (suc n) i (l ∷ ls) zero v (h, a, b, ea, eb, s) =
    let sa : l ≡ a = some-injective _ _ ea in
    let sb : adjusted st i ≡ b = some-injective _ _ eb in
    let same : is_same (lane_data l) (adjusted st i) ≡ true =
      (is_same_iff l (adjusted st i) v.0).1 (rw sa (rw sb s)) in
    rw same refl
Unmoved-same cr_done st (suc n) i (l ∷ ls) (suc k) v (h, a, b, ea, eb, s) =
    let rest = Unmoved-same cr_done st n (suc i) ls k v.1 (omega arith, a, b, ea, eb, s) in
    ground (arith, rest)

-- Where the levels of all lanes are in bounds, `same_before_adjust` of dp_validate_link_training says
-- that the sink asks for the two levels of some lane of the link again, and all levels are in bounds
-- after it.
pub validate-Unmoved :
    (st : Status) (dp : Dp)
    → Levels dp.lanes
    → (((validate st dp).same ≡ true)
        ↔ ((k : ℕ) × Unmoved dp.link.num_lanes dp.lanes (validate st dp).lanes k))
      × Levels (validate st dp).lanes
unfolding validate sent_data
validate-Unmoved st dp v =
    let c = st.clock_recovery_ok dp.link.num_lanes in
    (
      (
        some-Unmoved c st dp.link.num_lanes 0 dp.lanes v,
        λ u. Unmoved-same c st dp.link.num_lanes 0 dp.lanes u.0 v u.1,
      ),
      validate-Levels c st 0 dp.lanes (map lane_data (take dp.link.num_lanes dp.lanes)) v,
    )

pub zero_lanes-Levels : Levels (replicate 4 zero_lane)
zero_lanes-Levels =
    let z : Level zero_lane = record { vol = omega arith; pre = omega arith; flags = refl } in
    (z, (z, (z, (z, tt))))
