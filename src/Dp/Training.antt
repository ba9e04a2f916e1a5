-- ===== src/Dp/Training.antt =====
-- Link training of exynos_drm_dp.c: the levels of the lanes, clock recovery, channel equalization, and the
-- way down to slower links and fewer lanes.
pub mod Rounds
pub mod Levels
pub mod Ladder
mod Tests
use google_modules_display_s.Prelude.{
  ℕ, zero, suc, ◌+◌, ◌-◌, ◌*◌, ◌/◌, ◌%◌, min, Bool, true, false, not, ◌&&◌, ◌||◌, Option, none,
  some, List, [], ◌∷◌, map, take, replicate, if◌then◌else◌, ltb, ◌==◌, Ret, Errno,
}
use mathlib.Core.Option
use google_modules_display_s.Dp.{
  Rates, Caps, Link, Lane, Dp, get_max_link_rate, get_supported_pattern,
}

-- What the helpers of the kernel read in a link status: drm_dp_clock_recovery_ok and
-- drm_dp_channel_eq_ok for a number of lanes, and drm_dp_get_adjust_request_voltage and _pre_emphasis of
-- a lane.
pub record Status : Type 0 where
  pub clock_recovery_ok : ℕ → Bool
  pub channel_eq_ok : ℕ → Bool
  pub adjust_request_voltage : ℕ → ℕ
  pub adjust_request_pre_emphasis : ℕ → ℕ

-- What the hardware and the sink answer, at each time of asking.
pub record Line : Type 0 where
  pub status : ℕ → Status
  pub reinit_fails : ℕ → Bool
  pub unplugged : ℕ → Bool

-- The levels fit in two bits, and the flags stand in bits of their own, so `|` and `<<` are a sum.
pub lane_data : Lane → ℕ
lane_data l = l.pre_empha_level * 8 + l.vol_swing_level + l.max_reach_value

pub adjusted : Status → ℕ → Lane
adjusted st i =
    let vol = min (st.adjust_request_voltage i) 3 in
    let pre = min (st.adjust_request_pre_emphasis i / 8) 3 in
    record {
      vol_swing_level = vol;
      pre_empha_level = pre;
      max_reach_value = (if vol == 3 then 4 else 0) + (if pre == 3 then 32 else 0);
    }

-- Whether the levels are those that were sent before.
pub is_same : ℕ → Lane → Bool
is_same before l = (((before / 8) % 4) == l.pre_empha_level) && ((before % 4) == l.vol_swing_level)

-- The lanes after dp_validate_link_training, `same_before_adjust` and `max_swing_reached`.
pub record Checked : Type 0 where
  pub lanes : List Lane
  pub same : Bool
  pub maxed : Bool

-- Its loop, from lane `i` on; `before_cr` has one entry for each lane of the link.
pub validate_from : Bool → Status → ℕ → List Lane → List ℕ → Checked
validate_from cr_done st i [] bs = record { lanes = []; same = false; maxed = false }
validate_from cr_done st i (l ∷ ls) [] = record { lanes = l ∷ ls; same = false; maxed = false }
validate_from cr_done st i (l ∷ ls) (b ∷ bs) =
    let l' = adjusted st i in
    let rest = validate_from cr_done st (suc i) ls bs in
    record {
      lanes = l' ∷ rest.lanes;
      same = is_same b l' || rest.same;
      maxed = (not cr_done && not (l'.max_reach_value == 0)) || rest.maxed;
    }

pub sent_data : Dp → List ℕ
sent_data dp = map lane_data (take dp.link.num_lanes dp.lanes)

pub validate : Status → Dp → Checked
validate st dp = validate_from (st.clock_recovery_ok dp.link.num_lanes) st 0 dp.lanes (sent_data dp)

-- The counters of the clock recovery.
pub record Round : Type 0 where
  pub fail_short : ℕ
  pub fail_long : ℕ
  pub try_max_swing : Bool

-- What a failed round makes of them, `none` where the maximum was tried before.
pub next_round : Bool → Bool → Round → Option Round
next_round same maxed k =
    let k' = record k { fail_long = k.fail_long + 1 } in
    if maxed
    then if k.try_max_swing then none else some (record k' { try_max_swing = true })
    else if same
    then some (record k' { fail_short = k.fail_short + 1 })
    else some (record k' { fail_short = 0 })

pub goes_on : Round → Bool
goes_on k = ltb k.fail_short 5 && ltb k.fail_long 10

-- The loop of dp_do_link_training_cr, on fuel; with the time of the next question.
pub cr_loop : ℕ → Line → ℕ → Round → Dp → Option (Bool × Dp × ℕ)
cr_loop zero line t k dp = none
cr_loop (suc fuel) line t k dp =
    let st = line.status t in
    let v = validate st dp in
    let dp' = record dp { lanes = v.lanes } in
    if st.clock_recovery_ok dp.link.num_lanes
    then some (true, dp', suc t)
    else elim (next_round v.same v.maxed k) [
      | none ↦ some (false, dp', suc t)
      | some k' ↦ elim (goes_on k') [
        | true ↦ cr_loop fuel line (suc t) k' dp'
        | false ↦ some (false, dp', suc t)
      ]
    ]

abbrev pub zero_lane : Lane
zero_lane = record { vol_swing_level = 0; pre_empha_level = 0; max_reach_value = 0 }

abbrev pub first_round : Round
first_round = record { fail_short = 0; fail_long = 0; try_max_swing = false }

-- dp_do_link_training_cr, with dp_init_link_training_cr.
pub link_training_cr : Line → ℕ → Dp → Option (Bool × Dp × ℕ)
link_training_cr line t dp =
    let dp' = record dp { lanes = replicate 4 zero_lane; sink_pattern = 0 } in
    if line.reinit_fails t
    then some (false, dp', suc t)
    else cr_loop 10 line (suc t) first_round (record dp' { hw_pattern = 1; sink_pattern = 1 })

-- dp_init_link_training_eq.
pub eq_pattern : Rates → Dp → ℕ
eq_pattern r dp =
    if get_supported_pattern dp 4 && (r.bw_code dp.link.link_rate == 30)
    then 4
    else if get_supported_pattern dp 3
    then 3
    else 2

-- The rounds of dp_do_link_training_eq that are left.
pub eq_loop : ℕ → Line → ℕ → Dp → Bool × Dp × ℕ
eq_loop zero line t dp = (false, dp, t)
eq_loop (suc n) line t dp =
    let st = line.status t in
    let dp' = record dp { lanes = (validate st dp).lanes } in
    let rest = eq_loop n line (suc t) dp' in
    if st.clock_recovery_ok dp.link.num_lanes
    then if st.channel_eq_ok dp.link.num_lanes then (true, dp', suc t) else rest
    else (false, dp', suc t)

pub link_training_eq : Rates → Line → ℕ → Dp → Bool × Dp × ℕ
link_training_eq r line t dp =
    let pattern = eq_pattern r dp in
    eq_loop 6 line t (record dp { hw_pattern = pattern; sink_pattern = pattern })

pub get_lower_link_rate : Rates → Link → Link
get_lower_link_rate r l =
    if r.bw_code l.link_rate == 10
    then record l { link_rate = r.link_rate 6 }
    else if r.bw_code l.link_rate == 20
    then record l { link_rate = r.link_rate 10 }
    else if r.bw_code l.link_rate == 30
    then record l { link_rate = r.link_rate 20 }
    else l

-- The link to try after a failure in either phase, `none` where training has failed; `top` is what
-- dp_get_max_link_rate gives.
pub next_link : Rates → ℕ → Link → Option Link
next_link r top l =
    if not (r.bw_code l.link_rate == 6)
    then some (get_lower_link_rate r l)
    else if ltb 1 l.num_lanes
    then some (record { num_lanes = l.num_lanes / 2; link_rate = top })
    else none

-- Channel equalization, where clock recovery succeeded.
pub equalize : Rates → Line → Bool × Dp × ℕ → Bool × Dp × ℕ
equalize r line (true, dp, t) = link_training_eq r line t dp
equalize r line (false, dp, t) = (false, dp, t)

-- One turn of the loop of dp_do_full_link_training: it treats a failure of either phase in the same way.
pub try_link : Rates → Line → ℕ → Dp → Option (Bool × Dp × ℕ)
try_link r line t dp = Option.map (equalize r line) (link_training_cr line t dp)

-- Both ends back to normal data.
pub end_training : Dp → Dp
end_training dp = record dp { hw_pattern = 0; sink_pattern = 0 }

-- The end of a turn: after a failure, `retry`.
pub end_turn : (Dp → ℕ → Option (Ret × Dp × ℕ)) → Option (Bool × Dp × ℕ) → Option (Ret × Dp × ℕ)
end_turn retry none = none
end_turn retry (some (true, dp, t)) = some (none, end_training dp, t)
end_turn retry (some (false, dp, t)) = retry dp t

-- dp_do_full_link_training, on fuel: 0 or -EIO, the device, and the time.
pub full_training : ℕ → Rates → Line → ℕ → Dp → Option (Ret × Dp × ℕ)
full_training zero r line t dp = none
full_training (suc fuel) r line t dp = elim (line.unplugged t) [
  | true ↦ some (some Errno.eio, end_training dp, suc t)
  | false ↦
      end_turn
        (λ dp' t'. elim (next_link r (get_max_link_rate r dp'.host dp'.sink) dp'.link) [
          | none ↦ some (some Errno.eio, end_training dp', t')
          | some l ↦ full_training fuel r line t' (record dp' { link = l })
        ])
        (try_link r line (suc t) dp)
]
