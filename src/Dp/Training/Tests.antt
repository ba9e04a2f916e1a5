-- ===== src/Dp/Training/Tests.antt =====
-- Runs of the link training, and the witnesses of its theorems.
use google_modules_display_s.Prelude.{
  ℕ, ◌*◌, ◌/◌, ◌≡◌, refl, arith, Bool, true, false, Option, none, some, replicate, Ret, leb, ltb,
}
use google_modules_display_s.Dp.{
  Rates, Caps, Link, Dp, get_max_link_rate, is_valid_rate, is_valid_lanes,
}
use google_modules_display_s.Dp.Training.{
  Line, try_link, full_training, zero_lane, end_turn, link_training_cr, cr_loop, equalize,
  link_training_eq, eq_loop, next_link, get_lower_link_rate, end_training,
}
use google_modules_display_s.Dp.Training.Rounds.{Ends, try_link-Ends}
use google_modules_display_s.Dp.Training.Ladder.{ladder, try_each}
use google_modules_display_s.Dp.Training.Ladder.Descent.{full_training-ladder}
use google_modules_display_s.Dp.LinkUp.{Stats, SinkInfo, both_ends, link_up}
use google_modules_display_s.Dp.LinkUp.Verdict.{LinkUp, link_up-LinkUp}

-- A unit of a code is 27000 units of 10 kb/s.
abbrev rates : Rates
rates = record {
  link_rate = λ c. c * 27000;
  bw_code = λ x. x / 27000;
  code_rbr = refl;
  code_hbr = refl;
  code_hbr2 = refl;
  code_hbr3 = refl;
  rbr_hbr = omega arith;
  hbr_hbr2 = omega arith;
  hbr2_hbr3 = omega arith;
}

-- A sink that recovers the clock on any link, and the channels on two lanes at most.
abbrev two_lane_line : Line
two_lane_line = record {
  status = λ t. record {
    clock_recovery_ok = λ n. true;
    channel_eq_ok = λ n. leb n 2;
    adjust_request_voltage = λ i. i;
    adjust_request_pre_emphasis = λ i. 8;
  };
  reinit_fails = λ t. false;
  unplugged = λ t. false;
}

abbrev hbr_caps : Caps
hbr_caps = record { link_rate = 270000; num_lanes = 4; support_tps = λ n. ltb n 4 }

abbrev plugged : Dp
plugged = record {
  host = hbr_caps;
  sink = hbr_caps;
  link = record { link_rate = 270000; num_lanes = 4 };
  lanes = replicate 4 zero_lane;
  hw_pattern = 0;
  sink_pattern = 0;
}

try_link-Ends_example :
    (w : Bool × Dp × ℕ) × (try_link rates two_lane_line 0 plugged ≡ some w) × Ends plugged 0 17 w
try_link-Ends_example = try_link-Ends rates two_lane_line 0 plugged

full_training-ladder_example :
    full_training 12 rates two_lane_line 0 plugged
    ≡ try_each rates two_lane_line 0 plugged (ladder rates 270000 4)
unfolding is_valid_rate is_valid_lanes get_max_link_rate
full_training-ladder_example =
    full_training-ladder rates two_lane_line 0 270000 4 plugged refl refl refl refl

-- RBR and HBR fail on four lanes: HBR on two lanes is trained.
abbrev link_of : Option (Ret × Dp × ℕ) → Option Link
link_of none = none
link_of (some (none, dp, t)) = some dp.link
link_of (some (some e, dp, t)) = none

trained_on_two :
    link_of (full_training 12 rates two_lane_line 0 plugged)
    ≡ some (record { link_rate = 270000; num_lanes = 2 })
unfolding full_training end_turn try_link link_training_cr cr_loop equalize link_training_eq eq_loop
    next_link get_lower_link_rate end_training get_max_link_rate
trained_on_two = refl

abbrev counters : Stats
counters = record {
  dpcd_read_failures = 0;
  sink_count_invalid_failures = 0;
  link_negotiation_failures = 0;
}

abbrev monitor : SinkInfo
monitor = record { caps = hbr_caps; sink_count = some 1; ports = none; interval = 0 }

link_up-LinkUp_example :
    (w : Ret × Dp × Stats) × (link_up rates two_lane_line 0 1 4 monitor plugged counters ≡ some w)
    × LinkUp rates two_lane_line monitor counters (both_ends rates 1 4 monitor plugged) w
link_up-LinkUp_example = link_up-LinkUp rates two_lane_line 0 1 4 monitor plugged counters
