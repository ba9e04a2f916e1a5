-- ===== src/Dp/LinkUp.antt =====
-- dp_link_up of exynos_drm_dp.c, from the check of the sink's rate on: whether a link is trained, put
-- off or refused. What was read from the sink is an argument.
pub mod Verdict
use google_modules_display_s.Prelude.{
  ℕ, zero, suc, ◌+◌, ◌-◌, ◌*◌, ◌^◌, ◌≤◌, ◌<◌, ◌≡◌, refl, sym, ap, ◌∙◌, min, Bool, true, false, not,
  ◌&&◌, ◌||◌, Option, none, some, arith, inl, inr, ◌⊎◌, Bool-cases, if◌then◌else◌, ltb, ◌==◌, Ret,
  Errno, is_ok,
}
use google_modules_display_s.Dp.{
  Rates, Caps, Link, Dp, get_max_link_rate, get_max_num_lanes, fill_host_caps, is_valid_rate,
  is_valid_lanes, host_rate, host_lanes, with_link,
}
use google_modules_display_s.Dp.Training.{Line, full_training}
use google_modules_display_s.Dp.Training.Ladder.{ladder}
use google_modules_display_s.Dp.Training.Ladder.Outcome.{Outcome, Trained, full_training-Outcome}

-- The counters of `struct dp_device` for errors.
pub record Stats : Type 0 where
  pub dpcd_read_failures : ℕ
  pub sink_count_invalid_failures : ℕ
  pub link_negotiation_failures : ℕ

-- What was read from the sink: its capabilities, the sink count (`none` for an error), and of a branch
-- device the count of its ports and whether their description could be read.
pub record SinkInfo : Type 0 where
  pub caps : Caps
  pub sink_count : Option ℕ
  pub ports : Option (ℕ × Bool)
  pub interval : ℕ

-- dp_get_training_interval_us.
pub get_training_interval_us : ℕ → ℕ
get_training_interval_us interval =
    if interval == 0 then 400 else if ltb interval 5 then 4000 * 2 ^ (interval - 1) else 4000

-- The checks of the sink: the error and its counter, or the sink count.
pub data SinkCheck : Type 0 where
  unreadable : Errno → SinkCheck
  bad_count : SinkCheck
  sinks : ℕ → SinkCheck

pub check_ports : ℕ → Option (ℕ × Bool) → SinkCheck
check_ports count none = if count == 1 then sinks count else bad_count
check_ports count (some (dfp_count, false)) = unreadable Errno.eio
check_ports count (some (dfp_count, true)) = if ltb dfp_count count then bad_count else sinks count

pub check_sink : Rates → SinkInfo → SinkCheck
check_sink r info =
    if not (is_valid_rate r info.caps.link_rate) || not (is_valid_lanes info.caps.num_lanes)
    then unreadable Errno.einval
    else elim info.sink_count [
      | none ↦ unreadable Errno.eio
      | some count ↦ check_ports count info.ports
    ]

pub pick_link : Rates → Dp → Dp
pick_link r dp = with_link dp (record {
  link_rate = get_max_link_rate r dp.host dp.sink;
  num_lanes = get_max_num_lanes dp.host dp.sink;
})

-- What the result of the training counts as.
pub conclude : Stats → Option (Ret × Dp × ℕ) → Option (Ret × Dp × Stats)
conclude stats none = none
conclude stats (some (none, dp, t)) = some (none, dp, stats)
conclude stats (some (some e, dp, t)) = some (
  some Errno.enolink,
  dp,
  record stats { link_negotiation_failures = stats.link_negotiation_failures + 1 },
)

-- The training, or an error before it where the interval is 0.
pub train : Rates → Line → ℕ → SinkInfo → Dp → Stats → Option (Ret × Dp × Stats)
train r line t info dp stats =
    if get_training_interval_us info.interval == 0
    then conclude stats (some (some Errno.enolink, dp, t))
    else conclude stats (full_training 12 r line t dp)

-- The two ends with their capabilities filled in.
pub both_ends : Rates → ℕ → ℕ → SinkInfo → Dp → Dp
both_ends r dp_rate dp_lanes info dp = record (fill_host_caps r dp_rate dp_lanes dp) {
  sink = info.caps;
}

-- With the module parameters dp_rate and dp_lanes, outside the emulation mode.
pub link_up : Rates → Line → ℕ → ℕ → ℕ → SinkInfo → Dp → Stats → Option (Ret × Dp × Stats)
link_up r line t dp_rate dp_lanes info dp stats =
    let dp' = both_ends r dp_rate dp_lanes info dp in
    elim (check_sink r info) [
      | unreadable e ↦
          some (some e, dp', record stats { dpcd_read_failures = stats.dpcd_read_failures + 1 })
      | bad_count ↦ some (
        some Errno.einval,
        dp',
        record stats { sink_count_invalid_failures = stats.sink_count_invalid_failures + 1 },
      )
      | sinks zero ↦ some (none, dp', stats)
      | sinks (suc n) ↦ train r line t info (pick_link r dp') stats
    ]
