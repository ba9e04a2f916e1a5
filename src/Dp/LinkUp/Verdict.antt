-- ===== src/Dp/LinkUp/Verdict.antt =====
-- What dp_link_up ends with.
use google_modules_display_s.Prelude.{
  ℕ, zero, suc, ◌+◌, ◌≤◌, Option, Bool, ◌≡◌, refl, min, true, ◌&&◌, none, some, arith, inl, inr,
  ◌⊎◌, Bool-cases, if◌then◌else◌, ltb, ◌==◌, Ret, Errno, is_ok,
}
use google_modules_display_s.Dp.{
  Rates, Caps, Dp, get_max_link_rate, get_max_num_lanes, fill_host_caps, is_valid_rate,
  is_valid_lanes, host_rate, host_lanes, with_link,
}
use google_modules_display_s.Dp.Training.{Line}
use google_modules_display_s.Dp.Training.Ladder.{ladder}
use google_modules_display_s.Dp.Training.Ladder.Outcome.{Outcome, Trained, full_training-Outcome}
use google_modules_display_s.Dp.LinkUp.{
  Stats, SinkInfo, SinkCheck, unreadable, bad_count, sinks, check_ports, check_sink, pick_link,
  conclude, train, both_ends, link_up, get_training_interval_us,
}

hbr_valid : (r : Rates) → is_valid_rate r (r.link_rate 10) ≡ true
unfolding is_valid_rate
hbr_valid r = ground arith

host_rate_valid : (r : Rates) (dp_rate : ℕ) → is_valid_rate r (host_rate r dp_rate) ≡ true
unfolding is_valid_rate
host_rate_valid r dp_rate = ground arith

host_lanes_valid : (dp_lanes : ℕ) → is_valid_lanes (host_lanes dp_lanes) ≡ true
unfolding is_valid_lanes
host_lanes_valid dp_lanes = ground arith

-- The errors counted so far.
pub total : Stats → ℕ
total s = s.dpcd_read_failures + s.sink_count_invalid_failures + s.link_negotiation_failures

-- What a sink count has to be: one sink without a port, and no more than the ports of a branch device,
-- whose number was read.
abbrev pub Sane : ℕ → Option (ℕ × Bool) → Type 0
Sane n none = n ≡ 1
Sane n (some (dfp_count, was_read)) = (was_read ≡ true) × (n ≤ dfp_count)

abbrev pub Counted : SinkInfo → ℕ → Type 0
Counted info n = (info.sink_count ≡ some n) × Sane n info.ports

-- Success is a trained link of the ladder, or a branch device without a sink; an error is counted once.
pub record LinkUp (r : Rates) (line : Line) (info : SinkInfo) (stats : Stats) (dp : Dp)
    (w : Ret × Dp × Stats) : Type 0 where
  pub verdict :
      ((w.0 ≡ none) × Counted info 0)
      ⊎ (((w.0 ≡ none)
            × ((n : ℕ) × Counted info (suc n))
            × (t : ℕ) × Trained line
                (ladder r (get_max_link_rate r dp.host dp.sink) (get_max_num_lanes dp.host dp.sink))
                w.1
                t)
          ⊎ ((e : Errno) × (w.0 ≡ some e)))
  pub counted : total w.2 ≡ total stats + (if is_ok w.0 then 0 else 1)

check_sink-Counted :
    (r : Rates) (info : SinkInfo) (n : ℕ) → check_sink r info ≡ sinks n → Counted info n
unfolding check_sink check_ports
check_sink-Counted r info n e = ground (arith, e)

min_cases : (a b : ℕ) → (min a b ≡ a) ⊎ (min a b ≡ b)
min_cases a b = ground arith

min_valid_rate :
    (r : Rates) (a b : ℕ)
    → is_valid_rate r a ≡ true
    → is_valid_rate r b ≡ true
    → is_valid_rate r (min a b) ≡ true
min_valid_rate r a b ha hb = elim (min_cases a b) [ inl e ↦ rw e ha | inr e ↦ rw e hb ]

min_valid_lanes :
    (a b : ℕ) → is_valid_lanes a ≡ true → is_valid_lanes b ≡ true → is_valid_lanes (min a b) ≡ true
min_valid_lanes a b ha hb = elim (min_cases a b) [ inl e ↦ rw e ha | inr e ↦ rw e hb ]

max_rate_valid :
    (r : Rates) (host sink : Caps)
    → is_valid_rate r host.link_rate ≡ true
    → is_valid_rate r sink.link_rate ≡ true
    → is_valid_rate r (get_max_link_rate r host sink) ≡ true
unfolding get_max_link_rate
max_rate_valid r host sink hh hs =
    elim (Bool-cases ((host.link_rate == r.link_rate 6) && ltb sink.num_lanes 4)) [
      | inl e ↦ rw e (min_valid_rate r (r.link_rate 10) sink.link_rate (hbr_valid r) hs)
      | inr e ↦ rw e (min_valid_rate r host.link_rate sink.link_rate hh hs)
    ]

-- The link to start with is standard where both ends are.
pick_valid :
    (r : Rates) (dp_rate dp_lanes : ℕ) (info : SinkInfo) (dp : Dp)
    → is_valid_rate r info.caps.link_rate ≡ true
    → is_valid_lanes info.caps.num_lanes ≡ true
    → (is_valid_rate r (get_max_link_rate r (both_ends r dp_rate dp_lanes info dp).host info.caps)
        ≡ true)
      × (is_valid_lanes (get_max_num_lanes (both_ends r dp_rate dp_lanes info dp).host info.caps)
          ≡ true)
unfolding both_ends fill_host_caps get_max_num_lanes
pick_valid r dp_rate dp_lanes info dp hr hl = (
  max_rate_valid r (both_ends r dp_rate dp_lanes info dp).host info.caps (host_rate_valid r dp_rate)
      hr,
  min_valid_lanes (host_lanes dp_lanes) info.caps.num_lanes (host_lanes_valid dp_lanes) hl,
)

sinks_valid :
    (r : Rates) (info : SinkInfo) (n : ℕ)
    → check_sink r info ≡ sinks n
    → (is_valid_rate r info.caps.link_rate ≡ true) × (is_valid_lanes info.caps.num_lanes ≡ true)
unfolding check_sink
sinks_valid r info n e = ground (arith, e)

conclude-LinkUp :
    (r : Rates) (line : Line) (info : SinkInfo) (stats : Stats) (dp : Dp) (t n : ℕ)
    (v : Ret × Dp × ℕ)
    → Counted info (suc n)
    → Outcome line
        (ladder r (get_max_link_rate r dp.host dp.sink) (get_max_num_lanes dp.host dp.sink))
        t
        v
    → (w : Ret × Dp × Stats) × (conclude stats (some v) ≡ some w) × LinkUp r line info stats dp w
unfolding conclude total
conclude-LinkUp r line info stats dp t n (none, dp', u) sane o = (
  (none, dp', stats),
  refl,
  record {
    verdict = elim o.verdict [
      | inl (ok, tr) ↦ inr (inl (refl, (n, sane), u, tr))
      | inr failed ↦ absurd (ground (arith, failed))
    ];
    counted = omega arith;
  },
)
conclude-LinkUp r line info stats dp t n (some e, dp', u) sane o =
    (_, refl, record { verdict = inr (inr (Errno.enolink, refl)); counted = omega arith })

train-LinkUp :
    (r : Rates) (line : Line) (t n : ℕ) (info : SinkInfo) (dp : Dp) (stats : Stats)
    → Counted info (suc n)
    → is_valid_rate r (get_max_link_rate r dp.host dp.sink) ≡ true
    → is_valid_lanes (get_max_num_lanes dp.host dp.sink) ≡ true
    → (w : Ret × Dp × Stats) × (train r line t info (pick_link r dp) stats ≡ some w)
      × LinkUp r line info stats dp w
unfolding train pick_link with_link conclude total
train-LinkUp r line t n info dp stats sane vr vl =
    elim (Bool-cases (get_training_interval_us info.interval == 0)) [
      | inl e ↦
          rw e
            (_, refl, record { verdict = inr (inr (Errno.enolink, refl)); counted = omega arith })
      | inr e ↦ rw e (
          let (w, ew, o, within) =
            full_training-Outcome r line t _ _ (pick_link r dp) vr vl refl refl in
          rw ew (conclude-LinkUp r line info stats dp t n w sane o))
    ]

SinkCheck-cases :
    (c : SinkCheck)
    → ((e : Errno) × (c ≡ unreadable e))
      ⊎ ((c ≡ bad_count) ⊎ ((c ≡ sinks 0) ⊎ ((n : ℕ) × (c ≡ sinks (suc n)))))
SinkCheck-cases (unreadable e) = inl (e, refl)
SinkCheck-cases bad_count = inr (inl refl)
SinkCheck-cases (sinks zero) = inr (inr (inl refl))
SinkCheck-cases (sinks (suc n)) = inr (inr (inr (n, refl)))

-- For any module parameters and anything the sink answers, dp_link_up returns: with 0 only where a link
-- of the ladder of the two ends is trained, its last status good on all its lanes, for a sink count of 1
-- without ports or of 1 up to the ports of a branch device, or, for a branch device, where the sink
-- count is 0; and the error counters together grow by 1 on an error and stay on success.
pub link_up-LinkUp :
    (r : Rates) (line : Line) (t dp_rate dp_lanes : ℕ) (info : SinkInfo) (dp : Dp) (stats : Stats)
    → (w : Ret × Dp × Stats) × (link_up r line t dp_rate dp_lanes info dp stats ≡ some w)
      × LinkUp r line info stats (both_ends r dp_rate dp_lanes info dp) w
unfolding link_up total both_ends
link_up-LinkUp r line t dp_rate dp_lanes info dp stats =
    elim (SinkCheck-cases (check_sink r info)) [
      | inl (e, c) ↦
          rw (link_up, c) (_, refl, record { verdict = inr (inr (e, refl)); counted = omega arith })
      | inr (inl c) ↦
          rw (link_up, c)
            (_, refl, record { verdict = inr (inr (Errno.einval, refl)); counted = omega arith })
      | inr (inr (inl c)) ↦
          rw (link_up, c)
            (
              _,
              refl,
              record { verdict = inl (refl, check_sink-Counted r info 0 c); counted = omega arith },
            )
      | inr (inr (inr (n, c))) ↦
          rw (link_up, c)
            (let (hr, hl) = sinks_valid r info (suc n) c in
              let (vr, vl) = pick_valid r dp_rate dp_lanes info dp hr hl in
              train-LinkUp r line t n info (both_ends r dp_rate dp_lanes info dp) stats
                (check_sink-Counted r info (suc n) c) vr vl)
    ]
