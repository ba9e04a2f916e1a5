-- ===== src/Bts/Vote/Phases.antt =====
-- The votes as the drivers hold them, over the two updates of a frame: one before the hardware takes
-- over the new configuration, one after.
use google_modules_display_s.Prelude.{
  ℕ, ◌+◌, ◌≤◌, Bool, true, ◌≡◌, refl, List, [], ◌∷◌, ◌++◌, map, arith, u32, ltb, if◌then◌else◌,
  Bool-cases, inl, inr, ap, sym, false,
}
use native.Mathlib.Nat.{le_refl}
use google_modules_display_s.Bts.{Bts, Decon}
use google_modules_display_s.Bts.Vote.{
  Bw, Call, bts_update_bw, qos_update_disp, bts_set_urgent_lat_read, update_scenario,
  update_urgent_latency, bw_of, limited_disp_freq, after_shadow, before_shadow, falls, rises,
  limited, update_enabled, update_resources, when_vote,
}

-- The last bandwidth and the last display clock that were voted for.
pub record Votes : Type 0 where
  pub bw : Bw
  pub disp : ℕ

abbrev pub apply : Call → Votes → Votes
apply (bts_update_bw i bw) v = record v { bw = bw }
apply (qos_update_disp f) v = record v { disp = f }
apply _ v = v

abbrev pub replay : List Call → Votes → Votes
replay [] v = v
replay (c ∷ cs) v = replay cs (apply c v)

pub replay-append : (cs ds : List Call) (v : Votes) → replay (cs ++ ds) v ≡ replay ds (replay cs v)
replay-append [] ds v = refl
replay-append (c ∷ cs) ds v = replay-append cs ds (apply c v)

urgent_calls_quiet :
    (l : ℕ) (is : List ℕ) (v : Votes)
    → replay (map (λ index. bts_set_urgent_lat_read index l) is) v ≡ v
urgent_calls_quiet l [] v = refl
urgent_calls_quiet l (i ∷ is) v = urgent_calls_quiet l is v

urgent_quiet : (d : Decon) (v : Votes) → replay (update_urgent_latency d).1 v ≡ v
unfolding update_urgent_latency
urgent_quiet d v =
    ground (arith, urgent_calls_quiet d.bts.urgent_rd_lat d.params.urgent_rd_lat_index v)

pub scenario_quiet : (d : Decon) (bw : Bw) (v : Votes) → replay (update_scenario d bw).1 v ≡ v
unfolding update_scenario
scenario_quiet d bw v = ground arith

-- The votes agree with the `prev_` fields. Of the read and the write bandwidth only the sum is compared.
pub record Settled (b : Bts) (v : Votes) : Type 0 where
  pub disp : v.disp ≡ b.prev_max_disp_freq
  pub peak : v.bw.peak ≡ b.prev_peak
  pub rt : v.bw.rt ≡ b.prev_rt_avg_bw
  pub total : u32 (v.bw.read + v.bw.write) ≡ b.prev_total_bw

-- The scenario and the urgent latency make no vote of these kinds.
quiet_prefix :
    (c1 c2 c3 : List Call) (v : Votes)
    → replay c1 v ≡ v
    → replay c2 v ≡ v
    → replay (c1 ++ (c2 ++ c3)) v ≡ replay c3 v
quiet_prefix c1 c2 c3 v q1 q2 = rw (replay-append c1 (c2 ++ c3) v, q1, replay-append c2 c3 v, q2)

pub update_resources-enabled :
    (d : Decon) (s : Bool) → d.bts.enabled ≡ true → update_resources d s ≡ update_enabled d s
unfolding update_resources
update_resources-enabled d s on = ap (λ t. if t then update_enabled d s else (d, [])) on

unfoldable pub before_bts : Decon → Bts
before_bts d = record (limited d).bts { prev_urgent_rd_lat = (update_urgent_latency (limited d)).0 }

pub update_enabled-before :
    (d : Decon) (v : Votes)
    → replay (update_enabled d false).1 v ≡ replay (before_shadow d.params.bw_idx (before_bts d)) v
unfolding update_enabled before_bts
update_enabled-before d v =
    quiet_prefix (update_scenario (limited d) (bw_of d.bts)).1 (update_urgent_latency (limited d)).1
      (before_shadow d.params.bw_idx (before_bts d)) v (scenario_quiet (limited d) (bw_of d.bts) v)
      (urgent_quiet (limited d) v)

update_enabled-after :
    (d : Decon) (v : Votes)
    → replay (update_enabled d true).1 v ≡ replay (after_shadow d.params.bw_idx (before_bts d)).1 v
unfolding update_enabled before_bts
update_enabled-after d v =
    quiet_prefix (update_scenario (limited d) (bw_of d.bts)).1 (update_urgent_latency (limited d)).1
      (after_shadow d.params.bw_idx (before_bts d)).1 v (scenario_quiet (limited d) (bw_of d.bts) v)
      (urgent_quiet (limited d) v)

-- What the display needs from now on is voted for.
pub record Covers (b : Bts) (v : Votes) : Type 0 where
  pub disp : b.max_disp_freq ≤ v.disp
  pub peak : b.peak ≤ v.bw.peak
  pub rt : b.rt_avg_bw ≤ v.bw.rt
  pub total : b.total_bw ≤ u32 (v.bw.read + v.bw.write)

before-Covers :
    (d : Decon) (v : Votes)
    → Settled d.bts v
    → d.bts.total_bw ≡ u32 (d.bts.read_bw + d.bts.write_bw)
    → Covers
        (update_enabled d false).0.bts
        (replay (before_shadow d.params.bw_idx (before_bts d)) v)
unfolding update_enabled before_shadow before_bts
before-Covers d v settled sum = ground arith

before-disp :
    (d : Decon) (v : Votes)
    → Settled d.bts v
    → v.disp ≤ (replay (before_shadow d.params.bw_idx (before_bts d)) v).disp
unfolding before_shadow before_bts
before-disp d v settled = ground arith

update_resources-off :
    (d : Decon) (s : Bool) → d.bts.enabled ≡ false → update_resources d s ≡ (d, [])
unfolding update_resources
update_resources-off d s off = ap (λ t. if t then update_enabled d s else (d, [])) off

enabled_kept : (d : Decon) → d.bts.enabled ≡ true → (update_enabled d false).0.bts.enabled ≡ true
unfolding update_enabled
enabled_kept d on = on

votes_if :
    (c1 c2 : Bool) (i f : ℕ) (bw : Bw) (v : Votes)
    → replay (when_vote c1 (bts_update_bw i bw) ++ when_vote c2 (qos_update_disp f)) v
      ≡ record { bw = if c1 then bw else v.bw; disp = if c2 then f else v.disp }
votes_if c1 c2 i f bw v = ground arith

-- The bandwidth that was voted for after both updates of a frame.
bw_settles :
    (b : Bts) (v : Votes)
    → Settled b v
    → b.total_bw ≡ u32 (b.read_bw + b.write_bw)
    → let w = if falls b then bw_of b else (if rises b then bw_of b else v.bw) in
      (w.peak ≡ b.peak) × (w.rt ≡ b.rt_avg_bw) × (u32 (w.read + w.write) ≡ b.total_bw)
bw_settles b v settled sum = elim (Bool-cases (falls b)) [
  | inl fall ↦ rw fall (refl, refl, sym sum)
  | inr keep ↦ rw keep (elim (Bool-cases (rises b)) [
    | inl rise ↦ rw rise (refl, refl, sym sum)
    | inr level ↦ rw level (ground arith)
  ])
]

disp_settles :
    (new prev vote : ℕ)
    → vote ≡ prev
    → (if ltb new prev then new else (if ltb prev new then new else vote)) ≡ new
disp_settles new prev vote e = ground arith

limited_twice : (d : Decon) → limited_disp_freq (update_enabled d false).0 ≡ limited_disp_freq d
unfolding update_enabled limited_disp_freq
limited_twice d = ground arith

limited_twice_open :
    (d : Decon)
    → unfold update_enabled in limited_disp_freq (update_enabled d false).0 ≡ limited_disp_freq d
limited_twice_open d = unfold update_enabled in limited_twice d

-- The two updates of a frame in a row, with nothing but their votes.
phases-Settled :
    (d : Decon) (v : Votes)
    → Settled d.bts v
    → d.bts.total_bw ≡ u32 (d.bts.read_bw + d.bts.write_bw)
    → let d1 = (update_enabled d false).0 in
      let d2 = (update_enabled d1 true).0 in
      Settled d2.bts (
        replay
          (after_shadow d1.params.bw_idx (before_bts d1)).1
          (replay (before_shadow d.params.bw_idx (before_bts d)) v))
      × (d2.bts.prev_total_bw ≡ d.bts.total_bw)
      × (d2.bts.prev_peak ≡ d.bts.peak)
      × (d2.bts.prev_rt_avg_bw ≡ d.bts.rt_avg_bw)
      × (d2.bts.prev_max_disp_freq ≡ limited_disp_freq d)
unfolding update_enabled before_shadow after_shadow before_bts
phases-Settled d v settled sum = rw votes_if (
    rw votes_if (
      rw (limited_twice_open d) (
        let bw = bw_settles d.bts v settled sum in
        (
          record {
            disp = disp_settles (limited_disp_freq d) d.bts.prev_max_disp_freq v.disp settled.disp;
            peak = bw.0;
            rt = bw.1;
            total = bw.2;
          },
          refl,
          refl,
          refl,
          refl,
        ))))

-- Before the hardware takes over a new configuration, the votes are raised to cover it: the bandwidths
-- and the display clock that were voted for are at least those that the configuration needs. The
-- votes were those of the frame before, and the total is the sum of reads and writes.
pub update_resources-Covers :
    (d : Decon) (v : Votes)
    → d.bts.enabled ≡ true
    → Settled d.bts v
    → d.bts.total_bw ≡ u32 (d.bts.read_bw + d.bts.write_bw)
    → let (d', calls) = update_resources d false in Covers d'.bts (replay calls v)
update_resources-Covers d v on settled sum =
    rw (update_resources-enabled d false on, update_enabled-before d v)
      (before-Covers d v settled sum)

pub peak_kept :
    (d : Decon) → d.bts.enabled ≡ true → (update_resources d false).0.bts.peak ≡ d.bts.peak
unfolding update_enabled
peak_kept d on = ap (λ (r : Decon × List Call). r.0.bts.peak) (update_resources-enabled d false on)

-- The display clock is never lowered before the hardware has taken over the new configuration.
pub disp_not_lowered :
    (d : Decon) (v : Votes)
    → Settled d.bts v
    → v.disp ≤ (replay (update_resources d false).1 v).disp
disp_not_lowered d v settled = elim (Bool-cases d.bts.enabled) [
  | inl on ↦
      rw (update_resources-enabled d false on, update_enabled-before d v) (before-disp d v settled)
  | inr off ↦ rw (update_resources-off d false off) (le_refl v.disp)
]

-- After the hardware has taken over, the votes and the memory of them agree again, and what is
-- remembered is the need of the configuration, whatever votes the update before it had made of the
-- same need.
pub update_resources_settles :
    (d : Decon) (v : Votes)
    → d.bts.enabled ≡ true
    → Settled d.bts v
    → d.bts.total_bw ≡ u32 (d.bts.read_bw + d.bts.write_bw)
    → let (d1, before) = update_resources d false in
      let (d2, after) = update_resources d1 true in
      Settled d2.bts (replay after (replay before v))
      × (d2.bts.prev_total_bw ≡ d.bts.total_bw)
      × (d2.bts.prev_peak ≡ d.bts.peak)
      × (d2.bts.prev_rt_avg_bw ≡ d.bts.rt_avg_bw)
      × (d2.bts.prev_max_disp_freq ≡ limited_disp_freq d)
update_resources_settles d v on settled sum = rw (update_resources-enabled d false on) (
    rw (update_resources-enabled (update_enabled d false).0 true (enabled_kept d on)) (
      rw (update_enabled-after (update_enabled d false).0 _, update_enabled-before d v)
        (phases-Settled d v settled sum)))
