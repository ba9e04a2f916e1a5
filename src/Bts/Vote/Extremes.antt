-- ===== src/Bts/Vote/Extremes.antt =====
-- Where the votes are lowered: all of them on release, and one of them too early.
use google_modules_display_s.Prelude.{◌<◌, true, false, ◌≡◌, refl, [], arith, ap, if◌then◌else◌}
use google_modules_display_s.Bts.{Decon}
use google_modules_display_s.Bts.Vote.{
  no_bw, update_scenario, before_shadow, update_resources, release_enabled, release_resources,
}
use google_modules_display_s.Bts.Vote.Phases.{
  Votes, replay, replay-append, Settled, update_resources-enabled, before_bts,
  update_enabled-before,
}

before_peak :
    (d : Decon) (v : Votes)
    → Settled d.bts v
    → d.bts.prev_total_bw < d.bts.total_bw
    → (replay (before_shadow d.params.bw_idx (before_bts d)) v).bw.peak ≡ d.bts.peak
unfolding before_shadow before_bts
before_peak d v settled more = ground arith

-- When the total bandwidth rises while the peak falls, the vote for the peak is lowered before the
-- hardware has taken over the new configuration, while it still works with the old peak.
pub peak_lowered_early :
    (d : Decon) (v : Votes)
    → d.bts.enabled ≡ true
    → Settled d.bts v
    → d.bts.prev_total_bw < d.bts.total_bw
    → d.bts.peak < d.bts.prev_peak
    → (replay (update_resources d false).1 v).bw.peak < v.bw.peak
peak_lowered_early d v on settled more less =
    rw (update_resources-enabled d false on, update_enabled-before d v)
      (omega (arith, before_peak d v settled more))

release_enabled-votes :
    (d : Decon) (v : Votes)
    → (replay (release_enabled d).1 v ≡ record { bw = no_bw; disp = 0 })
      × Settled (release_enabled d).0.bts (record { bw = no_bw; disp = 0 })
unfolding release_enabled
release_enabled-votes d v = (
  rw (replay-append (update_scenario d no_bw).1 _ v),
  record { disp = refl; peak = refl; rt = refl; total = refl },
)

release_resources-enabled :
    (d : Decon) → d.bts.enabled ≡ true → release_resources d ≡ release_enabled d
unfolding release_resources
release_resources-enabled d on = ap (λ t. if t then release_enabled d else (d, [])) on

-- A release takes back every bandwidth and clock vote, whatever was voted for before, and leaves the
-- votes and the memory of them in agreement.
pub release_resources_clears :
    (d : Decon) (v : Votes)
    → d.bts.enabled ≡ true
    → let (d', calls) = release_resources d in
      (replay calls v ≡ record { bw = no_bw; disp = 0 }) × Settled d'.bts (replay calls v)
release_resources_clears d v on =
    let (cleared, settled) = release_enabled-votes d v in
    rw (release_resources-enabled d on) (cleared, rw cleared settled)
