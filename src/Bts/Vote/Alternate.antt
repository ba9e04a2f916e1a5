-- ===== src/Bts/Vote/Alternate.antt =====
-- The votes for the bandwidth scenario over any run of updates and releases.
use google_modules_display_s.Prelude.{
  ℕ, Bool, true, false, ◌≡◌, refl, ◌∙◌, Option, none, some, List, [], ◌∷◌, ◌++◌, map, arith,
  if◌then◌else◌,
}
use google_modules_display_s.Bts.{Bts, Decon}
use google_modules_display_s.Bts.Vote.{
  Bw, no_bw, Call, bts_add_scenario, bts_del_scenario, bts_set_urgent_lat_read, bw_of, limited,
  update_scenario, update_urgent_latency, after_shadow, before_shadow, update_enabled,
  update_resources, release_enabled, release_resources,
}

-- The scenario driver's view: added or not. A second add, or a delete of what was not added, is an
-- error, `none`.
pub scen_replay : List Call → Bool → Option Bool
scen_replay [] voted = some voted
scen_replay (bts_add_scenario i ∷ cs) voted = if voted then none else scen_replay cs true
scen_replay (bts_del_scenario i ∷ cs) voted = if voted then scen_replay cs false else none
scen_replay (c ∷ cs) voted = scen_replay cs voted

scen_replay-append :
    (cs ds : List Call) (a b : Bool)
    → scen_replay cs a ≡ some b
    → scen_replay (cs ++ ds) a ≡ scen_replay ds b
unfolding scen_replay
scen_replay-append [] ds a b h = ground arith
scen_replay-append (bts_add_scenario i ∷ cs) ds true b h = cc
scen_replay-append (bts_add_scenario i ∷ cs) ds false b h = scen_replay-append cs ds true b h
scen_replay-append (bts_del_scenario i ∷ cs) ds true b h = scen_replay-append cs ds false b h
scen_replay-append (bts_del_scenario i ∷ cs) ds false b h = cc
scen_replay-append (c ∷ cs) ds a b h = scen_replay-append cs ds a b h

scenario-replay :
    (d : Decon) (bw : Bw)
    → scen_replay (update_scenario d bw).1 d.bts_scen.voted ≡ some (update_scenario d bw).0.voted
unfolding scen_replay update_scenario
scenario-replay d bw = ground arith

urgent_calls-replay :
    (l : ℕ) (is : List ℕ) (a : Bool)
    → scen_replay (map (λ index. bts_set_urgent_lat_read index l) is) a ≡ some a
unfolding scen_replay
urgent_calls-replay l [] a = refl
urgent_calls-replay l (i ∷ is) a = urgent_calls-replay l is a

urgent-replay : (d : Decon) (a : Bool) → scen_replay (update_urgent_latency d).1 a ≡ some a
unfolding scen_replay update_urgent_latency
urgent-replay d a =
    ground (arith, urgent_calls-replay d.bts.urgent_rd_lat d.params.urgent_rd_lat_index a)

before-replay : (i : ℕ) (b : Bts) (a : Bool) → scen_replay (before_shadow i b) a ≡ some a
unfolding scen_replay before_shadow
before-replay i b a = ground arith

after-replay : (i : ℕ) (b : Bts) (a : Bool) → scen_replay (after_shadow i b).1 a ≡ some a
unfolding scen_replay after_shadow
after-replay i b a = ground arith

three :
    (c1 c2 c3 : List Call) (a b : Bool)
    → scen_replay c1 a ≡ some b
    → scen_replay c2 b ≡ some b
    → scen_replay c3 b ≡ some b
    → scen_replay (c1 ++ (c2 ++ c3)) a ≡ some b
three c1 c2 c3 a b h1 h2 h3 =
    scen_replay-append c1 (c2 ++ c3) a b h1 ∙ (scen_replay-append c2 c3 b b h2 ∙ h3)

update_enabled-replay :
    (d : Decon) (s : Bool)
    → scen_replay (update_enabled d s).1 d.bts_scen.voted
      ≡ some (update_enabled d s).0.bts_scen.voted
unfolding update_enabled
update_enabled-replay d true =
    three _ _ _ _ _ (scenario-replay (limited d) (bw_of d.bts)) (urgent-replay (limited d) _)
      (after-replay d.params.bw_idx _ _)
update_enabled-replay d false =
    three _ _ _ _ _ (scenario-replay (limited d) (bw_of d.bts)) (urgent-replay (limited d) _)
      (before-replay d.params.bw_idx _ _)

release_enabled-replay :
    (d : Decon)
    → scen_replay (release_enabled d).1 d.bts_scen.voted ≡ some (release_enabled d).0.bts_scen.voted
unfolding release_enabled
release_enabled-replay d =
    scen_replay-append (update_scenario d no_bw).1 _ _ _ (scenario-replay d no_bw)
    ∙ (unfold scen_replay in refl)

-- What happens to the votes of a display: a new calculation, of which nothing is assumed, an update
-- before or after the hardware takes over, a release.
pub data Op : Type 0 where
  calc : Bts → Op
  update : Bool → Op
  release : Op

pub step : Decon → Op → Decon × List Call
step d (calc b) = (record d { bts = b }, [])
step d (update s) = update_resources d s
step d release = release_resources d

pub run : Decon → List Op → Decon × List Call
run d [] = (d, [])
run d (o ∷ os) = let (d', c) = step d o in let (d'', cs) = run d' os in (d'', c ++ cs)

step-replay :
    (d : Decon) (o : Op)
    → scen_replay (step d o).1 d.bts_scen.voted ≡ some (step d o).0.bts_scen.voted
unfolding step update_resources release_resources scen_replay
step-replay d (calc b) = refl
step-replay d (update s) = ground (arith, update_enabled-replay d s)
step-replay d release = ground (arith, release_enabled-replay d)

-- In every run of calculations, updates and releases the scenario is never added twice nor deleted
-- when it is not there, and at the end it is there exactly when `voted` says so.
pub run_alternates :
    (d : Decon) (os : List Op)
    → scen_replay (run d os).1 d.bts_scen.voted ≡ some (run d os).0.bts_scen.voted
unfolding run
run_alternates d [] = unfold scen_replay in refl
run_alternates d (o ∷ os) =
    scen_replay-append (step d o).1 _ _ _ (step-replay d o) ∙ run_alternates (step d o).0 os
