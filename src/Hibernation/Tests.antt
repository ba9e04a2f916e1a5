-- ===== src/Hibernation/Tests.antt =====
-- Runs of the hibernation functions, and the theorems at concrete inputs.
use google_modules_display_s.Prelude.{
  Bool, true, false, ◌≡◌, refl, ◌⊎◌, none, some, [], ◌∷◌, Errno, arith,
}
use google_modules_display_s.Hibernation.SelfRefresh.{
  Decon, Drm, DeconState, Try, last, retry, self_refresh_update,
}
use google_modules_display_s.Hibernation.SelfRefresh.Retry.{
  stopped, Accepted, self_refresh_update_commits,
}
use google_modules_display_s.Hibernation.{
  Hiber, block, unblock, unblock_enter, is_hibernation_blocked, check, run, handler, Node, register,
}
use google_modules_display_s.Hibernation.Clients.{
  begin, finish, to, hold, commit, release, fire_begin, fire_finish, Reach, here, next, Inv,
  Reach-Inv,
}

abbrev awake : Decon
awake = record { state = DeconState.on; command_mode = true; dqe = some false }

abbrev dark : Decon
dark = record awake { state = DeconState.off }

abbrev asleep : Decon
asleep = record awake { state = DeconState.hibernation }

abbrev good_try : Try
good_try = record {
  crtc_state = none;
  crtc_enable = true;
  crtc_active = true;
  add_connectors = none;
  self_refresh_aware = true ∷ [];
  commit = none;
  backoff = Errno.other;
}

-- One deadlock, then a commit that is accepted.
abbrev drm : Drm
drm = record {
  memory = true;
  tries = retry (record good_try { commit = some Errno.edeadlk }) (last good_try);
  committed = λ enable nonblock d. if_enable enable d;
}
  where
    if_enable : Bool → Decon → Decon
    if_enable true d = record d { state = DeconState.hibernation }
    if_enable false d = record d { state = DeconState.on }

abbrev node : Node
node = record {
  override_hibernation = false;
  hibernation = true;
  memory = true;
  camera = some (some 0x30);
}

abbrev idle : Decon → Hiber
idle d = record {
  block_cnt = 0;
  cam_op_reg = some 0x30;
  queued = false;
  has_decon = true;
  decon = d;
  has_funcs = true;
  enabled = true;
  warnings = 0;
}

registered : register node dark ≡ some (idle dark)
unfolding register
registered = refl

falls_asleep : (handler drm (idle awake)).decon ≡ asleep
unfolding handler run self_refresh_update
falls_asleep = refl

self_refresh_update_commits_example :
    ((self_refresh_update drm true true awake).0 ≡ awake)
    ⊎ (Accepted true (stopped true drm.tries)
        × (self_refresh_update drm true true awake ≡ (asleep, none)))
self_refresh_update_commits_example = self_refresh_update_commits drm true true awake

-- A caller holds a block, turns the display on and gives the block back; the work finds it free, and
-- another caller comes before its `funcs->enter`.
abbrev free : Hiber
free = record (idle awake) { queued = true }

path : Reach (to (idle dark) 0 false false) (to (finish drm (block (begin free)).0) 1 false false)
unfolding block unblock unblock_enter is_hibernation_blocked check begin
path =
    next
      (next
        (next
          (next
            (next (next here (hold (to (idle dark) 0 false false))) (
              commit awake (to (record (idle dark) { block_cnt = 1; queued = true }) 1 false false)
                (omega arith)))
            (release (to (record free { block_cnt = 1 }) 1 false false) (omega arith)))
          (fire_begin (to free 0 false false) refl refl refl refl))
        (hold (to (begin free) 0 true false)))
      (fire_finish drm (to (block (begin free)).0 1 true false) refl)

Reach-Inv_example : Inv (to (finish drm (block (begin free)).0) 1 false false)
Reach-Inv_example = Reach-Inv node dark (idle dark) registered refl path
