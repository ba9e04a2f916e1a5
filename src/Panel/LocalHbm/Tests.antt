-- ===== src/Panel/LocalHbm/Tests.antt =====
-- A panel whose LHBM is turned on and off while the driver lets go of its lock.
use google_modules_display_s.Prelude.{◌≡◌, refl, true, false, some, [], arith}
use google_modules_display_s.Panel.LocalHbm.{
  disabled, enabling, LhbmDesc, is_wrong_rate, refuses, settle, update_notimeout, Panel, proceed,
  arm_if_done, turn_on, update_local_hbm, request, resume, expire, timeout_work, restore,
  disable_feat,
}
use google_modules_display_s.Panel.LocalHbm.Updates.{is_timed, Guarded}
use google_modules_display_s.Panel.LocalHbm.Timeout.{
  fresh, is_refused_amid, turned_on, turned_off, expired, fired, feat_disabled, resumed, Reach,
  here, next, Reach-Guarded,
}

abbrev desc : LhbmDesc
desc = record {
  has_set_local_hbm_mode = true;
  has_set_local_hbm_mode_post = false;
  effective_delay_frames = 2;
  post_cmd_delay_frames = 0;
  no_rr_constraints = false;
  peak_vrefresh = 120;
  post_work_disabled = false;
}

abbrev dark : Panel
dark = record {
  hbm = record {
    requested = false;
    effective = disabled;
    timeout_queued = false;
    post_queued = false;
    current_mode = some 120;
    calls = [];
  };
  waiting = 0;
  restores = false;
  firing = false;
}

abbrev lit : Panel
lit = request desc true dark

abbrev leaving : Panel
leaving = request desc false lit

abbrev again : Panel
again = request desc true leaving

path : Reach desc (fresh dark) (fresh (resume desc again))
unfolding refuses is_wrong_rate settle update_notimeout proceed arm_if_done turn_on update_local_hbm
    is_refused_amid
path =
    next
      (next (next (next here (turned_on (fresh dark))) (turned_off (fresh lit)))
        (turned_on (fresh leaving)))
      (resumed (fresh again) (omega arith))

-- LHBM is on again, but the work that makes it effective was cancelled and is not queued.
never_effective :
    ((resume desc again).hbm.effective ≡ enabling) × ((resume desc again).hbm.post_queued ≡ false)
unfolding refuses is_wrong_rate settle update_notimeout proceed arm_if_done turn_on update_local_hbm
    resume
never_effective = (refl, refl)

-- A timeout waits, and the panel is disabled meanwhile.
abbrev fading : Panel
fading = timeout_work desc (expire lit)

abbrev parting : Panel
parting = disable_feat desc fading

abbrev raced : Panel
raced = resume desc (resume desc parting)

raced_path : Reach desc (fresh dark) (record { panel = raced; overlapped = true })
unfolding refuses is_wrong_rate settle update_notimeout proceed arm_if_done turn_on update_local_hbm
    is_refused_amid resume disable_feat timeout_work restore
raced_path =
    next
      (next
        (next
          (next (next (next here (turned_on (fresh dark))) (expired (fresh lit) refl refl))
            (fired (fresh (expire lit)) refl))
          (feat_disabled (fresh fading)))
        (resumed (record { panel = parting; overlapped = true }) (omega arith)))
      (resumed (record { panel = resume desc parting; overlapped = true }) (omega arith))

-- LHBM is on for a panel that is disabled, without a timeout, and nothing waits.
left_on : (raced.hbm.effective ≡ enabling) × (is_timed raced ≡ false) × (raced.waiting ≡ 0)
unfolding refuses is_wrong_rate settle update_notimeout proceed arm_if_done turn_on update_local_hbm
    resume disable_feat timeout_work restore
left_on = (refl, refl, refl)

Reach-Guarded_example : Guarded desc (resume desc again)
Reach-Guarded_example =
    Reach-Guarded (record { dark = refl; nobody = refl; no_restore = refl; has_mode = refl }) path
      refl
