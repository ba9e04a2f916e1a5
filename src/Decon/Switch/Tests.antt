-- ===== src/Decon/Switch/Tests.antt =====
-- A display of the boot splash that is taken over, set to sleep with bypass, and woken up again.
use google_modules_display_s.Prelude.{◌≡◌, refl, true, false, none, [], inr}
use google_modules_display_s.Hibernation.{DeconState}
use google_modules_display_s.Decon.{
  Config, DeconDevice, enable_irqs, disable_irqs, enable_locked, reinit_locked, stop_locked,
  disable_locked, pm_get, pm_put,
}
use google_modules_display_s.Decon.Switch.{
  turn_off, CrtcState, Env, inactive, atomic_enable, atomic_disable, enable_at, disable_at, turn_on,
  wake_up, leave, exit_at, enter_at, reconfigure, with_out_bpc, settle, drop_bypass,
}
use google_modules_display_s.Decon.Switch.Commits.{
  World, commit_crtc, old_state, needs_disable, commit, Reach, here, next, Steady, Probed,
  Reach-Steady,
}

abbrev config : Config
config = record { command_mode = true; hw_trig = true; out_dp = false; out_bpc = 8 }

abbrev splash : DeconDevice
splash = record {
  id = 0;
  state = DeconState.handover;
  config = config;
  power = 1;
  bad_put = false;
  irqs = record { fd = 0; ext = 0; fs = 0; ds = 0; de = 0; unbalanced = false };
  has_ds = true;
  has_de = false;
  te = false;
  te_ref = 0;
  tout_gpio = 0;
  frames_pending = 0;
  frame_transfer_pending = false;
  bts_fps = 60;
  active_wins = [];
  dpps = [];
  has_rcd = false;
  has_dqe = true;
  gray_level_callback = false;
  has_partial = true;
  calls = [];
}

abbrev env : Env
env = record {
  new_config = λ c. c;
  max_bpc = none;
  te_irq = true;
  new_tout_gpio = 0;
  in_time = true;
}

abbrev dark : CrtcState
dark = record {
  active = false;
  self_refresh_active = false;
  bypass = false;
  modeset = false;
  active_changed = false;
  vrefresh = 60;
}

abbrev shown : CrtcState
shown = record dark { active = true; modeset = true }

abbrev bypassed : CrtcState
bypassed = record dark { self_refresh_active = true; bypass = true }

abbrev boot : World
boot = record { crtc = record { decon = splash; active_state = inactive }; cur = dark }

-- The display is turned on, goes into bypass, and comes back with another mode.
abbrev lit : World
lit = record { crtc = commit_crtc env true true dark shown boot.crtc; cur = shown }

abbrev resting : World
resting = record { crtc = commit_crtc env true false shown bypassed lit.crtc; cur = bypassed }

abbrev woken : World
woken = record { crtc = commit_crtc env true true bypassed shown resting.crtc; cur = shown }

path : Reach boot woken
path =
    next
      (next (next here (commit env true true shown boot refl))
        (commit env true false bypassed lit refl))
      (commit env true true shown resting refl)

boot-Probed : Probed boot
boot-Probed = record {
  never_on = refl;
  no_commit = refl;
  fresh = inr (refl, (refl, refl, refl, refl, refl, refl, refl, refl));
}

-- In bypass the power is held; the commit that wakes the display up gives that reference back.
references : (resting.crtc.decon.power ≡ 1) × (woken.crtc.decon.power ≡ 1)
unfolding commit_crtc old_state needs_disable turn_off atomic_enable atomic_disable enable_at
    disable_at turn_on wake_up leave exit_at enter_at reconfigure with_out_bpc settle drop_bypass
    pm_get pm_put enable_locked enable_irqs disable_irqs reinit_locked stop_locked disable_locked
references = (refl, refl)

Reach-Steady_example : Steady woken
Reach-Steady_example = Reach-Steady boot-Probed path
