-- ===== src/Dsim/Power/Commits.antt =====
-- The DSI host over any row of commits, transfers and sleeps.
use google_modules_display_s.Prelude.{◌≡◌, Bool, true, false, ◌||◌, arith, if◌then◌else◌}
use google_modules_display_s.Dsim.Power.{
  Host, is_suspend, is_handover, Env, core_suspend, encoder_enable, encoder_disable, host_transfer,
  system_suspend, system_resume,
}
use google_modules_display_s.Dsim.Power.Balance.{
  Phase, dark, lit, refreshing, bypassed, is_lit, is_dark, in_refresh, Balanced, idle-Balanced,
  enable-Balanced, refresh-Balanced, disable-Balanced, transfer-Balanced, sleep-Balanced,
}

-- The host and what DRM has made of its display.
pub record World : Type 0 where
  pub host : Host
  pub phase : Phase

abbrev pub to : Host → Phase → World
to h p = record { host = h; phase = p }

-- DRM enables a display that is not lit, puts a lit one into self refresh, with bypass or without,
-- and disables one that is not dark; an idle host is suspended at some time, packets are sent in any
-- phase, and the system sleeps.
pub data Step : World → World → Type 0 where
  enabled :
      (env : Env) (w : World)
      → env.linked ≡ true
      → is_lit w.phase ≡ false
      → Step w (to (encoder_enable env (in_refresh w.phase) w.host) lit)
  rested :
      (env : Env) (by : Bool) (w : World)
      → is_lit w.phase ≡ true
      → Step w (to (encoder_disable env false true by w.host) (if by then bypassed else refreshing))
  disabled :
      (env : Env) (by : Bool) (w : World)
      → is_dark w.phase ≡ false
      → Step w (to (encoder_disable env (in_refresh w.phase) false by w.host) dark)
  idled :
      (w : World)
      → w.host.usage ≡ 0
      → w.host.active ≡ true
      → Step w (to (core_suspend w.host) w.phase)
  sent : (queued last : Bool) (w : World) → Step w (to (host_transfer queued last w.host) w.phase)
  slept : (w : World) → Step w (to (system_resume (system_suspend w.host)) w.phase)

pub data Reach (v : World) : World → Type 0 where
  here : Reach v v
  next : {w u : World} → Reach v w → Step w u → Reach v u

Step-Balanced : {w u : World} → Step w u → Balanced w.phase w.host → Balanced u.phase u.host
Step-Balanced (enabled env w l n) b =
    enable-Balanced env w.phase (in_refresh w.phase) w.host l n (ground arith) b
Step-Balanced (rested env by w e) b = refresh-Balanced env w.phase by w.host e b
Step-Balanced (disabled env by w n) b = disable-Balanced env w.phase by w.host n b
Step-Balanced (idled w u a) b = idle-Balanced w.phase w.host u a b
Step-Balanced (sent queued last w) b = transfer-Balanced w.phase queued last w.host b
Step-Balanced (slept w) b = sleep-Balanced w.phase w.host b

-- A host as dsim_probe leaves it: suspended, or as the bootloader left it.
pub record Probed (w : World) : Type 0 where
  pub dark_yet : w.phase ≡ dark
  pub at_rest : (is_suspend w.host.state || is_handover w.host.state) ≡ true
  pub nothing_on :
      (w.host.phy ≡ 0) × (w.host.irq ≡ 0) × (w.host.usage ≡ 0) × (w.host.total_pend_ph ≡ 0)
  pub no_fault : (w.host.error || w.host.unbalanced || w.host.unpowered) ≡ false

Probed-Balanced : (w : World) → Probed w → Balanced w.phase w.host
Probed-Balanced w p = ground arith

-- Whatever commits enable a probed host, put it into self refresh with bypass or without, and disable
-- it, whenever the idle host is suspended, packets are sent or queued, and the system sleeps: its
-- state is one that fits what DRM has made of it, its PHY and its interrupt are on once exactly in the
-- state HSCLKEN, the references to its power are one for a lit display and one for queued packets,
-- runtime power management has failed in bypass at most, no count was ever below 0, and no register
-- was touched without power.
pub Reach-Balanced : {v w : World} → Probed v → Reach v w → Balanced w.phase w.host
Reach-Balanced {v} p here = Probed-Balanced v p
Reach-Balanced p (next path step) = Step-Balanced step (Reach-Balanced p path)
