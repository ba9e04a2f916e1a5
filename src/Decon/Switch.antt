-- ===== src/Decon/Switch.antt =====
-- exynos_drm_decon.c, decon_enable and decon_disable with the hibernation between them, and what
-- exynos_drm_crtc.c makes of DRM's calls of them.
pub mod Balance
pub mod Commits
mod Tests
use google_modules_display_s.Prelude.{
  ℕ, suc, ◌+◌, ◌-◌, Bool, true, false, not, ◌&&◌, ◌||◌, Option, none, some, List, [], ◌∷◌, ◌++◌,
  ltb, if◌then◌else◌,
}
use google_modules_display_s.Hibernation.{DeconState, is_on}
use google_modules_display_s.Decon.{
  Config, DeconDevice, dqe_restore_lpd_data, dqe_hibernation_enter, partial_restore, call,
  is_handover, is_te_enabled, pm_get, pm_put, enable_locked, reinit_locked, stop_locked,
  wait_for_framedone, disable_locked,
}

-- The part of a CRTC state that the state machine reads. `modeset` is `mode_changed ||
-- connectors_changed`.
pub record CrtcState : Type 0 where
  pub active : Bool
  pub self_refresh_active : Bool
  pub bypass : Bool
  pub modeset : Bool
  pub active_changed : Bool
  pub vrefresh : ℕ

-- What the other parts answer: the configuration that decon_update_config computes, the `max_bpc` of
-- the connector if there is one, whether its TE interrupt can be requested, its `tout_gpio`, and
-- whether the frame was done before the timeout.
pub record Env : Type 0 where
  pub new_config : Config → Config
  pub max_bpc : Option ℕ
  pub te_irq : Bool
  pub new_tout_gpio : ℕ
  pub in_time : Bool

abbrev pub with_state : DeconState → DeconDevice → DeconDevice
with_state s d = record d { state = s }

-- `decon_exit_hibernation`, by the state that it finds.
unfoldable pub exit_at : DeconState → DeconDevice → DeconDevice
exit_at DeconState.hibernation d =
    let d' = enable_locked (pm_get d) in
    let restore = dqe_restore_lpd_data ∷ (if d.has_partial then partial_restore ∷ [] else []) in
    with_state DeconState.on (call d' restore)
exit_at _ d = d

abbrev pub exit_hibernation : DeconDevice → DeconDevice
exit_hibernation d = exit_at d.state d

-- `decon_enter_hibernation`
unfoldable pub enter_at : DeconState → Env → CrtcState → DeconDevice → DeconDevice
enter_at DeconState.on env s d =
    let reset = wait_for_framedone env.in_time (s.modeset || s.active_changed) in
    let d' = disable_locked reset s.vrefresh (call d (dqe_hibernation_enter ∷ [])) in
    with_state DeconState.hibernation (pm_put d')
enter_at _ env s d = d

abbrev pub enter_hibernation : Env → CrtcState → DeconDevice → DeconDevice
enter_hibernation env s d = enter_at d.state env s d

unfoldable pub with_out_bpc : Option ℕ → Config → Config
with_out_bpc none c = c
with_out_bpc (some bpc) c = if c.out_dp then record c { out_bpc = bpc } else c

-- The part of `decon_enable` for a changed mode or connector.
unfoldable pub reconfigure : Env → DeconDevice → DeconDevice
reconfigure env d =
    let c = with_out_bpc env.max_bpc (env.new_config d.config) in
    record d {
      config = c;
      te = if is_te_enabled c && env.te_irq then true else d.te;
      tout_gpio = if ltb 0 env.new_tout_gpio then env.new_tout_gpio else d.tout_gpio;
    }

-- Under the lock, before the controller is enabled: what a boot splash or the boot itself left.
unfoldable pub settle : DeconState → CrtcState → DeconDevice → DeconDevice
settle DeconState.handover old d = pm_put (reinit_locked d)
settle DeconState.init old d = stop_locked true old.vrefresh d
settle _ old d = d

unfoldable pub drop_bypass : CrtcState → DeconDevice → DeconDevice
drop_bypass old d = if old.bypass then pm_put d else d

-- `decon_enable` of a controller that is neither on nor in hibernation.
unfoldable pub turn_on : Env → CrtcState → CrtcState → DeconDevice → DeconDevice
turn_on env old new d =
    let d' = pm_get (if new.modeset then reconfigure env d else d) in
    drop_bypass old (with_state DeconState.on (enable_locked (settle d.state old d')))

unfoldable pub wake_up : CrtcState → DeconDevice → DeconDevice
wake_up old d =
    let d' = if old.bypass then stop_locked true old.vrefresh d else d in
    drop_bypass old (exit_at d.state d')

-- `decon_enable`, by the state that it finds.
unfoldable pub enable_at : DeconState → Env → CrtcState → CrtcState → DeconDevice → DeconDevice
enable_at DeconState.on env old new d = d
enable_at DeconState.hibernation env old new d = wake_up old d
enable_at _ env old new d = turn_on env old new d

abbrev pub decon_enable : Env → CrtcState → CrtcState → DeconDevice → DeconDevice
decon_enable env old new d = enable_at d.state env old new d

-- The last part of `decon_disable`, for a display that is turned off.
unfoldable pub turn_off : DeconState → Env → CrtcState → DeconDevice → DeconDevice
turn_off was env s d =
    let d1 = record d {
      te = if s.modeset then false else d.te;
      gray_level_callback = if d.has_dqe then false else d.gray_level_callback;
    } in
    let reset = wait_for_framedone env.in_time (s.modeset || s.active_changed) in
    with_state DeconState.off
      (if is_on was then pm_put (disable_locked reset s.vrefresh d1) else d1)

unfoldable pub leave : Env → CrtcState → DeconDevice → DeconDevice
leave env s d =
    let d' = if s.bypass then pm_get d else d in
    if s.self_refresh_active then enter_at d.state env s d' else turn_off d.state env s d'

-- `decon_disable`, by the state that it finds.
unfoldable pub disable_at : DeconState → Env → CrtcState → DeconDevice → DeconDevice
disable_at DeconState.off env s d = d
disable_at _ env s d = leave env s d

abbrev pub decon_disable : Env → CrtcState → DeconDevice → DeconDevice
decon_disable env s d = disable_at d.state env s d

-- `enum crtc_active_state`, and what exynos_drm_crtc.c keeps of a CRTC.
pub data ActiveState : Type 0 where
  active inactive self_refresh : ActiveState

pub record Crtc : Type 0 where
  pub decon : DeconDevice
  pub active_state : ActiveState

abbrev pub wanted : CrtcState → ActiveState
wanted s = if s.self_refresh_active then self_refresh else inactive

abbrev pub same_state : ActiveState → ActiveState → Bool
same_state active active = true
same_state inactive inactive = true
same_state self_refresh self_refresh = true
same_state _ _ = false

-- `exynos_drm_crtc_atomic_enable`
unfoldable pub atomic_enable : Env → CrtcState → CrtcState → Crtc → Crtc
atomic_enable env old new c =
    if same_state active c.active_state
    then c
    else record { decon = decon_enable env old new c.decon; active_state = active }

-- `exynos_drm_crtc_atomic_disable`, but for the events of vertical blanking.
unfoldable pub atomic_disable : Env → CrtcState → Crtc → Crtc
atomic_disable env new c =
    if same_state (wanted new) c.active_state
    then c
    else record { decon = decon_disable env new c.decon; active_state = wanted new }
