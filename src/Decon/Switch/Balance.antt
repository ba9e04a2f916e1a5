-- ===== src/Decon/Switch/Balance.antt =====
-- The references to the power and the interrupts of the display controller, over any commits.
use google_modules_display_s.Prelude.{
  ℕ, suc, ◌≡◌, Bool, true, false, not, ◌&&◌, ◌||◌, arith, if◌then◌else◌,
}
use google_modules_display_s.Hibernation.{DeconState, is_on}
use google_modules_display_s.Decon.{
  DeconDevice, is_te_enabled, pm_get, pm_put, disable_irqs, enable_locked, reinit_locked,
  stop_locked, disable_locked,
}
use google_modules_display_s.Decon.Switch.{
  CrtcState, Env, reconfigure, settle, drop_bypass, turn_off, wake_up, turn_on, exit_at, enter_at,
  leave,
}

-- An interrupt line is enabled once while the controller is on, and never else.
abbrev pub lines : Bool → Bool → ℕ
lines on there = if on && there then 1 else 0

-- The interrupts of a controller that is on or not, and its references to the power.
abbrev pub Powered : Bool → ℕ → DeconDevice → Type 0
Powered on n d =
    (d.irqs.fd ≡ lines on true)
    × (d.irqs.ext ≡ lines on true)
    × (d.irqs.fs ≡ lines on (is_te_enabled d.config))
    × (d.irqs.ds ≡ lines on d.has_ds)
    × (d.irqs.de ≡ lines on d.has_de)
    × (d.irqs.unbalanced ≡ false)
    × (d.power ≡ n)
    × (d.bad_put ≡ false)

pm_get-Powered :
    (on : Bool) (n : ℕ) (d : DeconDevice) → Powered on n d → Powered on (suc n) (pm_get d)
unfolding pm_get
pm_get-Powered on n d p = ground arith

pm_put-Powered :
    (on : Bool) (n : ℕ) (d : DeconDevice) → Powered on (suc n) d → Powered on n (pm_put d)
unfolding pm_put
pm_put-Powered on n d p = ground arith

enable_locked-Powered :
    (n : ℕ) (d : DeconDevice) → Powered false n d → Powered true n (enable_locked d)
unfolding enable_locked
enable_locked-Powered n d p = ground arith

stop_locked-Powered :
    (on : Bool) (n : ℕ) (reset : Bool) (v : ℕ) (d : DeconDevice)
    → Powered on n d
    → Powered on n (stop_locked reset v d)
unfolding stop_locked reinit_locked
stop_locked-Powered on n reset v d p = p

disable_locked-Powered :
    (n : ℕ) (reset : Bool) (v : ℕ) (d : DeconDevice)
    → Powered true n d
    → Powered false n (disable_locked reset v d)
unfolding disable_locked disable_irqs stop_locked reinit_locked
disable_locked-Powered n reset v d p = ground arith

-- The references of a state: a controller in bypass keeps one more.
abbrev pub power_of : DeconState → Bool → ℕ
power_of DeconState.on bypass = 1
power_of DeconState.hibernation bypass = if bypass then 1 else 0
power_of DeconState.handover bypass = 1
power_of _ bypass = 0

abbrev pub in_hibernation : DeconState → Bool
in_hibernation DeconState.hibernation = true
in_hibernation _ = false

abbrev pub Awake : DeconDevice → Type 0
Awake d = Powered true 1 d × (d.state ≡ DeconState.on)

reconfigure-Powered :
    (env : Env) (modeset : Bool) (n : ℕ) (d : DeconDevice)
    → Powered false n d
    → Powered false n (if modeset then reconfigure env d else d)
unfolding reconfigure
reconfigure-Powered env true n d p = p
reconfigure-Powered env false n d p = p

pub wake_up-Awake :
    (old : CrtcState) (d : DeconDevice)
    → d.state ≡ DeconState.hibernation
    → Powered false (if old.bypass then 1 else 0) d
    → Awake (wake_up old d)
unfolding wake_up drop_bypass exit_at stop_locked reinit_locked enable_locked pm_get pm_put
wake_up-Awake old d e p = ground arith

pub turn_on-Awake :
    (env : Env) (old new : CrtcState) (d : DeconDevice)
    → old.bypass ≡ false
    → is_on d.state ≡ false
    → in_hibernation d.state ≡ false
    → Powered false (power_of d.state false) d
    → Awake (turn_on env old new d)
unfolding turn_on drop_bypass settle stop_locked reinit_locked enable_locked pm_get pm_put
    reconfigure
turn_on-Awake env old new d b h i p = ground arith

enter_at-Powered :
    (env : Env) (s : CrtcState) (n : ℕ) (d : DeconDevice)
    → Powered true (suc n) d
    → Powered false n (enter_at DeconState.on env s d)
      × ((enter_at DeconState.on env s d).state ≡ DeconState.hibernation)
unfolding enter_at disable_locked disable_irqs stop_locked reinit_locked pm_put
enter_at-Powered env s n d p = ground arith

-- A controller that is on goes into hibernation, with one more reference in bypass, or off.
pub leave-on :
    (env : Env) (s : CrtcState) (d : DeconDevice)
    → (not s.bypass || s.self_refresh_active) ≡ true
    → Awake d
    → let d' = leave env s d in
      Powered false (power_of d'.state s.bypass) d'
      × (d'.state ≡ (if s.self_refresh_active then DeconState.hibernation else DeconState.off))
unfolding leave turn_off enter_at disable_locked disable_irqs stop_locked reinit_locked pm_put
    pm_get
leave-on env s d b p = ground arith

-- A controller in hibernation without bypass is turned off.
pub leave-hibernation :
    (env : Env) (s : CrtcState) (d : DeconDevice)
    → s.bypass ≡ false
    → s.self_refresh_active ≡ false
    → d.state ≡ DeconState.hibernation
    → Powered false 0 d
    → Powered false 0 (leave env s d) × ((leave env s d).state ≡ DeconState.off)
unfolding leave turn_off
leave-hibernation env s d b r e p = ground arith

-- Out of hibernation for a new mode: the reference of bypass stays until the controller is on.
pub leave-asleep :
    (env : Env) (s : CrtcState) (bypass : Bool) (d : DeconDevice)
    → s.bypass ≡ false
    → s.self_refresh_active ≡ false
    → d.state ≡ DeconState.hibernation
    → Powered false (if bypass then 1 else 0) d
    → Powered false (if bypass then 1 else 0) (leave env s d)
      × ((leave env s d).state ≡ DeconState.off)
unfolding leave turn_off
leave-asleep env s bypass d b r e p = ground arith

pub turn_on-Bypassed :
    (env : Env) (old new : CrtcState) (d : DeconDevice)
    → d.state ≡ DeconState.off
    → Powered false (if old.bypass then 1 else 0) d
    → Awake (turn_on env old new d)
unfolding turn_on drop_bypass settle stop_locked reinit_locked enable_locked pm_get pm_put
    reconfigure
turn_on-Bypassed env old new d e p = ground arith
