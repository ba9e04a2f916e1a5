-- ===== src/Decon/Switch/Commits.antt =====
-- Any row of commits as DRM makes them of the display controller.
use google_modules_display_s.Prelude.{
  ◌≡◌, refl, Bool, true, false, not, ◌&&◌, ◌||◌, arith, if◌then◌else◌, ◌⊎◌, inl, inr, Bool-cases,
}
use google_modules_display_s.Hibernation.{DeconState, is_on}
use google_modules_display_s.Decon.Switch.{
  CrtcState, Env, enable_at, disable_at, ActiveState, active, inactive, self_refresh, Crtc,
  atomic_enable, atomic_disable, wanted, same_state, leave,
}
use google_modules_display_s.Decon.Switch.Balance.{
  Powered, power_of, in_hibernation, wake_up-Awake, turn_on-Awake, leave-on, leave-hibernation,
  leave-asleep, turn_on-Bypassed,
}

-- The CRTC, and the state that was committed last.
pub record World : Type 0 where
  pub crtc : Crtc
  pub cur : CrtcState

abbrev pub is_awake : CrtcState → Bool
is_awake s = s.active && not s.self_refresh_active && not s.bypass

-- The old state as exynos_disable_outputs takes it: in self refresh, a change of the mode makes it active.
unfoldable pub old_state : Bool → CrtcState → CrtcState
old_state mode_changed old =
    if old.self_refresh_active && mode_changed then record old { active = true } else old

-- `exynos_crtc_needs_disable`, where the CRTC stays the same.
unfoldable pub needs_disable : Bool → CrtcState → CrtcState → Bool
needs_disable enable old new =
    old.active || old.self_refresh_active && not enable || new.self_refresh_active

-- What a commit that needs a modeset does to a CRTC: exynos_disable_outputs, and then the enables of
-- DRM, which are those of an active state.
unfoldable pub commit_crtc : Env → Bool → Bool → CrtcState → CrtcState → Crtc → Crtc
unfolding old_state needs_disable
commit_crtc env enable mode_changed cur new c =
    let old = old_state mode_changed cur in
    let c' = if needs_disable enable old new then atomic_disable env new c else c in
    if new.active then atomic_enable env old new c' else c'

-- The states that DRM and the driver make: an active CRTC is enabled, and neither in self refresh nor
-- in bypass; self refresh comes after an active state or after self refresh, with the CRTC enabled;
-- bypass comes with self refresh, out of an active state (exynos_atomic_enter_tui), and ends by a
-- commit that makes the CRTC active (exynos_atomic_exit_tui).
abbrev pub is_allowed : Bool → CrtcState → CrtcState → Bool
is_allowed enable cur new =
    (not new.active || enable && is_awake new)
    && (not new.self_refresh_active || enable && (cur.active || cur.self_refresh_active))
    && (not new.bypass || new.self_refresh_active && cur.active)
    && (not cur.bypass || new.active)

pub data Step : World → World → Type 0 where
  commit :
      (env : Env) (enable mode_changed : Bool) (new : CrtcState) (w : World)
      → is_allowed enable w.cur new ≡ true
      → Step w (record { crtc = commit_crtc env enable mode_changed w.cur new w.crtc; cur = new })

pub data Reach (v : World) : World → Type 0 where
  here : Reach v v
  next : {w u : World} → Reach v w → Step w u → Reach v u

abbrev pub phase : CrtcState → ActiveState
phase s = if s.active then active else wanted s

-- The phase of a CRTC and the state of its controller.
abbrev pub linked : ActiveState → DeconState → Bool
linked active s = is_on s
linked self_refresh s = in_hibernation s
linked inactive s = not (is_on s) && not (in_hibernation s)

-- The phase follows the state that was committed last, except that a CRTC that is made inactive in self
-- refresh and stays enabled is left in self refresh.
abbrev pub agrees : CrtcState → ActiveState → Bool
agrees cur self_refresh = not cur.active
agrees cur a = same_state (phase cur) a

pub record Steady (w : World) : Type 0 where
  pub committed : agrees w.cur w.crtc.active_state ≡ true
  pub follows : linked w.crtc.active_state w.crtc.decon.state ≡ true
  pub powered :
      Powered (is_on w.crtc.decon.state) (power_of w.crtc.decon.state w.cur.bypass) w.crtc.decon
  pub quiet : (not w.cur.bypass || (w.cur.self_refresh_active && not w.cur.active)) ≡ true
  pub single : (not w.cur.active || not w.cur.self_refresh_active) ≡ true

-- A commit that goes to an active state without a disable before.
enabled-Steady :
    (env : Env) (new : CrtcState) (w : World)
    → w.cur.active ≡ false
    → is_awake new ≡ true
    → Steady w
    → Steady (record { crtc = atomic_enable env w.cur new w.crtc; cur = new })
unfolding atomic_enable enable_at
enabled-Steady env new w a n v =
    ground (arith, wake_up-Awake w.cur w.crtc.decon, turn_on-Awake env w.cur new w.crtc.decon)

-- What a controller that is on is after a commit that leaves that state.
leave_active :
    (env : Env) (new : CrtcState) (w : World)
    → w.cur.active ≡ true
    → (not new.bypass || new.self_refresh_active) ≡ true
    → Steady w
    → let c = atomic_disable env new w.crtc in
      (c.active_state ≡ wanted new)
      × (linked (wanted new) c.decon.state ≡ true)
      × (is_on c.decon.state ≡ false)
      × Powered false (power_of c.decon.state new.bypass) c.decon
unfolding atomic_disable disable_at
leave_active env new w a b v = ground (arith, leave-on env new w.crtc.decon)

mode_set-Steady :
    (env : Env) (new : CrtcState) (w : World)
    → w.cur.active ≡ true
    → is_awake new ≡ true
    → Steady w
    → Steady
        (record { crtc = atomic_enable env w.cur new (atomic_disable env new w.crtc); cur = new })
unfolding atomic_enable enable_at
mode_set-Steady env new w a n v =
    let c = atomic_disable env new w.crtc in
    let gone = leave_active env new w a (ground arith) v in
    ground (arith, gone, turn_on-Awake env w.cur new c.decon)

-- A new mode out of self refresh, with bypass or without.
refresh_set-Steady :
    (env : Env) (old new : CrtcState) (w : World)
    → w.cur.self_refresh_active ≡ true
    → old.bypass ≡ w.cur.bypass
    → is_awake new ≡ true
    → Steady w
    → Steady
        (record { crtc = atomic_enable env old new (atomic_disable env new w.crtc); cur = new })
unfolding atomic_enable enable_at atomic_disable disable_at
refresh_set-Steady env old new w r b n v =
    let d = leave env new w.crtc.decon in
    ground (arith, leave-asleep env new w.cur.bypass w.crtc.decon, turn_on-Bypassed env old new d)

-- A commit that leaves self refresh for off, or stays in it.
leave_refresh-Steady :
    (env : Env) (new : CrtcState) (w : World)
    → new.active ≡ false
    → new.bypass ≡ false
    → w.cur.active ≡ false
    → w.cur.self_refresh_active ≡ true
    → w.cur.bypass ≡ false
    → Steady w
    → Steady (record { crtc = atomic_disable env new w.crtc; cur = new })
unfolding atomic_disable disable_at
leave_refresh-Steady env new w n q a r b v = ground (arith, leave-hibernation env new w.crtc.decon)

-- A commit to an active state.
activated :
    (env : Env) (enable mode_changed : Bool) (new : CrtcState) (w : World)
    → is_allowed enable w.cur new ≡ true
    → new.active ≡ true
    → Steady w
    → Steady (record { crtc = commit_crtc env enable mode_changed w.cur new w.crtc; cur = new })
unfolding commit_crtc old_state needs_disable
activated env enable mode_changed new w al on v =
    let n : is_awake new ≡ true = ground (arith, al, on) in
    let old : CrtcState = record w.cur { active = true } in
    elim (Bool-cases w.cur.active) [
      | inl a ↦
          let sr : w.cur.self_refresh_active ≡ false = ground (arith, v.single, a) in
          ground (arith, on, a, sr, mode_set-Steady env new w a n v)
      | inr a ↦ elim (Bool-cases (w.cur.self_refresh_active && mode_changed)) [
        | inl m ↦
            ground (arith, on, a, m, refresh_set-Steady env old new w (ground (arith, m)) refl n v)
        | inr m ↦ ground (arith, al, on, a, m, n, enabled-Steady env new w a n v)
      ]
    ]

-- A commit to self refresh, with bypass or without, or to an inactive state.
deactivated :
    (env : Env) (enable mode_changed : Bool) (new : CrtcState) (w : World)
    → is_allowed enable w.cur new ≡ true
    → new.active ≡ false
    → Steady w
    → Steady (record { crtc = commit_crtc env enable mode_changed w.cur new w.crtc; cur = new })
unfolding commit_crtc old_state needs_disable
deactivated env enable mode_changed new w al off v = elim (Bool-cases w.cur.active) [
  | inl a ↦
      let sr : w.cur.self_refresh_active ≡ false = ground (arith, v.single, a) in
      let gone = leave_active env new w a (ground (arith, al)) v in
      ground (arith, al, off, a, sr, gone)
  | inr a ↦ elim (Bool-cases w.cur.self_refresh_active) [
    | inl r ↦
        let rest =
          leave_refresh-Steady env new w off (ground (arith, al, a)) a r (ground (arith, al, off))
            v in
        ground (arith, al, off, a, r, v, rest)
    | inr r ↦ ground (arith, al, off, a, r, v)
  ]
]

pub Step-Steady : {w u : World} → Step w u → Steady w → Steady u
Step-Steady (commit env enable mode_changed new w al) v = elim (Bool-cases new.active) [
  | inl on ↦ activated env enable mode_changed new w al on v
  | inr off ↦ deactivated env enable mode_changed new w al off v
]

-- A controller as decon_probe leaves it: no interrupt is enabled, and its power is held exactly if
-- it shows what the bootloader drew.
pub record Probed (w : World) : Type 0 where
  pub never_on : w.crtc.active_state ≡ inactive
  pub no_commit : (w.cur.active || w.cur.self_refresh_active || w.cur.bypass) ≡ false
  pub fresh :
      ((w.crtc.decon.state ≡ DeconState.init) × Powered false 0 w.crtc.decon)
      ⊎ ((w.crtc.decon.state ≡ DeconState.handover) × Powered false 1 w.crtc.decon)

Probed-Steady : (w : World) → Probed w → Steady w
Probed-Steady w p = ground arith

-- Whatever commits turn a probed controller on, change its mode, also out of self refresh, put it into
-- self refresh with or without bypass, make it inactive or disable it, as DRM and exynos_disable_outputs
-- do it: it is on exactly if the CRTC is active, and in hibernation exactly if the CRTC is in self
-- refresh, which it stays if it is made inactive there while it is enabled; each of its interrupt lines
-- is enabled once while it is on and not else, and was never disabled once too often; it holds one
-- reference to the power while it is on or shows the picture of the bootloader, one in bypass, and none
-- else, and never gave one back that it did not hold.
pub Reach-Steady : {v w : World} → Probed v → Reach v w → Steady w
Reach-Steady {v} p here = Probed-Steady v p
Reach-Steady p (next path step) = Step-Steady step (Reach-Steady p path)
