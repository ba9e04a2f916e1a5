-- ===== src/Hibernation/SelfRefresh.antt =====
-- exynos_crtc_self_refresh_update of exynos_drm_hibernation.c: one atomic commit that turns self
-- refresh on or off, tried again after a deadlock. What DRM answers is an argument.
pub mod Retry
use google_modules_display_s.Prelude.{
  Bool, true, false, not, ◌&&◌, List, [], ◌∷◌, Option, none, some, if◌then◌else◌, Errno, Ret, is_ok,
  is_edeadlk,
}

-- `enum decon_state`.
pub data DeconState : Type 0 where
  off init on hibernation handover : DeconState

-- The fields of `struct decon_device` that hibernation reads. `dqe` is `none` without a DQE, and
-- says otherwise whether its dimming is in progress.
pub record Decon : Type 0 where
  pub state : DeconState
  pub command_mode : Bool
  pub dqe : Option Bool

-- What the calls of one try return; `backoff` is for the last try, where it is an error.
pub record Try : Type 0 where
  pub crtc_state : Ret
  pub crtc_enable : Bool
  pub crtc_active : Bool
  pub add_connectors : Ret
  pub self_refresh_aware : List Bool
  pub commit : Ret
  pub backoff : Errno

-- `drm_modeset_backoff` returns 0 after every try but the last, so a row of tries is finite.
pub data Tries : Type 0 where
  last : Try → Tries
  retry : Try → Tries → Tries

-- `committed enable nonblock` is what a commit that was accepted makes of the display.
pub record Drm : Type 0 where
  pub memory : Bool
  pub tries : Tries
  pub committed : Bool → Bool → Decon → Decon

abbrev pub all_aware : List Bool → Bool
all_aware [] = true
all_aware (a ∷ rest) = a && all_aware rest

abbrev same : Bool → Bool → Bool
same true b = b
same false b = not b

-- One try: its return value, and whether the commit was accepted.
pub attempt : Bool → Try → Ret × Bool
attempt enable t = elim t.crtc_state [
  | some e ↦ (some e, false)
  | none ↦
      if t.crtc_enable
      then if same t.crtc_active (not enable) then (none, false) else elim t.add_connectors [
        | some e ↦ (some e, false)
        | none ↦
            if all_aware t.self_refresh_aware then (t.commit, is_ok t.commit) else (none, false)
      ]
      else (some Errno.enotconn, false)
]

pub update_loop : Bool → Tries → Ret × Bool
unfolding attempt
update_loop enable (last t) =
    let (ret, done) = attempt enable t in
    if is_edeadlk ret then (some t.backoff, false) else (ret, done)
update_loop enable (retry t ts) =
    let rest = update_loop enable ts in
    let (ret, done) = attempt enable t in if is_edeadlk ret then rest else (ret, done)

unfoldable pub self_refresh_update : Drm → Bool → Bool → Decon → Decon × Ret
unfolding update_loop
self_refresh_update env enable nonblock d =
    if env.memory
    then (let (ret, done) = update_loop enable env.tries in
        (if done then env.committed enable nonblock d else d, ret))
    else (d, some Errno.enomem)
