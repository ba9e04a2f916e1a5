-- ===== src/Panel/LocalHbm.antt =====
-- panel/panel-samsung-drv.c: the local high brightness mode (LHBM), the timeout that turns it off, and
-- the work that makes it effective. To cancel that work the driver lets go of its lock for a while.
pub mod Updates
pub mod Timeout
mod Tests
use google_modules_display_s.Prelude.{
  ℕ, zero, suc, ◌-◌, Bool, true, false, not, ◌&&◌, ◌||◌, Option, none, some, List, [], ◌∷◌, ◌++◌,
  ltb, ◌==◌, if◌then◌else◌,
}

-- `enum local_hbm_enable_state`
pub data EnableState : Type 0 where
  disabled enabled enabling : EnableState

-- The part of the panel's description that is about LHBM, with `peak_vrefresh` of the panel.
pub record LhbmDesc : Type 0 where
  pub has_set_local_hbm_mode : Bool
  pub has_set_local_hbm_mode_post : Bool
  pub effective_delay_frames : ℕ
  pub post_cmd_delay_frames : ℕ
  pub no_rr_constraints : Bool
  pub peak_vrefresh : ℕ
  pub post_work_disabled : Bool

pub data LhbmCall : Type 0 where
  set_local_hbm_mode : EnableState → LhbmCall
  set_local_hbm_mode_post : LhbmCall

-- `struct local_hbm`, with the refresh rate of the current mode. `timeout_queued` and `post_queued`
-- say whether the works are queued.
pub record LocalHbm : Type 0 where
  pub requested : Bool
  pub effective : EnableState
  pub timeout_queued : Bool
  pub post_queued : Bool
  pub current_mode : Option ℕ
  pub calls : List LhbmCall

abbrev pub is_disabled : EnableState → Bool
is_disabled disabled = true
is_disabled _ = false

-- `is_local_hbm_post_enabling_supported`
abbrev pub is_post_supported : LhbmDesc → Bool
is_post_supported d =
    not d.post_work_disabled
    && (ltb 0 d.effective_delay_frames
        || (ltb 0 d.post_cmd_delay_frames && d.has_set_local_hbm_mode_post))

-- The refusal of a rate that is not the highest.
unfoldable pub is_wrong_rate : LhbmDesc → Bool → Option ℕ → Bool
is_wrong_rate d requested none = true
is_wrong_rate d requested (some vrefresh) =
    requested
    && not d.no_rr_constraints
    && ltb 0 d.peak_vrefresh
    && not (vrefresh == d.peak_vrefresh)

-- Whether `panel_update_local_hbm_notimeout_locked` returns false.
unfoldable pub refuses : LhbmDesc → LocalHbm → Bool
refuses d s =
    let is_on = not (is_disabled s.effective) in
    not d.has_set_local_hbm_mode
    || (if is_on then s.requested else not s.requested)
    || is_wrong_rate d s.requested s.current_mode

abbrev pub goal : LhbmDesc → Bool → EnableState
goal d requested = if requested then if is_post_supported d then enabling else enabled else disabled

-- The end of `panel_update_local_hbm_notimeout_locked`.
unfoldable pub settle : LhbmDesc → LocalHbm → LocalHbm
settle d s = record s {
  effective = goal d s.requested;
  calls = s.calls ++ (set_local_hbm_mode (goal d s.requested) ∷ []);
}

-- How far the function gets under its lock: it refuses, it is done, or it waits for the work.
pub data Progress : Type 0 where
  refused : Progress
  done : LocalHbm → Progress
  waits : Progress

unfoldable pub update_notimeout : LhbmDesc → LocalHbm → Progress
update_notimeout d s =
    if refuses d s
    then refused
    else if not (is_post_supported d)
    then done (settle d s)
    else if s.requested
    then done (settle d (record s { post_queued = true }))
    else waits

-- The callers of the function, and how many of them wait; `restores` says that the one that waits is
-- `_exynos_panel_disable_normal_feat_locked`. `firing` is a timeout that waits for the lock.
pub record Panel : Type 0 where
  pub hbm : LocalHbm
  pub waiting : ℕ
  pub restores : Bool
  pub firing : Bool

unfoldable pub proceed : LocalHbm → Progress → Panel → Panel
proceed s refused p = record p { hbm = s }
proceed s (done t) p = record p { hbm = t }
proceed s waits p = record p { hbm = s; waiting = suc p.waiting }

unfoldable pub arm_if_done : LocalHbm → Progress → LocalHbm
arm_if_done s refused = s
arm_if_done s (done t) = record t { timeout_queued = true }
arm_if_done s waits = s

-- `panel_update_local_hbm_locked`
unfoldable pub turn_on : LhbmDesc → LocalHbm → LocalHbm
turn_on d s =
    if is_disabled s.effective
    then arm_if_done s (update_notimeout d s)
    else record s { timeout_queued = true }

unfoldable pub update_local_hbm : LhbmDesc → Panel → Panel
update_local_hbm d p =
    let s = p.hbm in
    let off : LocalHbm = record s { timeout_queued = false } in
    if s.requested then record p { hbm = turn_on d s } else proceed off (update_notimeout d off) p

-- A request, as `local_hbm_mode_store` and exynos_panel_commit_properties make it.
abbrev pub request : LhbmDesc → Bool → Panel → Panel
request d on p = update_local_hbm d (record p { hbm = record p.hbm { requested = on } })

-- The work that waited is cancelled, and the function goes on.
unfoldable pub resume : LhbmDesc → Panel → Panel
resume d p =
    let t = settle d (record p.hbm { post_queued = false }) in
    record p {
      hbm = if p.restores then record t { requested = true } else t;
      waiting = p.waiting - 1;
      restores = false;
    }

-- The timeout is over, and then `local_hbm_timeout_work` gets the lock.
abbrev pub expire : Panel → Panel
expire p = record p { hbm = record p.hbm { timeout_queued = false }; firing = true }

unfoldable pub timeout_work : LhbmDesc → Panel → Panel
timeout_work d p =
    let off : LocalHbm = record p.hbm { requested = false } in
    proceed off (update_notimeout d off) (record p { firing = false })

-- The part about LHBM of `_exynos_panel_disable_normal_feat_locked`: what was on is requested again.
unfoldable pub restore : Bool → Panel → Panel
restore will_wait p =
    if will_wait
    then record p { restores = true }
    else record p { hbm = record p.hbm { requested = true } }

unfoldable pub disable_feat : LhbmDesc → Panel → Panel
disable_feat d p =
    let q = request d false p in
    if not (is_disabled p.hbm.effective) && d.has_set_local_hbm_mode
    then restore (ltb p.waiting q.waiting) q
    else p

-- What `local_hbm_post_work` does after its waits.
unfoldable pub post_work : LhbmDesc → LocalHbm → LocalHbm
post_work d s =
    let sends = ltb 0 d.post_cmd_delay_frames && d.has_set_local_hbm_mode_post in
    record s {
      post_queued = false;
      effective = if ltb 0 d.effective_delay_frames then effect s.effective else s.effective;
      calls = s.calls ++ (if sends then set_local_hbm_mode_post ∷ [] else []);
    }
  where
    effect : EnableState → EnableState
    effect disabled = disabled
    effect _ = enabled
