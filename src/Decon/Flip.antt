-- ===== src/Decon/Flip.antt =====
-- exynos_drm_decon.c, from decon_atomic_flush to decon_wait_for_flip_done: the events by which user
-- space learns that its frame is shown, and the interrupts that send them. What DRM does with an
-- event that it is given to send at the next vertical blanking is that of its documentation.
pub mod State
pub mod Acts
pub mod Events
pub mod Delivery
mod Tests
use google_modules_display_s.Prelude.{
  ℕ, suc, ◌+◌, ◌-◌, Bool, true, false, not, ◌&&◌, ◌||◌, Option, none, some, List, [], ◌∷◌, ◌++◌,
  length, if◌then◌else◌,
}
use google_modules_display_s.Hibernation.{DeconState, is_on}
use google_modules_display_s.Decon.Flip.State.{
  FlipCall, set_cwb_enable, set_color_map, set_bpc_and_dither, dqe_update, partial_update,
  seamless_mode_set, wait_earliest_process_time, update_req_cgc, update_req_dqe,
  all_win_shadow_update_req, direct_on, reg_start, video_mode_update_req, set_trigger,
  save_lpd_data, histogram_event, histogram_flip_done, dump_all, trigger_recovery, FlipState, note,
  send_event, send_vblank_event, handle_vblank, arm_event, handle_event, call_if,
}
use google_modules_display_s.Decon.Switch.Balance.{in_hibernation}

-- What a commit asks of the controller; `win` is the window for a frame without planes, if there is
-- one.
pub record Commit : Type 0 where
  pub wb_none : Bool
  pub out_wb : Bool
  pub wb_cwb : Bool
  pub skip_update : Bool
  pub seamless : Bool
  pub no_vblank : Bool
  pub event : Option ℕ
  pub handover_rmem : Bool
  pub has_planes : Bool
  pub win : Option ℕ
  pub updates_dqe : Bool
  pub has_partial : Bool

-- The branch for `skip_update`.
unfoldable pub hand_to_drm : Commit → FlipState → FlipState
hand_to_drm c s =
    let s' = handle_event c.event s in
    if c.handover_rmem then handle_vblank (send_vblank_event s') else s'

unfoldable pub skip_flush : Commit → FlipState → FlipState × Option ℕ
skip_flush c s =
    let s' = note (call_if c.seamless seamless_mode_set) s in
    if c.no_vblank then (s', c.event) else (hand_to_drm c s', none)

-- The registers of a frame, under the lock.
unfoldable pub request_update : FlipState → FlipState
request_update s =
    let calls =
      if s.command_mode
      then call_if s.cgc_need_update update_req_cgc
        ++ call_if s.dqe_need_update update_req_dqe
        ++ (all_win_shadow_update_req ∷ [])
      else direct_on ∷ video_mode_update_req s.cgc_need_update s.dqe_need_update ∷ [] in
    record s {
      calls = s.calls ++ calls ++ (reg_start ∷ []);
      cgc_need_update = false;
      dqe_need_update = false;
      frames_pending = suc s.frames_pending;
    }

unfoldable pub arm_or_leave : Commit → FlipState → FlipState × Option ℕ
arm_or_leave c s = if c.no_vblank then (s, c.event) else (arm_event c.event s, none)

unfoldable pub program : Commit → List FlipCall → FlipState → FlipState × Option ℕ
program c color s =
    let before =
      color
      ++ (set_bpc_and_dither ∷ [])
      ++ call_if c.updates_dqe dqe_update
      ++ call_if c.has_partial partial_update
      ++ call_if c.seamless seamless_mode_set
      ++ (wait_earliest_process_time ∷ []) in
    arm_or_leave c (request_update (note before s))

-- Without planes: a window in one color, if there is one.
unfoldable pub colored : Option ℕ → Commit → FlipState → FlipState × Option ℕ
colored none c s = (s, c.event)
colored (some w) c s = program c (set_color_map w ∷ []) s

unfoldable pub frame_flush : Commit → FlipState → FlipState × Option ℕ
frame_flush c s =
    let s' = note (call_if c.wb_cwb (set_cwb_enable true)) s in
    if c.has_planes then program c [] s' else colored c.win c s'

-- `decon_atomic_flush`, with the event that stays in the CRTC state.
unfoldable pub atomic_flush : Commit → FlipState → FlipState × Option ℕ
atomic_flush c s =
    if c.wb_none && c.out_wb
    then (s, c.event)
    else if c.skip_update
    then skip_flush c s
    else frame_flush c s

-- `decon_check_fs_pending_locked`, where the hardware says whether a frame start is pending.
unfoldable pub check_fs_pending : Bool → FlipState → Bool × FlipState
check_fs_pending pending s =
    let s' = send_vblank_event (record s { frame_transfer_pending = true }) in
    if is_on s.state && pending
    then (true, if s.command_mode then s' else handle_vblank s')
    else (false, s)

-- `decon_irq_handler`, by the bits that are set: the frame is done, dimming begins, dimming ends.
unfoldable pub frame_done : Bool → FlipState → FlipState
frame_done hit s =
    if hit
    then record s {
      frame_transfer_pending = false;
      frames_pending = s.frames_pending - 1;
      calls = s.calls ++ (save_lpd_data ∷ histogram_event ∷ []);
    }
    else s

abbrev pub is_none : Option ℕ → Bool
is_none none = true
is_none (some e) = false

unfoldable pub dimming_start : Bool → FlipState → FlipState
dimming_start hit s =
    if hit
    then record s {
      keep_unmask = true;
      calls = s.calls ++ call_if s.command_mode (set_trigger false);
    }
    else s

unfoldable pub dimming_end : Bool → FlipState → FlipState
dimming_end hit s =
    if hit
    then record s {
      keep_unmask = false;
      calls = s.calls ++ call_if (is_none s.event && s.command_mode) (set_trigger true);
    }
    else s

unfoldable pub irq_handler : Bool → Bool → Bool → FlipState → FlipState
irq_handler done start end s =
    if is_on s.state then dimming_end end (dimming_start start (frame_done done s)) else s

-- `decon_te_irq_handler`; `ignored` is a TE signal that is forced on and low.
unfoldable pub te_irq_handler : Bool → FlipState → FlipState
te_irq_handler ignored s =
    if (is_on s.state || in_hibernation s.state) && not ignored && s.command_mode
    then handle_vblank s
    else s

-- What `decon_wait_for_flip_done` finds.
pub record Wait : Type 0 where
  pub active : Bool
  pub has_commit : Bool
  pub in_time : Bool
  pub fs_pending : Bool
  pub recovering : Bool
  pub out_dp : Bool
  pub wb_cwb : Bool
  pub has_dqe : Bool

abbrev pub give_up : Wait → FlipState → FlipState
give_up w s = record s {
  frames_pending = 0;
  frame_transfer_pending = false;
  calls = s.calls ++ call_if (not w.recovering) dump_all;
}

-- The frame start did not come; `decon_force_vblank_event` sends the event.
unfoldable pub frame_start_timeout : Wait → FlipState → FlipState
frame_start_timeout w s =
    note (call_if (not w.recovering && not w.out_dp) trigger_recovery)
      (send_vblank_event (give_up w s))

-- Whether a frame start came, and the state.
unfoldable pub await_frame_start : Wait → FlipState → Bool × FlipState
await_frame_start w s =
    let (came, s') = check_fs_pending w.fs_pending s in
    let waited = if came then (true, s') else (false, frame_start_timeout w s') in
    if w.in_time then (true, s) else waited

unfoldable pub conclude : Wait → Bool → FlipState → FlipState
conclude w came s =
    note
      (call_if (s.command_mode && not s.keep_unmask) (set_trigger true)
        ++ call_if w.wb_cwb (set_cwb_enable false)
        ++ call_if (came && w.has_dqe) histogram_flip_done)
      s

-- `decon_wait_for_flip_done`
unfoldable pub wait_for_flip_done : Wait → FlipState → FlipState
wait_for_flip_done w s =
    let (came, s') = await_frame_start w s in
    if w.active && w.has_commit then conclude w came s' else s
