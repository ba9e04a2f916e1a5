-- ===== src/Decon/Flip/State.antt =====
-- What a frame changes of the display controller of exynos_drm_decon.c, and its events.
use google_modules_display_s.Prelude.{
  ℕ, suc, ◌-◌, Bool, Option, none, some, List, [], ◌∷◌, ◌++◌, length, if◌then◌else◌,
}
use google_modules_display_s.Hibernation.{DeconState}

-- Calls of the register layer and of the other parts of the display.
pub data FlipCall : Type 0 where
  set_cwb_enable : Bool → FlipCall
  set_color_map : ℕ → FlipCall
  set_bpc_and_dither dqe_update partial_update seamless_mode_set : FlipCall
  wait_earliest_process_time update_req_cgc update_req_dqe : FlipCall
  all_win_shadow_update_req direct_on reg_start : FlipCall
  video_mode_update_req : Bool → Bool → FlipCall
  set_trigger : Bool → FlipCall
  save_lpd_data histogram_event histogram_flip_done dump_all trigger_recovery : FlipCall

-- The part of `struct decon_device` that a frame goes through. An event is known by a number; `sent`
-- and `armed` are those that DRM has sent, and is to send at the next vertical blanking, and
-- `vblank_refs` the references to vertical blanking that they hold.
pub record FlipState : Type 0 where
  pub state : DeconState
  pub command_mode : Bool
  pub event : Option ℕ
  pub vblank_refs : ℕ
  pub armed : List ℕ
  pub sent : List ℕ
  pub frames_pending : ℕ
  pub frame_transfer_pending : Bool
  pub keep_unmask : Bool
  pub cgc_need_update : Bool
  pub dqe_need_update : Bool
  pub calls : List FlipCall

abbrev pub note : List FlipCall → FlipState → FlipState
note cs s = record s { calls = s.calls ++ cs }

-- `decon_send_vblank_event_locked`
unfoldable pub send_event : Option ℕ → FlipState → FlipState
send_event none s = s
send_event (some e) s = record s {
  sent = s.sent ++ (e ∷ []);
  vblank_refs = s.vblank_refs - 1;
  event = none;
}

abbrev pub send_vblank_event : FlipState → FlipState
send_vblank_event s = send_event s.event s

-- `drm_crtc_handle_vblank`
unfoldable pub handle_vblank : FlipState → FlipState
handle_vblank s = record s {
  sent = s.sent ++ s.armed;
  vblank_refs = s.vblank_refs - length s.armed;
  armed = [];
}

-- `decon_arm_event_locked`, for the event of the new CRTC state.
unfoldable pub arm_event : Option ℕ → FlipState → FlipState
arm_event none s = s
arm_event (some e) s =
    let s' = send_vblank_event s in record s' { vblank_refs = suc s'.vblank_refs; event = some e }

-- `exynos_crtc_handle_event`
unfoldable pub handle_event : Option ℕ → FlipState → FlipState
handle_event none s = s
handle_event (some e) s = record s { vblank_refs = suc s.vblank_refs; armed = s.armed ++ (e ∷ []) }

abbrev pub call_if : Bool → FlipCall → List FlipCall
call_if b c = if b then c ∷ [] else []
