-- ===== src/Decon/Flip/Tests.antt =====
-- A frame with an event that is flushed, another after it, and an interrupt in between.
use google_modules_display_s.Prelude.{
  ℕ, ◌+◌, ◌<◌, ◌≡◌, refl, true, false, none, some, List, [], ◌∷◌, inl,
}
use google_modules_display_s.Hibernation.{DeconState}
use google_modules_display_s.Decon.Flip.State.{
  FlipState, send_event, handle_vblank, arm_event, handle_event,
}
use google_modules_display_s.Decon.Flip.{
  Commit, Wait, hand_to_drm, atomic_flush, skip_flush, frame_flush, program, request_update,
  arm_or_leave, wait_for_flip_done, await_frame_start, frame_start_timeout, check_fs_pending,
  conclude, irq_handler, frame_done, dimming_start, dimming_end, te_irq_handler,
}
use google_modules_display_s.Decon.Flip.Acts.{Act, flush, irq, te, act, run}
use google_modules_display_s.Decon.Flip.Events.{
  count, known, times_handed, times_left, Referenced, run-Known,
}
use google_modules_display_s.Decon.Flip.Delivery.{Programs, flush-wait-Sent}

abbrev start : FlipState
start = record {
  state = DeconState.on;
  command_mode = true;
  event = none;
  vblank_refs = 0;
  armed = [];
  sent = [];
  frames_pending = 0;
  frame_transfer_pending = false;
  keep_unmask = false;
  cgc_need_update = false;
  dqe_need_update = true;
  calls = [];
}

abbrev frame : ℕ → Commit
frame e = record {
  wb_none = true;
  out_wb = false;
  wb_cwb = false;
  skip_update = false;
  seamless = false;
  no_vblank = false;
  event = some e;
  handover_rmem = false;
  has_planes = true;
  win = none;
  updates_dqe = true;
  has_partial = true;
}

abbrev late : Wait
late = record {
  active = true;
  has_commit = true;
  in_time = false;
  fs_pending = false;
  recovering = false;
  out_dp = false;
  wb_cwb = false;
  has_dqe = true;
}

abbrev acts : List Act
acts =
    flush (frame 7)
    ∷ irq true false false
    ∷ flush (record (frame 8) { skip_update = true })
    ∷ te false
    ∷ []

-- The timeout sends the event 7, and the TE signal the event 8.
outcome : (wait_for_flip_done late (run acts start).0).sent ≡ 8 ∷ 7 ∷ []
unfolding hand_to_drm run act atomic_flush skip_flush frame_flush program request_update
    arm_or_leave arm_event handle_event handle_vblank send_event wait_for_flip_done
    await_frame_start frame_start_timeout check_fs_pending conclude irq_handler frame_done
    dimming_start dimming_end te_irq_handler
outcome = refl

start-Referenced : Referenced start
start-Referenced = refl

run-Known_example :
    (known 7 (run acts start).0 + count 7 (run acts start).1 ≡ known 7 start + times_handed 7 acts)
    × (count 7 (run acts start).1 ≡ times_left 7 acts)
    × Referenced (run acts start).0
run-Known_example = run-Known 7 acts start start-Referenced

frame-Programs : Programs 7 (frame 7)
frame-Programs = record {
  shown = refl;
  updated = refl;
  served = inl refl;
  wanted = refl;
  blanking = refl;
}

flush-wait-Sent_example :
    0 < count 7 (wait_for_flip_done late (run acts (atomic_flush (frame 7) start).0).0).sent
flush-wait-Sent_example = flush-wait-Sent 7 (frame 7) acts late start frame-Programs refl (inl refl)
