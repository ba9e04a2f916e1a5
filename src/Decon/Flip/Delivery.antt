-- ===== src/Decon/Flip/Delivery.antt =====
-- An event that a frame arms is sent before the wait for the frame returns.
use google_modules_display_s.Prelude.{
  ℕ, ◌<◌, ◌≡◌, refl, ◌≢◌, Bool, true, false, ◌&&◌, Option, none, some, List, [], ◌∷◌, arith, ◌⊎◌,
  inl, inr, Bool-cases,
}
use google_modules_display_s.Decon.Flip.State.{
  FlipCall, seamless_mode_set, set_cwb_enable, call_if, FlipState, note, send_event,
  send_vblank_event, handle_vblank, arm_event, handle_event,
}
use google_modules_display_s.Decon.Flip.{
  Commit, hand_to_drm, colored, skip_flush, request_update, arm_or_leave, program, frame_flush,
  atomic_flush, check_fs_pending, frame_done, dimming_start, dimming_end, irq_handler,
  te_irq_handler, Wait, give_up, frame_start_timeout, await_frame_start, conclude,
  wait_for_flip_done,
}
use google_modules_display_s.Decon.Flip.Acts.{
  Act, flush, frame_start, irq, te, wait, switch, act, run,
}
use google_modules_display_s.Decon.Flip.Events.{count, count-append}

-- An event is with the controller, or sent.
abbrev pub Armed : ℕ → FlipState → Type 0
Armed e s = (s.event ≡ some e) ⊎ (0 < count e s.sent)

sent_at :
    (e : ℕ) (o : Option ℕ) (s : FlipState)
    → (o ≡ some e) ⊎ (0 < count e s.sent)
    → 0 < count e (send_event o s).sent
unfolding send_event count
sent_at e none s h = ground arith
sent_at e (some x) s h = ground (arith, count-append e s.sent (x ∷ []))

send_event-sent : (e : ℕ) (s : FlipState) → Armed e s → 0 < count e (send_vblank_event s).sent
send_event-sent e s h = sent_at e s.event s h

handle_vblank-Armed : (e : ℕ) (s : FlipState) → Armed e s → Armed e (handle_vblank s)
unfolding handle_vblank
handle_vblank-Armed e s h = ground (arith, count-append e s.sent s.armed)

arm_event-Armed : (e : ℕ) (o : Option ℕ) (s : FlipState) → Armed e s → Armed e (arm_event o s)
unfolding arm_event
arm_event-Armed e none s h = h
arm_event-Armed e (some x) s h = inr (send_event-sent e s h)

handle_event-Armed : (e : ℕ) (o : Option ℕ) (s : FlipState) → Armed e s → Armed e (handle_event o s)
unfolding handle_event
handle_event-Armed e none s h = h
handle_event-Armed e (some x) s h = h

hand_to_drm-Armed : (e : ℕ) (c : Commit) (s : FlipState) → Armed e s → Armed e (hand_to_drm c s)
unfolding hand_to_drm
hand_to_drm-Armed e c s h =
    let k = handle_event-Armed e c.event s h in
    let l = send_event-sent e (handle_event c.event s) k in
    elim (Bool-cases c.handover_rmem) [
      | inl b ↦ rw (b) (handle_vblank-Armed e (send_vblank_event (handle_event c.event s)) (inr l))
      | inr b ↦ rw (b) k
    ]

program-Armed :
    (e : ℕ) (c : Commit) (cs : List FlipCall) (s : FlipState)
    → Armed e s
    → Armed e (program c cs s).0
unfolding program request_update arm_or_leave
program-Armed e c cs s h = elim (Bool-cases c.no_vblank) [
  | inl b ↦ rw (b) h
  | inr b ↦ rw (b) (arm_event-Armed e c.event _ h)
]

colored-Armed :
    (e : ℕ) (win : Option ℕ) (c : Commit) (s : FlipState) → Armed e s → Armed e (colored win c s).0
unfolding colored
colored-Armed e none c s h = h
colored-Armed e (some w) c s h = program-Armed e c _ s h

atomic_flush-Armed : (e : ℕ) (c : Commit) (s : FlipState) → Armed e s → Armed e (atomic_flush c s).0
unfolding atomic_flush frame_flush skip_flush
atomic_flush-Armed e c s h =
    let s' = note (call_if c.wb_cwb (set_cwb_enable true)) s in
    let s2 = note (call_if c.seamless seamless_mode_set) s in
    ground
      (arith, hand_to_drm-Armed e c s2 h, program-Armed e c [] s' h, colored-Armed e c.win c s' h)

check_fs_pending-Armed :
    (e : ℕ) (pending : Bool) (s : FlipState) → Armed e s → Armed e (check_fs_pending pending s).1
unfolding check_fs_pending
check_fs_pending-Armed e pending s h =
    let s1 : FlipState = record s { frame_transfer_pending = true } in
    let k = send_event-sent e s1 h in
    let l = handle_vblank-Armed e (send_vblank_event s1) (inr k) in ground (arith, k, l)

-- A frame that is programmed holds its event.
program-event :
    (e : ℕ) (c : Commit) (cs : List FlipCall) (s : FlipState)
    → c.event ≡ some e
    → c.no_vblank ≡ false
    → (program c cs s).0.event ≡ some e
unfolding program arm_or_leave arm_event
program-event e c cs s h b = rw (b, h) refl

-- A frame start that is found sends the event, and a timeout too.
check_fs_pending-sent :
    (e : ℕ) (pending : Bool) (s : FlipState)
    → Armed e s
    → (check_fs_pending pending s).0 ≡ true
    → 0 < count e (check_fs_pending pending s).1.sent
unfolding check_fs_pending handle_vblank
check_fs_pending-sent e pending s h b =
    let s1 : FlipState = record s { frame_transfer_pending = true } in
    let k = send_event-sent e s1 h in
    ground (arith, k, count-append e (send_vblank_event s1).sent (send_vblank_event s1).armed)

frame_start_timeout-sent :
    (e : ℕ) (w : Wait) (s : FlipState) → Armed e s → 0 < count e (frame_start_timeout w s).sent
unfolding frame_start_timeout
frame_start_timeout-sent e w s h = send_event-sent e (give_up w s) h

await_frame_start-sent :
    (e : ℕ) (w : Wait) (s : FlipState)
    → (w.in_time ≡ false) ⊎ (s.event ≡ none)
    → Armed e s
    → 0 < count e (await_frame_start w s).1.sent
unfolding await_frame_start
await_frame_start-sent e w s d h =
    let k = check_fs_pending-Armed e w.fs_pending s h in
    ground (
      arith,
      check_fs_pending-sent e w.fs_pending s h,
      frame_start_timeout-sent e w (check_fs_pending w.fs_pending s).1 k,
    )

-- The wait ends with the event sent, if a flip that is done in time has sent its event.
wait-sends :
    (e : ℕ) (w : Wait) (s : FlipState)
    → (w.active && w.has_commit) ≡ true
    → (w.in_time ≡ false) ⊎ (s.event ≡ none)
    → Armed e s
    → 0 < count e (wait_for_flip_done w s).sent
unfolding wait_for_flip_done conclude
wait-sends e w s a d h = ground (arith, await_frame_start-sent e w s d h)

frame_start_timeout-Armed :
    (e : ℕ) (w : Wait) (s : FlipState) → Armed e s → Armed e (frame_start_timeout w s)
frame_start_timeout-Armed e w s h = inr (frame_start_timeout-sent e w s h)

wait-Armed : (e : ℕ) (w : Wait) (s : FlipState) → Armed e s → Armed e (wait_for_flip_done w s)
unfolding wait_for_flip_done conclude await_frame_start
wait-Armed e w s h =
    let k = check_fs_pending-Armed e w.fs_pending s h in
    ground (arith, k, frame_start_timeout-Armed e w (check_fs_pending w.fs_pending s).1 k)

act-Armed : (e : ℕ) (a : Act) (s : FlipState) → Armed e s → Armed e (act a s).0
unfolding act irq_handler frame_done dimming_start dimming_end te_irq_handler
act-Armed e (flush c) s h = atomic_flush-Armed e c s h
act-Armed e (frame_start pending) s h = check_fs_pending-Armed e pending s h
act-Armed e (irq done start end) s h = ground arith
act-Armed e (te ignored) s h = ground (arith, handle_vblank-Armed e s h)
act-Armed e (wait w) s h = wait-Armed e w s h
act-Armed e (switch d) s h = h

run-Armed : (e : ℕ) (acts : List Act) (s : FlipState) → Armed e s → Armed e (run acts s).0
unfolding run
run-Armed e [] s h = h
run-Armed e (a ∷ rest) s h = run-Armed e rest (act a s).0 (act-Armed e a s h)

-- A commit whose frame is programmed, with an event to be sent.
pub record Programs (e : ℕ) (c : Commit) : Type 0 where
  pub shown : (c.wb_none && c.out_wb) ≡ false
  pub updated : c.skip_update ≡ false
  pub served : (c.has_planes ≡ true) ⊎ (c.win ≢ none)
  pub wanted : c.event ≡ some e
  pub blanking : c.no_vblank ≡ false

colored-event :
    (e : ℕ) (win : Option ℕ) (c : Commit) (s : FlipState)
    → win ≢ none
    → c.event ≡ some e
    → c.no_vblank ≡ false
    → (colored win c s).0.event ≡ some e
unfolding colored
colored-event e none c s n h b = absurd (n refl)
colored-event e (some w) c s n h b = program-event e c _ s h b

flush-Armed : (e : ℕ) (c : Commit) (s : FlipState) → Programs e c → Armed e (atomic_flush c s).0
unfolding atomic_flush frame_flush
flush-Armed e c s p =
    let s' = note (call_if c.wb_cwb (set_cwb_enable true)) s in
    ground (
      arith,
      program-event e c [] s' p.wanted p.blanking,
      λ (n : c.win ≢ none). colored-event e c.win c s' n p.wanted p.blanking,
    )

-- An event that a commit hands over with a frame is sent by the time that the wait for the frame
-- returns, whatever happens in between: after a flush that programs the frame, and any acts, a wait
-- for the active CRTC ends with the event among those sent, whether the hardware starts the frame,
-- starts it late or never, if a flip counts as done in time only with no event pending.
pub flush-wait-Sent :
    (e : ℕ) (c : Commit) (acts : List Act) (w : Wait) (s : FlipState)
    → Programs e c
    → (w.active && w.has_commit) ≡ true
    → (w.in_time ≡ false) ⊎ ((run acts (atomic_flush c s).0).0.event ≡ none)
    → 0 < count e (wait_for_flip_done w (run acts (atomic_flush c s).0).0).sent
flush-wait-Sent e c acts w s p a d =
    wait-sends e w (run acts (atomic_flush c s).0).0 a d
      (run-Armed e acts (atomic_flush c s).0 (flush-Armed e c s p))
