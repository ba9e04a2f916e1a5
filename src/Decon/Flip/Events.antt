-- ===== src/Decon/Flip/Events.antt =====
-- Every event that a commit hands over is sent once, and soon.
use google_modules_display_s.Prelude.{
  ℕ, ◌+◌, ◌≡◌, refl, Bool, true, false, not, ◌&&◌, ◌||◌, Option, none, some, List, [], ◌∷◌, ◌++◌,
  length, length-append, arith, ◌==◌, if◌then◌else◌, inl, inr, Bool-cases,
}
use google_modules_display_s.Decon.Flip.State.{
  FlipCall, seamless_mode_set, set_color_map, set_cwb_enable, call_if, FlipState, note, send_event,
  send_vblank_event, handle_vblank, arm_event, handle_event,
}
use google_modules_display_s.Decon.Flip.{
  Commit, hand_to_drm, colored, skip_flush, request_update, arm_or_leave, program, frame_flush,
  atomic_flush, check_fs_pending, frame_done, dimming_start, dimming_end, irq_handler,
  te_irq_handler, Wait, give_up, frame_start_timeout, await_frame_start, conclude,
  wait_for_flip_done,
}
use google_modules_display_s.Decon.Flip.Acts.{
  Act, flush, frame_start, irq, te, wait, switch, act, keep, run, handed,
}

-- How often an event is in a list, or is the one given.
unfoldable pub count : ℕ → List ℕ → ℕ
count e [] = 0
count e (x ∷ xs) = (if x == e then 1 else 0) + count e xs

abbrev pub is_event : ℕ → Option ℕ → ℕ
is_event e none = 0
is_event e (some x) = if x == e then 1 else 0

pub count-append : (e : ℕ) (xs ys : List ℕ) → count e (xs ++ ys) ≡ count e xs + count e ys
unfolding count
count-append e [] ys = omega arith
count-append e (x ∷ xs) ys = omega (arith, count-append e xs ys)

-- Where an event is: sent, with DRM for the next vertical blanking, or with the controller.
abbrev pub known : ℕ → FlipState → ℕ
known e s = count e s.sent + count e s.armed + is_event e s.event

-- Each event that is not sent yet holds one reference to vertical blanking.
abbrev pub is_some : Option ℕ → ℕ
is_some none = 0
is_some (some e) = 1

abbrev pub Referenced : FlipState → Type 0
Referenced s = s.vblank_refs ≡ length s.armed + is_some s.event

-- An operation that makes events known, and keeps the references in order.
record Hands (e n : ℕ) (s t : FlipState) : Type 0 where
  counted : known e t ≡ known e s + n
  held : Referenced t

send_at :
    (e : ℕ) (o : Option ℕ) (s : FlipState)
    → s.event ≡ o
    → Referenced s
    → Hands e 0 s (send_event o s) × ((send_event o s).event ≡ none)
unfolding send_event count
send_at e none s h r = ground (arith, h)
send_at e (some x) s h r = ground (arith, h, count-append e s.sent (x ∷ []))

send_event-Hands : (e : ℕ) (s : FlipState) → Referenced s → Hands e 0 s (send_vblank_event s)
send_event-Hands e s r = (send_at e s.event s refl r).0

handle_vblank-Hands : (e : ℕ) (s : FlipState) → Referenced s → Hands e 0 s (handle_vblank s)
unfolding handle_vblank count
handle_vblank-Hands e s r = ground (arith, count-append e s.sent s.armed)

arm_event-Hands :
    (e : ℕ) (o : Option ℕ) (s : FlipState) → Referenced s → Hands e (is_event e o) s (arm_event o s)
unfolding arm_event count
arm_event-Hands e none s r = ground arith
arm_event-Hands e (some x) s r = ground (arith, send_at e s.event s refl r)

handle_event-Hands :
    (e : ℕ) (o : Option ℕ) (s : FlipState)
    → Referenced s
    → Hands e (is_event e o) s (handle_event o s)
unfolding handle_event count
handle_event-Hands e none s r = ground arith
handle_event-Hands e (some x) s r =
    ground (arith, count-append e s.armed (x ∷ []), length-append s.armed (x ∷ []))

-- A flush hands an event over, or leaves it in the CRTC state.
Flushed : ℕ → Option ℕ → FlipState → FlipState × Option ℕ → Type 0
Flushed e o s (t, left) = (known e t + is_event e left ≡ known e s + is_event e o) × Referenced t

hand_to_drm-Hands :
    (e : ℕ) (c : Commit) (s : FlipState)
    → Referenced s
    → Hands e (is_event e c.event) s (hand_to_drm c s)
unfolding hand_to_drm
hand_to_drm-Hands e c s r =
    let h = handle_event-Hands e c.event s r in
    let k = send_event-Hands e (handle_event c.event s) h.held in
    let l = handle_vblank-Hands e (send_vblank_event (handle_event c.event s)) k.held in
    elim (Bool-cases c.handover_rmem) [
      | inl b ↦
          rw (b)
            (record { counted = omega (arith, h.counted, k.counted, l.counted); held = l.held })
      | inr b ↦ rw (b) h
    ]

skip_flush-Flushed :
    (e : ℕ) (c : Commit) (s : FlipState) → Referenced s → Flushed e c.event s (skip_flush c s)
unfolding Flushed skip_flush
skip_flush-Flushed e c s r =
    let s' = note (if c.seamless then seamless_mode_set ∷ [] else []) s in
    let h = hand_to_drm-Hands e c s' r in ground (arith, h)

arm_or_leave-Flushed :
    (e : ℕ) (c : Commit) (s : FlipState) → Referenced s → Flushed e c.event s (arm_or_leave c s)
unfolding Flushed arm_or_leave
arm_or_leave-Flushed e c s r = let h = arm_event-Hands e c.event s r in ground (arith, h)

program-Flushed :
    (e : ℕ) (c : Commit) (cs : List FlipCall) (s : FlipState)
    → Referenced s
    → Flushed e c.event s (program c cs s)
unfolding Flushed program request_update
program-Flushed e c cs s r = arm_or_leave-Flushed e c _ r

colored-Flushed :
    (e : ℕ) (win : Option ℕ) (c : Commit) (s : FlipState)
    → Referenced s
    → Flushed e c.event s (colored win c s)
unfolding Flushed colored
colored-Flushed e none c s r = (refl, r)
colored-Flushed e (some w) c s r = program-Flushed e c (set_color_map w ∷ []) s r

atomic_flush-Flushed :
    (e : ℕ) (c : Commit) (s : FlipState) → Referenced s → Flushed e c.event s (atomic_flush c s)
unfolding Flushed atomic_flush frame_flush
atomic_flush-Flushed e c s r =
    let s' = note (call_if c.wb_cwb (set_cwb_enable true)) s in
    ground (
      arith,
      skip_flush-Flushed e c s r,
      program-Flushed e c [] s' r,
      colored-Flushed e c.win c s' r,
    )

-- The interrupts and the wait make no event known, and lose none.
check_fs_pending-Hands :
    (e : ℕ) (pending : Bool) (s : FlipState)
    → Referenced s
    → Hands e 0 s (check_fs_pending pending s).1
unfolding check_fs_pending
check_fs_pending-Hands e pending s r =
    let s1 : FlipState = record s { frame_transfer_pending = true } in
    let h = send_event-Hands e s1 r in
    let k = handle_vblank-Hands e (send_vblank_event s1) h.held in ground (arith, h, k)

irq_handler-Hands :
    (e : ℕ) (done start end : Bool) (s : FlipState)
    → Referenced s
    → Hands e 0 s (irq_handler done start end s)
unfolding irq_handler frame_done dimming_start dimming_end
irq_handler-Hands e done start end s r = ground arith

te_irq_handler-Hands :
    (e : ℕ) (ignored : Bool) (s : FlipState) → Referenced s → Hands e 0 s (te_irq_handler ignored s)
unfolding te_irq_handler
te_irq_handler-Hands e ignored s r = ground (arith, handle_vblank-Hands e s r)

frame_start_timeout-Hands :
    (e : ℕ) (w : Wait) (s : FlipState) → Referenced s → Hands e 0 s (frame_start_timeout w s)
unfolding frame_start_timeout
frame_start_timeout-Hands e w s r =
    let h = send_event-Hands e (give_up w s) r in record { counted = h.counted; held = h.held }

await_frame_start-Hands :
    (e : ℕ) (w : Wait) (s : FlipState) → Referenced s → Hands e 0 s (await_frame_start w s).1
unfolding await_frame_start
await_frame_start-Hands e w s r =
    let h = check_fs_pending-Hands e w.fs_pending s r in
    let k = frame_start_timeout-Hands e w (check_fs_pending w.fs_pending s).1 h.held in
    ground (arith, h, k)

wait-Hands :
    (e : ℕ) (w : Wait) (s : FlipState) → Referenced s → Hands e 0 s (wait_for_flip_done w s)
unfolding wait_for_flip_done conclude
wait-Hands e w s r = ground (arith, await_frame_start-Hands e w s r)

act-Flushed : (e : ℕ) (a : Act) (s : FlipState) → Referenced s → Flushed e (handed a) s (act a s)
unfolding Flushed act
act-Flushed e (flush c) s r = atomic_flush-Flushed e c s r
act-Flushed e (frame_start pending) s r = ground (arith, check_fs_pending-Hands e pending s r)
act-Flushed e (irq done start end) s r = ground (arith, irq_handler-Hands e done start end s r)
act-Flushed e (te ignored) s r = ground (arith, te_irq_handler-Hands e ignored s r)
act-Flushed e (wait w) s r = ground (arith, wait-Hands e w s r)
act-Flushed e (switch d) s r = ground arith

-- How often a row of acts hands an event over.
unfoldable pub times_handed : ℕ → List Act → ℕ
times_handed e [] = 0
times_handed e (a ∷ rest) = is_event e (handed a) + times_handed e rest

count-keep :
    (e : ℕ) (left : Option ℕ) (es : List ℕ) → count e (keep left es) ≡ is_event e left + count e es
unfolding count
count-keep e none es = omega arith
count-keep e (some x) es = refl

-- A flush that leaves its event in the CRTC state: no frame is to be seen by vertical blanking, the
-- frame goes to writeback alone, or there are neither planes nor a window in one color.
abbrev pub is_none : Option ℕ → Bool
is_none none = true
is_none (some w) = false

abbrev pub leaves_event : Act → Bool
leaves_event (flush c) =
    c.no_vblank || c.wb_none && c.out_wb || not c.skip_update && not c.has_planes && is_none c.win
leaves_event _ = false

act-left : (a : Act) (s : FlipState) → (act a s).1 ≡ (if leaves_event a then handed a else none)
unfolding act atomic_flush skip_flush frame_flush colored program arm_or_leave
act-left (flush c) s = ground arith
act-left (frame_start pending) s = refl
act-left (irq done start end) s = refl
act-left (te ignored) s = refl
act-left (wait w) s = refl
act-left (switch d) s = refl

-- How often a row of acts leaves an event.
unfoldable pub times_left : ℕ → List Act → ℕ
times_left e [] = 0
times_left e (a ∷ rest) = (if leaves_event a then is_event e (handed a) else 0) + times_left e rest

-- Whatever frames are flushed, interrupts come, waits are made and states are entered, in any order:
-- every event is in the end, as often as it was handed over, sent, or waiting for the next vertical
-- blanking or frame start, or left in its CRTC state, where it is exactly as often as a flush had it
-- that shows nothing by vertical blanking, goes to writeback alone, or has neither planes nor a window
-- in one color; and the references to vertical blanking are as many as the events that wait.
pub run-Known :
    (e : ℕ) (acts : List Act) (s : FlipState)
    → Referenced s
    → (known e (run acts s).0 + count e (run acts s).1 ≡ known e s + times_handed e acts)
      × (count e (run acts s).1 ≡ times_left e acts)
      × Referenced (run acts s).0
unfolding run times_handed times_left count Flushed
run-Known e [] s r = (refl, refl, r)
run-Known e (a ∷ rest) s r =
    let f = act-Flushed e a s r in
    let ih = run-Known e rest (act a s).0 f.1 in
    let k = count-keep e (act a s).1 (run rest (act a s).0).1 in
    (omega (arith, f.0, ih.0, k), ground (arith, k, ih.1, act-left a s), ih.2)
