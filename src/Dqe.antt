-- ===== src/Dqe.antt =====
-- exynos_drm_dqe.c, the histogram channels: the requests of clients, the end of a frame and
-- the flip.
pub mod State
pub mod Config
pub mod Acts
pub mod Accounts
pub mod Frames
pub mod Waiting
pub mod Served
pub mod Cache
pub mod Frozen
pub mod Gray
mod Tests
use google_modules_display_s.Prelude.{
  ℕ, zero, suc, ◌+◌, ◌*◌, ◌/◌, Bool, true, false, not, ◌&&◌, ◌||◌, Option, none, some, List, [],
  ◌∷◌, ◌++◌, ltb, ◌==◌, if◌then◌else◌, u32,
}
use google_modules_display_s.Dqe.State.{
  histogram_max, histogram_chan_lhbm, HistState, hist_off, hist_full, hist_roi, blocked_full,
  blocked_roi, RunState, disabled, hibernation, pending_framedone, idle, ChanConfig, Chan, Ask,
  channel, context, EventNode, Dqe, Bins, put_chan, set_run_state, emit, release, collect_bins,
  is_for, find_event_node, for_each,
}

-- What an ioctl returns, and what it finds: the CRTC, its DQE, and room for an event.
pub data Code : Type 0 where
  ok einval enoent enodev enomem ebusy : Code

pub record Lookup : Type 0 where
  pub crtc : Bool
  pub dqe : Bool
  pub room : Bool

unfoldable pub process_arg : Lookup → Code
process_arg l = if not l.crtc then enoent else if not l.dqe then enodev else ok

unfoldable pub channel_process_arg : Lookup → ℕ → Code
unfolding process_arg
channel_process_arg l hist_id = if ltb hist_id histogram_max then process_arg l else einval

-- An event is added to the list; where the channel is idle or in hibernation it is sent at once.
unfoldable pub add_event : Bins → Option ℕ → EventNode → Dqe → Dqe
unfolding emit collect_bins
add_event hw none e d = record d { hist_pending_events = d.hist_pending_events ++ (e ∷ []) }
add_event hw (some id) e d = elim (d.hist_chan id).run_state [
  | hibernation ↦ emit id (d.hist_chan id).bins e d
  | idle ↦ emit id (hw id) e (collect_bins hw id d)
  | _ ↦ record d { hist_pending_events = d.hist_pending_events ++ (e ∷ []) }
]

-- One observer is allowed at a time.
unfoldable pub register : Bins → Option ℕ → ℕ → ℕ → EventNode → Dqe → Dqe × Code
unfolding find_event_node release add_event
register hw chan hist_id user_handle e d =
    elim (find_event_node hist_id user_handle d.hist_pending_events) [
      | some found ↦ (release e d, ebusy)
      | none ↦ (add_event hw chan e d, ok)
    ]

-- `histogram_channel_request_ioctl`
unfoldable pub channel_request : Lookup → Bins → ℕ → ℕ → Dqe → Dqe × Code
unfolding channel_process_arg register
channel_request l hw event hist_id d = elim (channel_process_arg l hist_id) [
  | ok ↦
      if l.room
      then register hw (some hist_id) hist_id 0 (record { event = event; ask = channel hist_id }) d
      else (d, enomem)
  | c ↦ (d, c)
]

-- The first channel that runs a configuration.
unfoldable pub running_from : (ℕ → Chan) → ℕ → ℕ → ℕ → Option ℕ
running_from chans user_handle zero id = none
running_from chans user_handle (suc left) id =
    let rest = running_from chans user_handle left (suc id) in
    if (chans id).user_handle == user_handle then some id else rest

-- `histogram_event_request_ioctl`
unfoldable pub event_request : Lookup → Bins → ℕ → ℕ → Dqe → Dqe × Code
unfolding process_arg register running_from
event_request l hw event user_handle d = elim (process_arg l) [
  | ok ↦
      if user_handle == 0
      then (d, einval)
      else if l.room
      then register hw (running_from d.hist_chan user_handle histogram_max 0) histogram_max
          user_handle (record { event = event; ask = context user_handle }) d
      else (d, enomem)
  | c ↦ (d, c)
]

unfoldable pub cancel : ℕ → ℕ → Dqe → Dqe
unfolding find_event_node release
cancel hist_id user_handle d = elim (find_event_node hist_id user_handle d.hist_pending_events) [
  | none ↦ d
  | some (e, es) ↦ release e (record d { hist_pending_events = es })
]

-- `histogram_channel_cancel_ioctl`
unfoldable pub channel_cancel : Lookup → ℕ → Dqe → Dqe × Code
unfolding channel_process_arg cancel
channel_cancel l hist_id d = elim (channel_process_arg l hist_id) [
  | ok ↦ (cancel hist_id 0 d, ok)
  | c ↦ (d, c)
]

-- `histogram_event_cancel_ioctl`, which clears all events for the handle 0.
unfoldable pub clear_all : List EventNode → Dqe → Dqe
unfolding release
clear_all [] d = d
clear_all (e ∷ es) d = clear_all es (release e (record d { hist_pending_events = es }))

unfoldable pub event_cancel : Lookup → ℕ → Dqe → Dqe × Code
unfolding process_arg clear_all cancel
event_cancel l user_handle d = elim (process_arg l) [
  | ok ↦
      if user_handle == 0
      then (clear_all d.hist_pending_events d, ok)
      else (cancel histogram_max user_handle d, ok)
  | c ↦ (d, c)
]

-- `exynos_lhbm_histogram_callback`: the sums over the bins, in 32 bits, and their mean.
unfoldable pub lhbm_sums : ℕ → ℕ → ℕ → List ℕ → ℕ × ℕ
lhbm_sums i sum weighted_sum [] = (sum, weighted_sum)
lhbm_sums i sum weighted_sum (x ∷ xs) =
    lhbm_sums (suc i) (u32 (sum + x)) (u32 (weighted_sum + u32 (x * i))) xs

unfoldable pub lhbm_callback : ℕ → List ℕ → Dqe → Dqe
unfolding lhbm_sums
lhbm_callback hist_id bins d =
    let (sum, weighted_sum) = lhbm_sums 0 0 0 bins in
    if not (hist_id == histogram_chan_lhbm) || sum == 0
    then d
    else record d { lhbm_gray_level = weighted_sum / sum }

unfoldable pub call_back : ℕ → Dqe → Dqe
unfolding lhbm_callback
call_back id d = if (d.hist_chan id).cb then lhbm_callback id (d.hist_chan id).bins d else d

-- `histogram_chan_handle_event_locked`
unfoldable pub handle_event : Bins → Bool → ℕ → Dqe → Dqe
unfolding find_event_node collect_bins emit call_back
handle_event hw force_collect id d =
    elim (find_event_node id (d.hist_chan id).user_handle d.hist_pending_events) [
      | none ↦
          if (d.hist_chan id).cb || force_collect then call_back id (collect_bins hw id d) else d
      | some (e, es) ↦
          call_back id
            (emit id (hw id) e (record (collect_bins hw id d) { hist_pending_events = es }))
    ]

abbrev pub is_disabled : RunState → Bool
is_disabled disabled = true
is_disabled _ = false

abbrev pub is_off : HistState → Bool
is_off hist_off = true
is_off _ = false

-- `handle_histogram_event`; `last` is whether no frame is pending outside the video mode.
unfoldable pub frame_done_at : Bins → Bool → ℕ → Dqe → Dqe
unfolding handle_event set_run_state
frame_done_at hw last id d =
    if is_disabled (d.hist_chan id).run_state
    then d
    else set_run_state id (if last then idle else pending_framedone) (handle_event hw false id d)

unfoldable pub handle_histogram_event : Bins → Bool → Dqe → Dqe
unfolding frame_done_at for_each
handle_histogram_event hw last d = for_each (frame_done_at hw last) histogram_max 0 d

-- `histogram_flip_done`, with the blob of each channel, 0 for none.
unfoldable pub flipped : ℕ → Chan → Chan
flipped blob c =
    let r =
      if not (is_off c.state)
      then pending_framedone
      else elim c.run_state [ hibernation ↦ hibernation | _ ↦ disabled ] in
    record c { run_state = r; user_handle = blob }

unfoldable pub flip_done : (ℕ → ℕ) → Dqe → Dqe
unfolding flipped
flip_done blobs d = record d { hist_chan = λ id. flipped (blobs id) (d.hist_chan id) }
