-- ===== src/Dqe/Acts.antt =====
-- The life of the histogram channels, as a row of calls.
use google_modules_display_s.Prelude.{ℕ, Bool, Option, none, some, List, [], ◌∷◌}
use google_modules_display_s.Dqe.State.{ChanConfig, Dqe, Bins}
use google_modules_display_s.Dqe.{
  Code, ok, ebusy, Lookup, channel_request, event_request, channel_cancel, event_cancel,
  handle_histogram_event, flip_done,
}
use google_modules_display_s.Dqe.Config.{dqe_update, hibernation_enter, dqe_reset}

-- The ioctls of the clients, the interrupt of a frame that is done, the flip, an update, hibernation,
-- and a reset.
pub data Act : Type 0 where
  ask_channel ask_context : Lookup → Bins → ℕ → ℕ → Act
  cancel_channel cancel_context : Lookup → ℕ → Act
  frame_done : Bins → Bool → Act
  flip : (ℕ → ℕ) → Act
  update : Bool → (ℕ → Option ChanConfig) → Act
  hibernate : Bins → Bool → Act
  reset : Act

unfoldable pub act : Act → Dqe → Dqe × Code
act (ask_channel l hw event hist_id) d = channel_request l hw event hist_id d
act (ask_context l hw event user_handle) d = event_request l hw event user_handle d
act (cancel_channel l hist_id) d = channel_cancel l hist_id d
act (cancel_context l user_handle) d = event_cancel l user_handle d
act (frame_done hw last) d = (handle_histogram_event hw last d, ok)
act (flip blobs) d = (flip_done blobs d, ok)
act (update enabled configs) d = (dqe_update enabled configs d, ok)
act (hibernate hw decon_idle) d = (hibernation_enter hw decon_idle d, ok)
act reset d = (dqe_reset d, ok)

unfoldable pub run : List Act → Dqe → Dqe
unfolding act
run [] d = d
run (a ∷ rest) d = run rest (act a d).0

-- The event that a call makes, which it does unless it fails before.
abbrev pub if_made : ℕ → Code → Option ℕ
if_made event ok = some event
if_made event ebusy = some event
if_made event _ = none

abbrev pub made : Act → Code → Option ℕ
made (ask_channel l hw event hist_id) c = if_made event c
made (ask_context l hw event user_handle) c = if_made event c
made _ c = none
