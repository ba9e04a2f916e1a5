-- ===== src/Dqe/Served.antt =====
-- Requests for channels are answered as soon as their bins can be had.
use google_modules_display_s.Prelude.{
  ℕ, ◌≤◌, ◌≡◌, refl, Bool, true, false, Option, List, [], ◌∷◌, arith, if◌then◌else◌, inl,
}
use google_modules_display_s.Dqe.State.{histogram_max, ChanConfig, Dqe, put_chan}
use google_modules_display_s.Dqe.{
  channel_cancel, event_cancel, frame_done_at, handle_histogram_event, flipped, flip_done,
}
use google_modules_display_s.Dqe.Config.{
  hibernate_at, hibernation_enter, channel_update, lhbm_update, histogram_update, dqe_update,
  reset_chan, dqe_reset,
}
use google_modules_display_s.Dqe.Acts.{
  Act, ask_channel, ask_context, cancel_channel, cancel_context, frame_done, flip, update,
  hibernate, reset, act, run,
}
use google_modules_display_s.Dqe.Accounts.{for_each-keeps}
use google_modules_display_s.Dqe.Frames.{matching}
use google_modules_display_s.Dqe.Waiting.{
  rests, Calm, Fewer-Calm, cancel-Fewer, clear_all-Fewer, frame_done_at-Calm, hibernate_at-Calm,
  channel_request-Calm,
}

flip-Calm : (blobs : ℕ → ℕ) (d : Dqe) → Calm d → Calm (flip_done blobs d)
unfolding flip_done flipped
flip-Calm blobs d c =
    Fewer-Calm
      (record {
        contexts_fewer = omega arith;
        events_fewer = λ j. omega arith;
        at_rest = λ j r. inl (ground (arith, r));
      })
      c

update-Calm :
    (enabled : Bool) (configs : ℕ → Option ChanConfig) (d : Dqe)
    → Calm d
    → Calm (dqe_update enabled configs d)
unfolding dqe_update histogram_update lhbm_update put_chan channel_update
update-Calm enabled configs d c =
    Fewer-Calm
      (record {
        contexts_fewer = ground arith;
        events_fewer = λ j. ground arith;
        at_rest = λ j r. inl (ground (arith, r));
      })
      c

reset-Calm : (d : Dqe) → Calm d → Calm (dqe_reset d)
unfolding dqe_reset reset_chan
reset-Calm d c =
    Fewer-Calm
      (record {
        contexts_fewer = omega arith;
        events_fewer = λ j. omega arith;
        at_rest = λ j r. inl (ground (arith, r));
      })
      c

-- No call asks for the channel of a configuration.
abbrev pub only_channels : List Act → Bool
only_channels [] = true
only_channels (ask_context l hw x h ∷ rest) = false
only_channels (_ ∷ rest) = only_channels rest

act-Calm :
    (a : Act) (rest : List Act) (d : Dqe)
    → only_channels (a ∷ rest) ≡ true
    → Calm d
    → Calm (act a d).0
unfolding act channel_cancel event_cancel handle_histogram_event hibernation_enter
act-Calm (ask_channel l hw x i) rest d o c = channel_request-Calm l hw x i d c
act-Calm (ask_context l hw x h) rest d o c = ground (arith, o)
act-Calm (cancel_channel l i) rest d o c = ground (arith, c, Fewer-Calm (cancel-Fewer i 0 d) c)
act-Calm (cancel_context l h) rest d o c = ground (
  arith,
  c,
  Fewer-Calm (cancel-Fewer histogram_max h d) c,
  Fewer-Calm (clear_all-Fewer d.hist_pending_events d refl) c,
)
act-Calm (frame_done hw last) rest d o c =
    for_each-keeps Calm (frame_done_at hw last) (frame_done_at-Calm hw last) histogram_max 0 d c
act-Calm (flip blobs) rest d o c = flip-Calm blobs d c
act-Calm (update enabled configs) rest d o c = update-Calm enabled configs d c
act-Calm (hibernate hw decon_idle) rest d o c =
    let all =
      for_each-keeps Calm (hibernate_at hw decon_idle) (hibernate_at-Calm hw decon_idle)
        histogram_max 0 d c in
    ground (arith, c, all)
act-Calm reset rest d o c = reset-Calm d c

only_channels-rest :
    (a : Act) (rest : List Act) → only_channels (a ∷ rest) ≡ true → only_channels rest ≡ true
only_channels-rest a rest o = ground (arith, o)

run-Calm : (acts : List Act) (d : Dqe) → only_channels acts ≡ true → Calm d → Calm (run acts d)
unfolding run
run-Calm [] d o c = c
run-Calm (a ∷ rest) d o c =
    run-Calm rest (act a d).0 (only_channels-rest a rest o) (act-Calm a rest d o c)

-- From a state in which no event waits, whatever channels are asked for, requests are cancelled,
-- frames end, flips, updates and resets come, and hibernation is entered, in any order: as long as no
-- channel is asked for by its configuration, at most one event waits for each channel, and none waits
-- for a channel that is idle or in hibernation.
pub run-Served :
    (acts : List Act) (d : Dqe) (i : ℕ)
    → only_channels acts ≡ true
    → d.hist_pending_events ≡ []
    → matching i 0 (run acts d).hist_pending_events
      ≤ (if rests ((run acts d).hist_chan i).run_state then 0 else 1)
run-Served acts d i o n =
    let c = run-Calm acts d o (record {
      no_context = ground (arith, n);
      single = λ j. ground (arith, n);
      served = λ j r. ground (arith, n);
    }) in
    ground (arith, c.single i, c.served i)
