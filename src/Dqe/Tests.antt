-- ===== src/Dqe/Tests.antt =====
-- Four channels, of which the first runs the configuration 7 and the last is that of LHBM.
use google_modules_display_s.Prelude.{
  ℕ, ◌≡◌, ◌≤◌, ◌+◌, ◌/◌, refl, true, false, none, List, [], ◌∷◌, ◌++◌, arith, if◌then◌else◌, ◌==◌,
}
use google_modules_display_s.Dqe.State.{
  hist_off, hist_full, disabled, idle, pending_framedone, Chan, Dqe, Bins, channel, context,
}
use google_modules_display_s.Dqe.{
  Lookup, ebusy, channel_request, event_request, handle_histogram_event, flip_done, lhbm_callback,
}
use google_modules_display_s.Dqe.Config.{hibernation_enter, dqe_reset}
use google_modules_display_s.Dqe.Acts.{Act, ask_channel, ask_context, frame_done, flip, run}
use google_modules_display_s.Dqe.Accounts.{known, times_made, run-Kept}
use google_modules_display_s.Dqe.Frames.{
  matching, there, Grown, IsTrue, handle_histogram_event-Answers,
}
use google_modules_display_s.Dqe.Waiting.{rests}
use google_modules_display_s.Dqe.Served.{run-Served}
use google_modules_display_s.Dqe.Cache.{SendsOnly}
use google_modules_display_s.Dqe.Frozen.{run-Cached}
use google_modules_display_s.Dqe.Gray.{sum_bins, weighted_from, lhbm_callback-Mean}

abbrev unused : Chan
unused = record {
  state = hist_off;
  run_state = disabled;
  bins = [];
  cb = false;
  config = none;
  user_handle = 0;
}

abbrev shown : Chan
shown = record unused { state = hist_full; run_state = pending_framedone; user_handle = 7 }

abbrev dqe : Dqe
dqe = record {
  enabled = true;
  force_disabled = false;
  lhbm_hsize = 0;
  lhbm_gray_level = 0;
  hist_chan = λ i. if i == 0 then shown else unused;
  hist_pending_events = [];
  sent = [];
  freed = [];
}

abbrev found : Lookup
found = record { crtc = true; dqe = true; room = true }

-- What the registers hold in a frame.
abbrev frame : ℕ → Bins
frame n = λ i. n ∷ i ∷ []

-- A client asks for the channel, another for its configuration, and a frame ends.
abbrev acts : List Act
acts =
    ask_channel found (frame 0) 101 0
    ∷ ask_context found (frame 0) 102 7
    ∷ ask_channel found (frame 0) 103 0
    ∷ []

abbrev waiting : Dqe
waiting = run acts dqe

run-Kept_example : known 103 (run acts dqe) ≡ known 103 dqe + times_made 103 acts dqe
run-Kept_example = run-Kept 103 acts dqe

-- The third is refused, and freed; the other two wait.
who_waits : (known 103 waiting ≡ 1) × (matching 0 7 waiting.hist_pending_events ≡ 2)
unfolding run channel_request event_request
who_waits = (refl, refl)

handle_histogram_event-Answers_example :
    (matching 0 7 (handle_histogram_event (frame 1) true waiting).hist_pending_events ≤ 1)
    × Grown
        (IsTrue (frame 1) (λ c. (waiting.hist_chan c).user_handle))
        waiting.sent
        (handle_histogram_event (frame 1) true waiting).sent
    × ((e : ℕ) → there e (handle_histogram_event (frame 1) true waiting) ≡ there e waiting)
unfolding run channel_request event_request
handle_histogram_event-Answers_example =
    handle_histogram_event-Answers (frame 1) true 0 waiting (omega arith) refl

-- The last frame answers one of them, and the channel is idle; the other waits on, and asking again
-- is refused.
abbrev rested : Dqe
rested = handle_histogram_event (frame 1) true waiting

starved :
    ((rested.hist_chan 0).run_state ≡ idle)
    × (rested.hist_pending_events ≡ record { event = 102; ask = context 7 } ∷ [])
    × ((event_request found (frame 2) 104 7 rested).1 ≡ ebusy)
unfolding run handle_histogram_event event_request channel_request
starved = (refl, refl, refl)

abbrev plain : List Act
plain = ask_channel found (frame 0) 101 0 ∷ frame_done (frame 1) true ∷ []

run-Served_example :
    matching 0 0 (run plain dqe).hist_pending_events
    ≤ (if rests ((run plain dqe).hist_chan 0).run_state then 0 else 1)
run-Served_example = run-Served plain dqe 0 refl refl

goes_to_rest : ((run plain dqe).hist_chan 0).run_state ≡ idle
unfolding run handle_histogram_event channel_request
goes_to_rest = refl

abbrev quiet : List Act
quiet = ask_channel found (frame 2) 104 0 ∷ flip (λ i. 0) ∷ []

abbrev asleep : Dqe
asleep = run quiet (dqe_reset (hibernation_enter (frame 1) true dqe))

run-Cached_example :
    Grown (SendsOnly 0 (frame 1 0)) (hibernation_enter (frame 1) true dqe).sent asleep.sent
    × ((channel_request found (frame 3) 105 0 asleep).0.sent
        ≡ asleep.sent
          ++ (record {
            node = record { event = 105; ask = channel 0 };
            hist_id = 0;
            bins = frame 1 0;
          }
              ∷ []))
unfolding run hibernation_enter dqe_reset channel_request flip_done
run-Cached_example =
    run-Cached (frame 1) (frame 3) true quiet found 0 105 dqe asleep refl (omega arith) refl refl
      refl refl refl

-- A frame that ends while the bins are cached makes the channel idle, with its hardware off: a
-- request is then answered with what the registers hold.
abbrev woken : Dqe
woken = handle_histogram_event (frame 4) true asleep

idle_off :
    ((woken.hist_chan 0).run_state ≡ idle)
    × ((woken.hist_chan 0).state ≡ hist_off)
    × ((channel_request found (frame 5) 106 0 woken).0.sent
        ≡ woken.sent
          ++ (record {
            node = record { event = 106; ask = channel 0 };
            hist_id = 0;
            bins = frame 5 0;
          }
              ∷ []))
unfolding run hibernation_enter dqe_reset handle_histogram_event channel_request flip_done
idle_off = (refl, refl, refl)

abbrev gray : List ℕ
gray = 0 ∷ 5 ∷ 10 ∷ 5 ∷ []

lhbm_callback-Mean_example :
    ((lhbm_callback 3 gray dqe).lhbm_gray_level ≡ weighted_from 0 gray / sum_bins gray)
    × ((lhbm_callback 3 gray dqe).lhbm_gray_level ≤ 255)
lhbm_callback-Mean_example = lhbm_callback-Mean gray dqe (omega arith) refl (omega arith)

gray_level : (lhbm_callback 3 gray dqe).lhbm_gray_level ≡ 2
unfolding lhbm_callback
gray_level = refl
