-- ===== src/Dqe/State.antt =====
-- exynos_drm_dqe.h and exynos_drm_dqe.c, the histogram of the color processing: its channels, the events
-- that wait, and those that were sent or given up. The four channels are those of CONFIG_SOC_ZUMA.
use google_modules_display_s.Prelude.{
  ℕ, zero, suc, Bool, not, ◌&&◌, Option, none, some, List, [], ◌∷◌, ◌++◌, ltb, ◌==◌, if◌then◌else◌,
}

abbrev pub histogram_max : ℕ
histogram_max = 4

abbrev pub histogram_chan_lhbm : ℕ
histogram_chan_lhbm = 3

-- `enum histogram_state`, the mode of the hardware.
pub data HistState : Type 0 where
  hist_off hist_full hist_roi blocked_full blocked_roi : HistState

-- `enum histogram_run_state`
pub data RunState : Type 0 where
  disabled hibernation pending_framedone idle : RunState

-- `struct histogram_channel_config` by its address, with what is read of it.
pub record ChanConfig : Type 0 where
  pub address : ℕ
  pub weight_r : ℕ
  pub weight_g : ℕ
  pub weight_b : ℕ
  pub hsize : ℕ
  pub vsize : ℕ
  pub blocked : Bool

-- `struct histogram_chan_state`; `cb` is whether there is a callback, which is that of LHBM.
pub record Chan : Type 0 where
  pub state : HistState
  pub run_state : RunState
  pub bins : List ℕ
  pub cb : Bool
  pub config : Option ChanConfig
  pub user_handle : ℕ

-- What an event asks for: a channel, or the channel of a configuration.
pub data Ask : Type 0 where
  channel context : ℕ → Ask

-- `struct histogram_event_node` with its event.
pub record EventNode : Type 0 where
  pub event : ℕ
  pub ask : Ask

-- An event that was sent, with the channel and the bins it was sent with.
pub record Answer : Type 0 where
  pub node : EventNode
  pub hist_id : ℕ
  pub bins : List ℕ

-- `struct exynos_dqe`, with the events that were sent and those that were freed.
pub record Dqe : Type 0 where
  pub enabled : Bool
  pub force_disabled : Bool
  pub lhbm_hsize : ℕ
  pub lhbm_gray_level : ℕ
  pub hist_chan : ℕ → Chan
  pub hist_pending_events : List EventNode
  pub sent : List Answer
  pub freed : List EventNode

-- The bins that the registers of each channel hold.
abbrev pub Bins : Type 0
Bins = ℕ → List ℕ

unfoldable pub put_chan : ℕ → Chan → Dqe → Dqe
put_chan id c d = record d { hist_chan = λ i. if i == id then c else d.hist_chan i }

-- `histogram_chan_set_run_state_locked`
unfoldable pub set_run_state : ℕ → RunState → Dqe → Dqe
unfolding put_chan
set_run_state id r d = put_chan id (record (d.hist_chan id) { run_state = r }) d

-- `histogram_emmit_event_locked`, for an event that is off the list.
unfoldable pub emit : ℕ → List ℕ → EventNode → Dqe → Dqe
emit id bins e d = record d {
  sent = d.sent ++ (record { node = e; hist_id = id; bins = bins } ∷ []);
}

-- `release_histogram_event_node`, for an event that is off the list.
unfoldable pub release : EventNode → Dqe → Dqe
release e d = record d { freed = d.freed ++ (e ∷ []) }

-- `histogram_chan_collect_bins_locked` into the bins of the channel.
unfoldable pub collect_bins : Bins → ℕ → Dqe → Dqe
unfolding put_chan
collect_bins hw id d = put_chan id (record (d.hist_chan id) { bins = hw id }) d

-- Whether an event is for a channel or for a configuration.
abbrev pub is_for : ℕ → ℕ → Ask → Bool
is_for hist_id user_handle (channel c) = c == hist_id && ltb hist_id histogram_max
is_for hist_id user_handle (context h) = h == user_handle && not (user_handle == 0)

-- `histogram_find_event_node_locked`, which gives the first, with the list without it.
unfoldable pub find_event_node : ℕ → ℕ → List EventNode → Option (EventNode × List EventNode)
find_event_node hist_id user_handle [] = none
find_event_node hist_id user_handle (e ∷ es) =
    let rest = find_event_node hist_id user_handle es in
    if is_for hist_id user_handle e.ask
    then some (e, es)
    else elim rest [ none ↦ none | some (x, xs) ↦ some (x, e ∷ xs) ]

-- A loop over channels.
unfoldable pub for_each : (ℕ → Dqe → Dqe) → ℕ → ℕ → Dqe → Dqe
for_each body zero id d = d
for_each body (suc left) id d = for_each body left (suc id) (body id d)
