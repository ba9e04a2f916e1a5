-- ===== src/Dqe/Config.antt =====
-- exynos_drm_dqe.c, the histogram channels: the update of the configuration, hibernation and reset.
use google_modules_display_s.Prelude.{
  ℕ, ◌+◌, Bool, true, false, not, ◌&&◌, ◌||◌, Option, none, some, ltb, ◌==◌, if◌then◌else◌,
}
use google_modules_display_s.Dqe.State.{
  histogram_max, histogram_chan_lhbm, HistState, hist_off, hist_full, hist_roi, blocked_full,
  blocked_roi, disabled, hibernation, pending_framedone, idle, ChanConfig, Chan, Dqe, Bins,
  put_chan, set_run_state, collect_bins, for_each,
}
use google_modules_display_s.Dqe.{handle_event, is_off}

-- The mode of the hardware that a configuration asks for, in `exynos_histogram_channel_update`.
unfoldable pub mode_of : ChanConfig → HistState
mode_of c =
    let weights = c.weight_b + c.weight_g + c.weight_r in
    let roi = c.hsize + c.vsize in
    if ltb 0 weights && ltb 0 roi
    then if c.blocked then blocked_roi else hist_roi
    else if ltb 0 weights
    then if c.blocked then blocked_full else hist_full
    else hist_off

abbrev pub same_config : Option ChanConfig → Option ChanConfig → Bool
same_config none none = true
same_config (some c) (some d) = c.address == d.address
same_config _ _ = false

-- `exynos_histogram_channel_update`
unfoldable pub configured : Option ChanConfig → Chan → Chan
unfolding mode_of
configured none c = record c { config = none; state = hist_off; cb = false }
configured (some k) c = record c { config = some k; state = mode_of k; cb = false }

unfoldable pub channel_update : Option ChanConfig → Chan → Chan
unfolding configured
channel_update config c =
    let same = same_config c.config config in
    let c' = if same then c else configured config c in
    if not same || not (is_off c'.state) then record c' { run_state = pending_framedone } else c'

-- `exynos_lhbm_histogram_update`
unfoldable pub lhbm_update : Dqe → Dqe
unfolding put_chan
lhbm_update d =
    if d.lhbm_hsize == 0
    then d
    else put_chan histogram_chan_lhbm
        (record (d.hist_chan histogram_chan_lhbm) {
          state = hist_roi;
          cb = true;
          run_state = pending_framedone;
        })
        d

-- `exynos_histogram_update`, and the part of `__exynos_dqe_update` around it.
unfoldable pub histogram_update : (ℕ → Option ChanConfig) → Dqe → Dqe
unfolding channel_update lhbm_update
histogram_update configs d =
    lhbm_update (record d { hist_chan = λ id. channel_update (configs id) (d.hist_chan id) })

unfoldable pub dqe_update : Bool → (ℕ → Option ChanConfig) → Dqe → Dqe
unfolding histogram_update
dqe_update enabled configs d =
    let on = enabled && not d.force_disabled in
    let d' : Dqe = record d { enabled = on } in if on then histogram_update configs d' else d'

-- `exynos_dqe_hibernation_enter`
unfoldable pub hibernate_at : Bins → Bool → ℕ → Dqe → Dqe
unfolding collect_bins set_run_state handle_event
hibernate_at hw decon_idle id d = elim (d.hist_chan id).run_state [
  | idle ↦ set_run_state id hibernation (collect_bins hw id d)
  | pending_framedone ↦
      if decon_idle
      then set_run_state id hibernation (handle_event hw true id d)
      else set_run_state id disabled d
  | _ ↦ d
]

unfoldable pub hibernation_enter : Bins → Bool → Dqe → Dqe
unfolding hibernate_at for_each
hibernation_enter hw decon_idle d =
    if d.enabled then for_each (hibernate_at hw decon_idle) histogram_max 0 d else d

-- The part of `exynos_dqe_reset` about the histogram.
unfoldable pub reset_chan : Chan → Chan
reset_chan c =
    let c' : Chan = record c { config = none; state = hist_off } in
    elim c.run_state [ hibernation ↦ c' | _ ↦ record c' { run_state = disabled; user_handle = 0 } ]

unfoldable pub dqe_reset : Dqe → Dqe
unfolding reset_chan
dqe_reset d = record d { hist_chan = λ id. reset_chan (d.hist_chan id) }
