-- ===== src/Bts/Vote.antt =====
-- exynos_drm_bts.c, the votes: `dpu_bts_update_resources` and `dpu_bts_release_resources`, which tell
-- the bus and clock drivers what the display needs. Those drivers are not part of the repository: a
-- call of one is an entry of a list, in the order of the calls.
pub mod Phases
pub mod Alternate
pub mod Extremes
use google_modules_display_s.Prelude.{
  ℕ, ◌+◌, min, Bool, true, false, ◌||◌, ◌&&◌, not, List, [], ◌∷◌, ◌++◌, map, ltb, leb, ◌==◌,
  if◌then◌else◌, replicate, length,
}
use google_modules_display_s.Bts.{Bts, Params, Panel, Scenario, UrgentLat, Decon}

-- `struct bts_bw`.
pub record Bw : Type 0 where
  pub peak : ℕ
  pub rt : ℕ
  pub read : ℕ
  pub write : ℕ

abbrev pub no_bw : Bw
no_bw = record { peak = 0; rt = 0; read = 0; write = 0 }

-- The calls of the bus, clock and scenario drivers, with their arguments.
pub data Call : Type 0 where
  bts_update_bw : ℕ → Bw → Call
  qos_update_disp : ℕ → Call
  bts_add_scenario bts_del_scenario : ℕ → Call
  bts_set_urgent_lat_read : ℕ → ℕ → Call
  qos_remove_disp qos_remove_int qos_remove_mif : Call

pub need_vote : Decon → Bw → Bool
need_vote d bw =
    leb s.min_panel_width d.config.image_width
    && (leb s.min_panel_height d.config.image_height
        && (leb s.min_rt_bw bw.rt
            && (leb bw.rt s.max_rt_bw
                && (leb s.min_peak_bw bw.peak
                    && (leb bw.peak s.max_peak_bw
                        && (leb s.min_fps d.params.fps
                            && (not s.skip_with_video
                                || (s.skip_with_video && d.bts.video_num == 0))))))))
  where
    open d use {bts_scen as s}

-- The scenario afterwards, and the calls.
pub update_scenario : Decon → Bw → Scenario × List Call
update_scenario d bw =
    if s.enabled
    then (let need = need_vote d bw in
        if need
        then if s.voted then (s, []) else (record s { voted = true }, bts_add_scenario s.idx ∷ [])
        else if s.voted
        then (record s { voted = false }, bts_del_scenario s.idx ∷ [])
        else (s, []))
    else (s, [])
  where
    open d use {bts_scen as s}

-- `prev_urgent_rd_lat` afterwards, and the calls.
pub update_urgent_latency : Decon → ℕ × List Call
update_urgent_latency d =
    if not d.bts_urgent_rd_lat.enabled || d.bts.urgent_rd_lat == d.bts.prev_urgent_rd_lat
    then (d.bts.prev_urgent_rd_lat, [])
    else (
      d.bts.urgent_rd_lat,
      map (λ index. bts_set_urgent_lat_read index d.bts.urgent_rd_lat) d.params.urgent_rd_lat_index,
    )

abbrev pub bw_of : Bts → Bw
bw_of b = record { peak = b.peak; rt = b.rt_avg_bw; read = b.read_bw; write = b.write_bw }

-- The limit for a concurrent writeback of solid colors.
pub limited_disp_freq : Decon → ℕ
limited_disp_freq d =
    if ltb 0 d.params.max_dfs_lv_for_wb && (d.bts.read_bw == 0 && ltb 0 d.bts.write_bw)
    then min d.bts.max_disp_freq d.params.max_dfs_lv_for_wb
    else d.bts.max_disp_freq

abbrev pub when_vote : Bool → Call → List Call
when_vote b c = if b then c ∷ [] else []

-- One of the three bandwidths is below, or above, what was remembered.
abbrev pub falls : Bts → Bool
falls b =
    ltb b.total_bw b.prev_total_bw || (ltb b.peak b.prev_peak || ltb b.rt_avg_bw b.prev_rt_avg_bw)

abbrev pub rises : Bts → Bool
rises b =
    ltb b.prev_total_bw b.total_bw || (ltb b.prev_peak b.peak || ltb b.prev_rt_avg_bw b.rt_avg_bw)

-- The branch for `shadow_updated`, after the hardware has taken over the new configuration.
pub after_shadow : ℕ → Bts → Bts × List Call
after_shadow bw_idx b = (
  record b {
    prev_total_bw = b.total_bw;
    prev_peak = b.peak;
    prev_rt_avg_bw = b.rt_avg_bw;
    prev_max_disp_freq = b.max_disp_freq;
  },
  when_vote (falls b) (bts_update_bw bw_idx (bw_of b))
      ++ when_vote (ltb b.max_disp_freq b.prev_max_disp_freq) (qos_update_disp b.max_disp_freq),
)

-- The other branch, before it.
pub before_shadow : ℕ → Bts → List Call
before_shadow bw_idx b =
    when_vote (rises b) (bts_update_bw bw_idx (bw_of b))
    ++ when_vote (ltb b.prev_max_disp_freq b.max_disp_freq) (qos_update_disp b.max_disp_freq)

-- `dpu_bts_update_resources` behind its test of `enabled`.
abbrev pub limited : Decon → Decon
limited d = record d { bts = record d.bts { max_disp_freq = limited_disp_freq d } }

pub update_enabled : Decon → Bool → Decon × List Call
update_enabled d shadow_updated =
    let (scen, c1) = update_scenario (limited d) (bw_of d.bts) in
    let (lat, c2) = update_urgent_latency (limited d) in
    let b = record (limited d).bts { prev_urgent_rd_lat = lat } in
    if shadow_updated
    then (let (b', c3) = after_shadow d.params.bw_idx b in
        (record d { bts = b'; bts_scen = scen }, c1 ++ (c2 ++ c3)))
    else (record d { bts = b; bts_scen = scen }, c1 ++ (c2 ++ before_shadow d.params.bw_idx b))

pub update_resources : Decon → Bool → Decon × List Call
update_resources d shadow_updated =
    if d.bts.enabled then update_enabled d shadow_updated else (d, [])

pub release_enabled : Decon → Decon × List Call
release_enabled d =
    let (scen, c1) = update_scenario d no_bw in
    (
      record d {
        bts_scen = scen;
        bts = record d.bts {
          prev_peak = 0;
          prev_rt_avg_bw = 0;
          prev_total_bw = 0;
          prev_max_disp_freq = 0;
          rt_avg_bw = 0;
          max_dpp_read_rt_bw = 0;
          ch_bw = replicate (length d.bts.ch_bw) 0;
        };
      },
      c1 ++ (bts_update_bw d.params.bw_idx no_bw ∷ qos_update_disp 0 ∷ []),
    )

pub release_resources : Decon → Decon × List Call
release_resources d = if d.bts.enabled then release_enabled d else (d, [])

-- `dpu_bts_deinit` forgets no state of its own.
pub deinit : Decon → List Call
deinit d =
    if d.bts.enabled
    then qos_remove_disp
      ∷ qos_remove_int
      ∷ qos_remove_mif
      ∷ when_vote (d.bts_scen.enabled && d.bts_scen.voted) (bts_del_scenario d.bts_scen.idx)
    else []
