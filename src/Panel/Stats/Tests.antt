-- ===== src/Panel/Stats/Tests.antt =====
-- A panel with two resolutions and two rates, which is on, dimmed to low power, and off.
use google_modules_display_s.Prelude.{
  ℕ, ◌-◌, ◌/◌, ◌<◌, ◌≤◌, ◌≡◌, refl, length, true, false, Option, none, some, List, [], ◌∷◌, map,
  arith,
}
use google_modules_display_s.Panel.{on, lp, PanelMode, PanelDesc, Backlight}
use google_modules_display_s.Panel.Stats.{
  same_res, same_rate, DisplayStats, add_new, add_all, next_place, index_of, table_of, place,
  get_time_state_idx, tables, start_at, start_idx, init, Report, add_time, enter, enter_mode,
  update_state,
}
use google_modules_display_s.Panel.Stats.Index.{StandsFor, get_time_state_idx-StandsFor}
use google_modules_display_s.Panel.Stats.Tables.{put_new, distinct_from, init-Finds}
use google_modules_display_s.Panel.Stats.Accounts.{IsMsDelta, run, Accounted, run-Accounted}

abbrev mode : ℕ → ℕ → ℕ → PanelMode
mode w h v = record { res = record { hdisplay = w; vdisplay = h }; vrefresh = v }

abbrev desc : PanelDesc
desc = record {
  resolution_table = none;
  vrefresh_range = none;
  lp_vrefresh_range = none;
  modes = mode 1440 3120 60 ∷ mode 1440 3120 120 ∷ mode 1080 2340 60 ∷ mode 1080 2340 120 ∷ [];
  lp_modes = mode 1440 3120 30 ∷ [];
  has_set_hbm_mode = true;
}

abbrev current : Option PanelMode
current = some (mode 1440 3120 120)

abbrev stats : DisplayStats
stats = init desc current true

-- The second resolution at 120 Hz has the last of the four counters.
placed : get_time_state_idx stats on 120 (record { hdisplay = 1080; vdisplay = 2340 }) ≡ some 3
unfolding init tables table_of add_all add_new start_at start_idx get_time_state_idx place index_of
    next_place
placed = refl

get_time_state_idx-StandsFor_example :
    StandsFor stats on 120 (record { hdisplay = 1080; vdisplay = 2340 }) 3
    × (3 < stats.available on)
get_time_state_idx-StandsFor_example =
    get_time_state_idx-StandsFor stats on 120 (record { hdisplay = 1080; vdisplay = 2340 }) 3 refl
      placed

resolutions : length (distinct_from same_res (map (λ m. m.res) desc.modes) []) ≤ 2
unfolding distinct_from put_new
resolutions = omega arith

refresh_rates : length (distinct_from same_rate (map (λ m. m.vrefresh) desc.modes) []) ≤ 10
unfolding distinct_from put_new
refresh_rates = omega arith

init-Finds_example :
    (i : ℕ) × (get_time_state_idx stats on 60 (record { hdisplay = 1080; vdisplay = 2340 })
      ≡ some i)
init-Finds_example =
    init-Finds desc current 2 (mode 1080 2340 60) refl refl resolutions refresh_rates refl

abbrev whole_ms : ℕ → ℕ → ℕ
whole_ms a b = (a - b) / 1000000

whole_ms-IsMsDelta : IsMsDelta whole_ms
whole_ms-IsMsDelta = record { below = λ a b h. omega arith; near = λ a b h. omega arith }

abbrev dimmed : Backlight
dimmed = record { standby = false; low_power = true; hbm_on = false }

abbrev dark : Backlight
dark = record { standby = true; low_power = false; hbm_on = false }

abbrev reports : List Report
reports =
    record { backlight = dimmed; mode = some (mode 1440 3120 30); now = 5700000 }
    ∷ record { backlight = dark; mode = some (mode 1440 3120 24); now = 9900000 }
    ∷ []

-- Of the first 5.7 ms, 5 are counted for the state on; a panel that is off needs no rate.
counted :
    ((run whole_ms reports stats).0.time on ≡ 0 ∷ 5 ∷ 0 ∷ 0 ∷ [])
    × ((run whole_ms reports stats).0.time lp ≡ 4 ∷ 0 ∷ [])
unfolding run update_state enter_mode enter add_time init tables table_of add_all add_new start_at
    start_idx get_time_state_idx place index_of next_place
counted = (refl, refl)

run-Accounted_example : Accounted (run whole_ms reports stats).1 (run whole_ms reports stats).0
run-Accounted_example =
    run-Accounted whole_ms desc current reports whole_ms-IsMsDelta
      (omega arith, omega arith, (omega arith, omega arith, tt))
