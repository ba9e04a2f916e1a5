-- ===== src/Panel/Stats.antt =====
-- panel/panel-samsung-drv.c: how long the panel was in each state, at each resolution and refresh
-- rate. The clock, the conversion to milliseconds and the success of an allocation are arguments.
pub mod Tables
pub mod Index
pub mod Sums
pub mod Accounts
mod Tests
use google_modules_display_s.Prelude.{
  ℕ, zero, suc, ◌+◌, ◌*◌, Bool, true, false, not, ◌&&◌, Option, none, some, List, [], ◌∷◌, map, leb,
  ◌==◌, if◌then◌else◌, length, take, set, get_or, replicate, u64,
}
use google_modules_display_s.Panel.{
  DisplayState, on, hbm, lp, off, Resolution, PanelMode, PanelDesc, Backlight,
  get_current_display_state,
}

-- MAX_VREFRESH_RANGES and MAX_RESOLUTION_TABLES
abbrev pub max_vrefresh_ranges : ℕ
max_vrefresh_ranges = 10

abbrev pub max_resolution_tables : ℕ
max_resolution_tables = 2

abbrev pub same_res : Resolution → Resolution → Bool
same_res a b = a.hdisplay == b.hdisplay && a.vdisplay == b.vdisplay

abbrev pub same_rate : ℕ → ℕ → Bool
same_rate a b = a == b

abbrev pub same_state : DisplayState → DisplayState → Bool
same_state on on = true
same_state hbm hbm = true
same_state lp lp = true
same_state off off = true
same_state _ _ = false

-- `struct display_stats`: a table holds the entries in use; `available` and `time` are the members of
-- `time_in_state`, by their state. The time of the last update is in nanoseconds.
pub record DisplayStats : Type 0 where
  pub vrefresh_range : List ℕ
  pub lp_vrefresh_range : List ℕ
  pub res_table : List Resolution
  pub available : DisplayState → ℕ
  pub time : DisplayState → List ℕ
  pub last_state : DisplayState
  pub last_time_state_idx : ℕ
  pub last_update : ℕ
  pub initialized : Bool

unfoldable pub next_place : Option ℕ → Option ℕ
next_place none = none
next_place (some i) = some (suc i)

module _ {A : Type 0} where
  -- The loop over the places of a table that holds each value once: the value is there, or it is put
  -- into the first place that is free, if there is one.
  unfoldable pub add_new : (A → A → Bool) → ℕ → A → List A → List A
  add_new same zero v xs = xs
  add_new same (suc left) v [] = v ∷ []
  add_new same (suc left) v (x ∷ xs) =
      let rest = add_new same left v xs in if same x v then x ∷ xs else x ∷ rest

  -- The loop over the modes.
  unfoldable pub add_all : (A → A → Bool) → ℕ → List A → List A → List A
  add_all same left [] table = table
  add_all same left (v ∷ vs) table = add_all same left vs (add_new same left v table)

  -- The first place of a value in a table.
  unfoldable pub index_of : (A → Bool) → List A → Option ℕ
  index_of p [] = none
  index_of p (x ∷ xs) = let rest = index_of p xs in if p x then some 0 else next_place rest

  -- A table of the panel's own, as far as there is room, or that of its modes.
  unfoldable pub table_of : (A → A → Bool) → ℕ → List A → Option (List A) → List A
  table_of same left found none = add_all same left found []
  table_of same left found (some own) = take left own

-- The rates that `get_disp_stats_time_state_idx` looks at.
abbrev pub rates : DisplayStats → DisplayState → List ℕ
rates s lp = s.lp_vrefresh_range
rates s _ = s.vrefresh_range

-- `get_disp_stats_time_state_idx` for a state that is not off; `none` is -1.
unfoldable pub place : DisplayStats → DisplayState → Option ℕ → Option ℕ → Option ℕ
place s state none v = none
place s state (some r) none = none
place s state (some r) (some v) =
    let i = r * length (rates s state) + v in if leb (s.available state) i then none else some i

abbrev pub lookup : DisplayStats → DisplayState → ℕ → Resolution → Option ℕ
lookup s state vrefresh res =
    place s state (index_of (λ x. same_res x res) s.res_table)
      (index_of (λ x. same_rate x vrefresh) (rates s state))

unfoldable pub get_time_state_idx : DisplayStats → DisplayState → ℕ → Resolution → Option ℕ
get_time_state_idx s state vrefresh res =
    if s.available state == 0
    then none
    else if same_state state off
    then some 0
    else lookup s state vrefresh res

-- The counts of `disp_stats_init`.
abbrev pub available_of : PanelDesc → DisplayStats → DisplayState → ℕ
available_of desc s on = length s.res_table * length s.vrefresh_range
available_of desc s hbm =
    if desc.has_set_hbm_mode then length s.res_table * length s.vrefresh_range else 0
available_of desc s lp = length s.res_table * length s.lp_vrefresh_range
available_of desc s off = 1

abbrev pub empty : DisplayStats
empty = record {
  vrefresh_range = [];
  lp_vrefresh_range = [];
  res_table = [];
  available = λ s. 0;
  time = λ s. [];
  last_state = on;
  last_time_state_idx = 0;
  last_update = 0;
  initialized = false;
}

unfoldable pub tables : PanelDesc → DisplayStats
tables desc =
    let s : DisplayStats = record empty {
      res_table =
          table_of same_res max_resolution_tables (map (λ m. m.res) desc.modes)
            desc.resolution_table;
      vrefresh_range =
          table_of same_rate max_vrefresh_ranges (map (λ m. m.vrefresh) desc.modes)
            desc.vrefresh_range;
      lp_vrefresh_range =
          table_of same_rate max_vrefresh_ranges (map (λ m. m.vrefresh) desc.lp_modes)
            desc.lp_vrefresh_range;
    } in
    record s { available = available_of desc s }

-- The first state: on, if the panel is enabled and its mode has a place.
unfoldable pub start_at : Option ℕ → DisplayStats → DisplayStats
start_at none s = record s { last_state = off; last_time_state_idx = 0 }
start_at (some i) s = record s { last_state = on; last_time_state_idx = i }

unfoldable pub start_idx : DisplayStats → Option PanelMode → Option ℕ
start_idx s none = none
start_idx s (some m) = get_time_state_idx s on m.vrefresh m.res

-- `disp_stats_init`, with the current mode of a panel that is enabled, and whether the counters are
-- allocated.
unfoldable pub init : PanelDesc → Option PanelMode → Bool → DisplayStats
init desc current allocated =
    let s = start_at (start_idx (tables desc) current) (tables desc) in
    if allocated
    then record s { time = λ state. replicate (s.available state) 0; initialized = true }
    else s

-- What `disp_stats_update_state` reads: the state, the resolution of the current mode with the actual
-- refresh rate, if there is a current mode, and the time since the boot.
pub record Report : Type 0 where
  pub backlight : Backlight
  pub mode : Option PanelMode
  pub now : ℕ

unfoldable pub add_time : ℕ → ℕ → List ℕ → List ℕ
add_time i delta xs = set xs i (u64 (get_or xs i 0 + delta))

unfoldable pub enter :
    (ℕ → ℕ → ℕ) → DisplayState → ℕ → Option ℕ → DisplayStats → DisplayStats × Bool
enter ms_delta state now none s = (s, false)
enter ms_delta state now (some i) s =
    let more = add_time s.last_time_state_idx (ms_delta now s.last_update) in
    (
      record s {
        time = λ t. if same_state t s.last_state then more (s.time t) else s.time t;
        last_state = state;
        last_time_state_idx = i;
        last_update = now;
      },
      true,
    )

unfoldable pub enter_mode :
    (ℕ → ℕ → ℕ) → DisplayState → ℕ → Option PanelMode → DisplayStats → DisplayStats × Bool
enter_mode ms_delta state now none s = (s, false)
enter_mode ms_delta state now (some m) s =
    enter ms_delta state now (get_time_state_idx s state m.vrefresh m.res) s

-- `disp_stats_update_state`, and whether it returns 0.
unfoldable pub update_state : (ℕ → ℕ → ℕ) → Report → DisplayStats → DisplayStats × Bool
update_state ms_delta r s =
    if s.initialized
    then enter_mode ms_delta (get_current_display_state r.backlight) r.now r.mode s
    else (s, false)
