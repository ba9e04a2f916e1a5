-- ===== src/Panel/Stats/Accounts.antt =====
-- The times of all counters together, over any row of reports.
use google_modules_display_s.Prelude.{
  ℕ, suc, ◌+◌, ◌-◌, ◌*◌, ◌<◌, ◌≤◌, ◌≡◌, refl, ◌∙◌, Bool, true, Option, none, some, List, [], ◌∷◌,
  arith, if◌then◌else◌, length, replicate, length-replicate,
}
use google_modules_display_s.Panel.{
  DisplayState, on, hbm, lp, off, PanelMode, PanelDesc, get_current_display_state,
}
use google_modules_display_s.Panel.Stats.{
  DisplayStats, get_time_state_idx, tables, start_at, start_idx, init, Report, enter, enter_mode,
  update_state,
}
use google_modules_display_s.Panel.Stats.Index.{get_time_state_idx-inside}
use google_modules_display_s.Panel.Stats.Sums.{sum, total, total-put, length-put, sum-replicate}

-- `ktime_ms_delta` is the number of whole milliseconds between two times.
pub record IsMsDelta (ms_delta : ℕ → ℕ → ℕ) : Type 0 where
  pub below : (a b : ℕ) → b ≤ a → ms_delta a b * 1000000 ≤ a - b
  pub near : (a b : ℕ) → b ≤ a → a - b ≤ ms_delta a b * 1000000 + 999999

-- The counters after a number of updates: their place is there, and together they make the time of
-- the last update, but for the part of a millisecond that each update drops.
pub record Accounted (n : ℕ) (s : DisplayStats) : Type 0 where
  pub ready : s.initialized ≡ true
  pub sized : (t : DisplayState) → length (s.time t) ≡ s.available t
  pub inside : s.last_time_state_idx < s.available s.last_state
  pub not_more : total s.time * 1000000 ≤ s.last_update
  pub not_less : s.last_update ≤ total s.time * 1000000 + n * 999999

enter-Accounted :
    (ms_delta : ℕ → ℕ → ℕ) (n now : ℕ) (state : DisplayState) (i : ℕ) (s : DisplayStats)
    → IsMsDelta ms_delta
    → s.last_update ≤ now
    → now < 9223372036854775808
    → i < s.available state
    → Accounted n s
    → Accounted (suc n) (enter ms_delta state now (some i) s).0
unfolding enter
enter-Accounted ms_delta n now state i s k before small h a =
    let st : DisplayState = s.last_state in
    let d : ℕ = ms_delta now s.last_update in
    let low = k.below now s.last_update before in
    let high = k.near now s.last_update before in
    let room : s.last_time_state_idx < length (s.time st) = omega (arith, a.inside, a.sized st) in
    let t = total-put st s.last_time_state_idx d s.time room (omega (arith, low, a.not_more)) in
    record {
      ready = a.ready;
      sized = λ u. length-put st u s.last_time_state_idx d s.time ∙ a.sized u;
      inside = h;
      not_more = omega (arith, t, low, a.not_more);
      not_less = omega (arith, t, high, a.not_less);
    }

-- One update: it counts, or it changes nothing.
record Updates (n now : ℕ) (r : DisplayStats × Bool) : Type 0 where
  accounted : Accounted (if r.1 then suc n else n) r.0
  not_later : r.0.last_update ≤ now

enter-Updates :
    (ms_delta : ℕ → ℕ → ℕ) (n now : ℕ) (state : DisplayState) (o : Option ℕ) (s : DisplayStats)
    → IsMsDelta ms_delta
    → s.last_update ≤ now
    → now < 9223372036854775808
    → ((i : ℕ) → o ≡ some i → i < s.available state)
    → Accounted n s
    → Updates n now (enter ms_delta state now o s)
unfolding enter
enter-Updates ms_delta n now state none s k before small h a = record {
  accounted = a;
  not_later = before;
}
enter-Updates ms_delta n now state (some i) s k before small h a = record {
  accounted = enter-Accounted ms_delta n now state i s k before small (h i refl) a;
  not_later = omega arith;
}

enter_mode-Updates :
    (ms_delta : ℕ → ℕ → ℕ) (n now : ℕ) (state : DisplayState) (m : Option PanelMode)
    (s : DisplayStats)
    → IsMsDelta ms_delta
    → s.last_update ≤ now
    → now < 9223372036854775808
    → Accounted n s
    → Updates n now (enter_mode ms_delta state now m s)
unfolding enter_mode
enter_mode-Updates ms_delta n now state none s k before small a = record {
  accounted = a;
  not_later = before;
}
enter_mode-Updates ms_delta n now state (some m) s k before small a =
    enter-Updates ms_delta n now state (get_time_state_idx s state m.vrefresh m.res) s k before
      small (λ i e. get_time_state_idx-inside s state m.vrefresh m.res i e) a

update_state-Updates :
    (ms_delta : ℕ → ℕ → ℕ) (n : ℕ) (r : Report) (s : DisplayStats)
    → IsMsDelta ms_delta
    → s.last_update ≤ r.now
    → r.now < 9223372036854775808
    → Accounted n s
    → Updates n r.now (update_state ms_delta r s)
unfolding update_state
update_state-Updates ms_delta n r s k before small a = simp (a.ready) (
    enter_mode-Updates ms_delta n r.now (get_current_display_state r.backlight) r.mode s k before
      small a)

-- A row of reports, with the number of those that count.
unfoldable pub run : (ℕ → ℕ → ℕ) → List Report → DisplayStats → DisplayStats × ℕ
run ms_delta [] s = (s, 0)
run ms_delta (r ∷ rs) s =
    let (t, ok) = update_state ms_delta r s in
    let (u, k) = run ms_delta rs t in (u, (if ok then suc k else k))

-- The clock does not go back, and does not reach 2 ^ 63 nanoseconds.
abbrev pub InOrder : ℕ → List Report → Type 0
InOrder last [] = Unit
InOrder last (r ∷ rs) = (last ≤ r.now) × (r.now < 9223372036854775808) × InOrder r.now rs

Accounted-eq : {n m : ℕ} (s : DisplayStats) → n ≡ m → Accounted n s → Accounted m s
Accounted-eq s e a = record {
  ready = a.ready;
  sized = a.sized;
  inside = a.inside;
  not_more = a.not_more;
  not_less = omega (arith, e, a.not_less);
}

run_from-Accounted :
    (ms_delta : ℕ → ℕ → ℕ) (rs : List Report) (last n : ℕ) (s : DisplayStats)
    → IsMsDelta ms_delta
    → InOrder last rs
    → s.last_update ≤ last
    → Accounted n s
    → Accounted ((run ms_delta rs s).1 + n) (run ms_delta rs s).0
unfolding run
run_from-Accounted ms_delta [] last n s k o b a = Accounted-eq s (omega arith) a
run_from-Accounted ms_delta (r ∷ rs) last n s k o b a =
    let u = update_state-Updates ms_delta n r s k (omega (arith, o.0)) o.1 a in
    let (t, ok) = update_state ms_delta r s in
    let ih =
      run_from-Accounted ms_delta rs r.now (if ok then suc n else n) t k o.2 u.not_later
        u.accounted in
    Accounted-eq (run ms_delta rs t).0 (ground arith) ih

-- The first state has its counter.
start_at-inside :
    (o : Option ℕ) (s : DisplayStats)
    → ((i : ℕ) → o ≡ some i → i < s.available on)
    → 0 < s.available off
    → (start_at o s).last_time_state_idx < (start_at o s).available (start_at o s).last_state
      × ((start_at o s).last_update ≡ s.last_update)
unfolding start_at
start_at-inside none s h p = (p, refl)
start_at-inside (some i) s h p = (h i refl, refl)

start_idx-inside :
    (current : Option PanelMode) (s : DisplayStats) (i : ℕ)
    → start_idx s current ≡ some i
    → i < s.available on
unfolding start_idx
start_idx-inside none s i e = ground arith
start_idx-inside (some m) s i e = get_time_state_idx-inside s on m.vrefresh m.res i e

fresh : (desc : PanelDesc) → (0 < (tables desc).available off) × ((tables desc).last_update ≡ 0)
unfolding tables
fresh desc = (omega arith, refl)

init-Accounted :
    (desc : PanelDesc) (current : Option PanelMode) → Accounted 0 (init desc current true)
unfolding init
init-Accounted desc current =
    let s = tables desc in
    let f = fresh desc in
    let i = start_at-inside (start_idx s current) s (start_idx-inside current s) f.0 in
    let t = (start_at (start_idx s current) s).available in
    let z : (x : DisplayState) → sum (replicate (t x) 0) ≡ 0 = λ x. sum-replicate (t x) in
    record {
      ready = refl;
      sized = λ x. length-replicate (t x) 0;
      inside = i.0;
      not_more = omega (arith, z on, z hbm, z lp, z off);
      not_less = omega (arith, i.1, f.1);
    }

init-last_update :
    (desc : PanelDesc) (current : Option PanelMode) → (init desc current true).last_update ≡ 0
unfolding init
init-last_update desc current =
    let s = tables desc in
    let f = fresh desc in
    (start_at-inside (start_idx s current) s (start_idx-inside current s) f.0).1 ∙ f.1

-- From the start of the statistics with allocated counters, whatever states and modes are reported,
-- while the clock does not go back: the last place is one of the counters of the last state, every
-- list of counters has the size for which it is made, and all the counters together make the time of
-- the last update, less at most a millisecond for each update that counted, and never more.
pub run-Accounted :
    (ms_delta : ℕ → ℕ → ℕ) (desc : PanelDesc) (current : Option PanelMode) (rs : List Report)
    → IsMsDelta ms_delta
    → InOrder 0 rs
    → let r = run ms_delta rs (init desc current true) in Accounted r.1 r.0
run-Accounted ms_delta desc current rs k o =
    let s = init desc current true in
    Accounted-eq (run ms_delta rs s).0 (omega arith) (
      run_from-Accounted ms_delta rs 0 0 s k o (omega (arith, init-last_update desc current))
        (init-Accounted desc current))
