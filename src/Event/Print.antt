-- ===== src/Event/Print.antt =====
-- exynos_drm_debug.c, dpu_event_log_print: the entries that are printed, and their order. The text
-- of a line is left out; `skips` tells which types the mask and the condition leave out.
use google_modules_display_s.Prelude.{
  ℕ, zero, suc, ◌-◌, ◌%◌, Bool, Option, none, some, List, [], ◌∷◌, min, ltb, leb, ◌==◌,
  if◌then◌else◌, get_or,
}
use google_modules_display_s.Event.{Log, blank, Debug}
use google_modules_display_s.Event.Kind.{EventType}

unfoldable pub put_line : Log → Option (List Log) → Option (List Log)
put_line x none = none
put_line x (some xs) = some (x ∷ xs)

-- One turn of the loop for an entry, before the turns that follow.
unfoldable pub print_line : (EventType → Bool) → Log → Option (List Log) → Option (List Log)
print_line skips log rest =
    if skips log.kind then rest else if log.ts_nsec == 0 then some [] else put_line log rest

module _ (max_log : ℕ) where
  -- The index before the first entry. The counter is not negative here.
  unfoldable pub seek_oldest : ℕ → ℕ → ℕ
  seek_oldest idx max_logs =
      let n = min max_logs max_log in if ltb idx n then 0 else (idx - n) % max_log

  abbrev pub step : ℕ → ℕ
  step i = if leb max_log (suc i) then 0 else suc i

  -- The do-while loop, with fuel: `none` is a loop that goes on.
  unfoldable pub print_from : ℕ → (EventType → Bool) → List Log → ℕ → ℕ → Option (List Log)
  print_from zero skips logs latest i = none
  print_from (suc fuel) skips logs latest i =
      let j = step i in
      let rest = if j == latest then some [] else print_from fuel skips logs latest j in
      print_line skips (get_or logs j blank) rest

  unfoldable pub log_print : ℕ → (EventType → Bool) → List Log → ℕ → ℕ → Option (List Log)
  log_print fuel skips logs idx max_logs =
      print_from fuel skips logs (idx % max_log) (seek_oldest idx max_logs)

  -- `dpu_event_log_print` on the state.
  unfoldable pub dump : ℕ → (EventType → Bool) → Debug → ℕ → Option (List Log)
  dump fuel skips d max_logs = printed d.event_log
    where
      printed : Option (List Log) → Option (List Log)
      printed none = some []
      printed (some logs) = log_print fuel skips logs d.event_log_idx max_logs

-- The last entries of a history, oldest first.
unfoldable pub last_entries : ℕ → List Log → List Log
last_entries zero h = []
last_entries (suc k) h = get_or h k blank ∷ last_entries k h

-- What is printed of them: those that are not skipped, up to one without a time.
unfoldable pub lines_of : (EventType → Bool) → List Log → List Log
lines_of skips [] = []
lines_of skips (x ∷ xs) =
    let rest = lines_of skips xs in
    if skips x.kind then rest else if x.ts_nsec == 0 then [] else x ∷ rest
