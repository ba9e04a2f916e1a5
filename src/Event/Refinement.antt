-- ===== src/Event/Refinement.antt =====
-- The ring against the history of its events, over any calls from the start.
use Prim.Native.Nat.{◌∣◌}
use google_modules_display_s.Prelude.{
  ℕ, suc, ◌<◌, ◌≤◌, ◌≡◌, refl, Bool, true, some, List, [], ◌∷◌, arith, u32, ltb, if◌then◌else◌,
  replicate, length-replicate, get_or-replicate, Bool-cases, inl, inr,
}
use google_modules_display_s.Event.{
  Log, blank, Debug, all_same, event_ignore, put_next, Case, frame_start, frame_end, te, underrun,
  crc, ecc, idma_error, default, case_of, limit_event, frame_route, route, Call, event, commit,
  command, store, dpu_event_log, event_log_atomic_commit, event_log_cmd, log_call, log_calls,
  init_event_log, alloc_event_log,
}
use google_modules_display_s.Event.Kind.{EventType, atomic_commit, dsim_command}
use native.Mathlib.Nat.{div-one}
use google_modules_display_s.Event.History.{
  History, repeats, frames_after, leaves_out, record_call, record_calls, start, Quiet,
  record_calls-Quiet,
}
use google_modules_display_s.Event.Recent.{Shows, Shows-next}

-- The detailed state shows the abstract one.
unfoldable pub Refines : ℕ → History → Debug → Type 0
Refines m s d =
    (logs : List Log) × (d.event_log ≡ some logs)
    × Shows m s.entries logs d.event_log_idx
    × (d.auto_refresh_frames ≡ s.frames)

ignore-repeats :
    (m : ℕ) (h : List Log) (logs : List Log) (d : Debug) (t : EventType)
    → 2 < m
    → d.event_log ≡ some logs
    → Shows m h logs d.event_log_idx
    → event_ignore m t d ≡ repeats t h
unfolding event_ignore all_same repeats Shows
ignore-repeats m h logs d t hm e (len, shown) =
    rw (e, shown 0 (omega arith), shown 1 (omega arith), shown 2 (omega arith)) (ground arith)

put-Refines :
    (m : ℕ) (s : History) (logs : List Log) (d : Debug) (t : EventType) (now f : ℕ)
    → m ∣ 4294967296
    → 2 < m
    → m ≤ 2147483648
    → Shows m s.entries logs d.event_log_idx
    → d.auto_refresh_frames ≡ f
    → Refines m
        (record { entries = record { kind = t; ts_nsec = now } ∷ s.entries; frames = f })
        (put_next m t now logs d)
unfolding Refines put_next
put-Refines m s logs d t now f dv h1 hm sh e =
    (_, refl, Shows-next m s.entries logs d.event_log_idx _ dv (omega arith) hm sh, e)

module _ (m : ℕ) (dv : m ∣ 4294967296) (h1 : 2 < m) (hm : m ≤ 2147483648) where
  limit-Refines :
      (s : History) (logs : List Log) (d : Debug) (t : EventType) (now f : ℕ)
      → d.event_log ≡ some logs
      → Shows m s.entries logs d.event_log_idx
      → d.auto_refresh_frames ≡ f
      → Refines m
          (record {
            entries =
                if repeats t s.entries
                then s.entries
                else record { kind = t; ts_nsec = now } ∷ s.entries;
            frames = f;
          })
          (store m limit_event t now logs d)
  unfolding store Refines
  limit-Refines s logs d t now f e sh ef = elim (Bool-cases (repeats t s.entries)) [
    | inl r ↦ rw (ignore-repeats m s.entries logs d t h1 e sh, r) (logs, e, sh, ef)
    | inr r ↦
        rw (ignore-repeats m s.entries logs d t h1 e sh, r)
          (put-Refines m s logs d t now f dv h1 hm sh ef)
  ]

  frame-Refines :
      (s : History) (logs : List Log) (d : Debug) (t : EventType) (now f : ℕ)
      → d.event_log ≡ some logs
      → Shows m s.entries logs d.event_log_idx
      → d.auto_refresh_frames ≡ f
      → Refines m
          (record {
            entries =
                if leaves_out t frame_end f s.entries
                then s.entries
                else record { kind = t; ts_nsec = now } ∷ s.entries;
            frames = f;
          })
          (store m (frame_route f) t now logs d)
  unfolding store Refines leaves_out
  frame-Refines s logs d t now f e sh ef = elim (Bool-cases (ltb 3 f)) [
    | inl r ↦ rw (r) (logs, e, sh, ef)
    | inr r ↦ rw (r) (limit-Refines s logs d t now f e sh ef)
  ]

  routed-Refines :
      (c : Case) (s : History) (logs : List Log) (d : Debug) (t : EventType) (now : ℕ)
      → d.event_log ≡ some logs
      → Shows m s.entries logs d.event_log_idx
      → d.auto_refresh_frames ≡ s.frames
      → Refines m
          (record {
            entries =
                if leaves_out t c (frames_after c s.frames) s.entries
                then s.entries
                else record { kind = t; ts_nsec = now } ∷ s.entries;
            frames = frames_after c s.frames;
          })
          (let (r, d') = route c d in store m r t now logs d')
  unfolding route leaves_out store
  routed-Refines frame_start s logs d t now e sh ef = rw (ef) (
      frame-Refines s logs (record d { auto_refresh_frames = u32 (suc s.frames) }) t now _ e sh
        refl)
  routed-Refines frame_end s logs d t now e sh ef =
      simp (ef) (frame-Refines s logs d t now s.frames e sh ef)
  routed-Refines te s logs d t now e sh ef = limit-Refines s logs d t now s.frames e sh ef
  routed-Refines underrun s logs d t now e sh ef =
      limit-Refines s logs (record d { underrun_cnt = _ }) t now s.frames e sh ef
  routed-Refines crc s logs d t now e sh ef =
      limit-Refines s logs (record d { crc_cnt = _ }) t now s.frames e sh ef
  routed-Refines ecc s logs d t now e sh ef =
      limit-Refines s logs (record d { ecc_cnt = _ }) t now s.frames e sh ef
  routed-Refines idma_error s logs d t now e sh ef =
      limit-Refines s logs (record d { idma_err_cnt = _ }) t now s.frames e sh ef
  routed-Refines default s logs d t now e sh ef =
      put-Refines m s logs d t now s.frames dv h1 hm sh ef

  log_call-Refines :
      (c : Call) (s : History) (d : Debug)
      → Refines m s d
      → Refines m (record_call c s) (log_call m c d)
  unfolding Refines log_call record_call dpu_event_log event_log_atomic_commit event_log_cmd
  log_call-Refines (event t now) s d (logs, e, sh, ef) =
      simp (e) (routed-Refines (case_of t) s logs d t now e sh ef)
  log_call-Refines (commit now) s d (logs, e, sh, ef) = simp (e) (
      let (x, e', sh', _) = put-Refines m s logs d atomic_commit now s.frames dv h1 hm sh ef in
      (x, e', sh', refl))
  log_call-Refines (command now) s d (logs, e, sh, ef) =
      simp (e) (put-Refines m s logs d dsim_command now s.frames dv h1 hm sh ef)

  log_calls-Refines :
      (cs : List Call) (s : History) (d : Debug)
      → Refines m s d
      → Refines m (record_calls cs s) (log_calls m cs d)
  unfolding log_calls record_calls
  log_calls-Refines [] s d r = r
  log_calls-Refines (c ∷ cs) s d r =
      log_calls-Refines cs (record_call c s) (log_call m c d) (log_call-Refines c s d r)

init-Refines :
    (m : ℕ) (has_memory : ℕ → Bool)
    → has_memory m ≡ true
    → Refines m start (init_event_log m has_memory)
unfolding Refines Shows init_event_log alloc_event_log
init-Refines m has_memory ok = (
  replicate m blank,
  rw (div-one m, ok) refl,
  (length-replicate m blank, λ k hk. get_or-replicate m _ blank),
  refl,
)

-- Where the ring is allocated at the first try, with a size that divides 2 ^ 32 and is above 2 and
-- at most 2 ^ 31, then after any calls it shows, at every offset from the latest entry, the history
-- of the events: all of them, newest first, but those of a frame after more than three frames
-- without a commit, and those of a limited type that fills the last three entries. In that history
-- no limited type stands four times in a row.
pub log_calls-History :
    (m : ℕ) (has_memory : ℕ → Bool) (cs : List Call)
    → m ∣ 4294967296
    → 2 < m
    → m ≤ 2147483648
    → has_memory m ≡ true
    → Refines m (record_calls cs start) (log_calls m cs (init_event_log m has_memory))
      × Quiet (record_calls cs start).entries
unfolding Quiet
log_calls-History m has_memory cs dv h1 hm ok = (
  log_calls-Refines m dv h1 hm cs start _ (init-Refines m has_memory ok),
  record_calls-Quiet cs start tt,
)
