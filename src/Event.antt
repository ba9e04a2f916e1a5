-- ===== src/Event.antt =====
-- exynos_drm_debug.c, DPU_EVENT_LOG: the ring of the last events of a controller. The remarks that
-- an event carries (`log->data`) and the printing are left out.
pub mod History
pub mod Kind
pub mod Print
pub mod Recent
pub mod Refinement
mod Tests
use google_modules_display_s.Prelude.{
  ℕ, zero, suc, ◌+◌, ◌-◌, ◌/◌, ◌%◌, ◌^◌, Bool, true, false, Option, none, some, List, [], ◌∷◌, u32,
  ltb, ◌==◌, if◌then◌else◌, get_or, set, replicate,
}
use google_modules_display_s.Event.Kind.{
  EventType, number, none_evt, decon_framedone, decon_framestart, dsim_command, dsim_underrun,
  dsim_framedone, dpp_framedone, idma_afbc_conflict, idma_fbc_error, idma_read_slave_error,
  idma_deadlock, idma_cfg_error, atomic_commit, te_interrupt, dsim_crc, dsim_ecc,
}

-- `struct dpu_log` without its data; a fresh one is all 0.
pub record Log : Type 0 where
  pub kind : EventType
  pub ts_nsec : ℕ

abbrev pub blank : Log
blank = record { kind = none_evt; ts_nsec = 0 }

-- The part of `struct decon_debug` that the ring needs. The index is kept as the u32 that the
-- source makes of the atomic counter when it divides it by `dpu_event_log_max`.
pub record Debug : Type 0 where
  pub event_log : Option (List Log)
  pub event_log_idx : ℕ
  pub underrun_cnt : ℕ
  pub crc_cnt : ℕ
  pub ecc_cnt : ℕ
  pub idma_err_cnt : ℕ
  pub auto_refresh_frames : ℕ

-- DPU_EVENT_KEEP_CNT
abbrev pub keep_cnt : ℕ
keep_cnt = 3

-- DPU_EVENT_LOG_RETRY
abbrev pub event_log_retry : ℕ
event_log_retry = 3

-- `dpu_event_log_max`, the size of the ring, is `max_log`.
module _ (max_log : ℕ) where
  -- The entry at an offset before the latest.
  abbrev pub slot : ℕ → ℕ → ℕ
  slot latest offset = u32 (latest + max_log - offset) % max_log

  -- The loop of `dpu_event_ignore` over the offsets from `offset`, `left` of them.
  unfoldable pub all_same : EventType → List Log → ℕ → ℕ → ℕ → Bool
  all_same t logs latest offset zero = true
  all_same t logs latest offset (suc left) =
      let rest = all_same t logs latest (suc offset) left in
      if number (get_or logs (slot latest offset) blank).kind == number t then rest else false

  unfoldable pub event_ignore : EventType → Debug → Bool
  event_ignore t d = ignored d.event_log
    where
      ignored : Option (List Log) → Bool
      ignored none = true
      ignored (some logs) = all_same t logs (d.event_log_idx % max_log) 0 keep_cnt

  -- `dpu_event_get_next` at a time, and the write of the type at the end of DPU_EVENT_LOG.
  unfoldable pub put_next : EventType → ℕ → List Log → Debug → Debug
  put_next t now logs d =
      let idx = u32 (suc d.event_log_idx) in
      let entry : Log = record { kind = t; ts_nsec = now } in
      record d { event_log = some (set logs (idx % max_log) entry); event_log_idx = idx }

-- The cases of the first switch.
pub data Case : Type 0 where
  frame_start frame_end te underrun crc ecc idma_error default : Case

unfoldable pub case_of : EventType → Case
case_of decon_framestart = frame_start
case_of decon_framedone = frame_end
case_of dpp_framedone = frame_end
case_of dsim_framedone = frame_end
case_of te_interrupt = te
case_of dsim_underrun = underrun
case_of dsim_crc = crc
case_of dsim_ecc = ecc
case_of idma_afbc_conflict = idma_error
case_of idma_fbc_error = idma_error
case_of idma_read_slave_error = idma_error
case_of idma_deadlock = idma_error
case_of idma_cfg_error = idma_error
case_of _ = default

-- What it decides: return, go on with `skip_excessive`, or without.
pub data Route : Type 0 where
  drop_event limit_event keep_event : Route

abbrev pub frame_route : ℕ → Route
frame_route frames = if ltb 3 frames then drop_event else limit_event

unfoldable pub route : Case → Debug → Route × Debug
route frame_start d =
    let frames = u32 (suc d.auto_refresh_frames) in
    (frame_route frames, record d { auto_refresh_frames = frames })
route frame_end d = (frame_route d.auto_refresh_frames, d)
route te d = (limit_event, d)
route underrun d = (limit_event, record d { underrun_cnt = u32 (suc d.underrun_cnt) })
route crc d = (limit_event, record d { crc_cnt = u32 (suc d.crc_cnt) })
route ecc d = (limit_event, record d { ecc_cnt = u32 (suc d.ecc_cnt) })
route idma_error d = (limit_event, record d { idma_err_cnt = u32 (suc d.idma_err_cnt) })
route default d = (keep_event, d)

pub data Call : Type 0 where
  event : EventType → ℕ → Call
  commit command : ℕ → Call

-- DPU_EVENT_LOG for a controller that is there, at a time.
module _ (max_log : ℕ) where
  unfoldable pub store : Route → EventType → ℕ → List Log → Debug → Debug
  store drop_event t now logs d = d
  store keep_event t now logs d = put_next max_log t now logs d
  store limit_event t now logs d =
      if event_ignore max_log t d then d else put_next max_log t now logs d

  unfoldable pub dpu_event_log : EventType → ℕ → Debug → Debug
  dpu_event_log e now d = logged d.event_log
    where
      logged : Option (List Log) → Debug
      logged none = d
      logged (some logs) = let (r, d') = route (case_of e) d in store r e now logs d'

  -- DPU_EVENT_LOG_ATOMIC_COMMIT
  unfoldable pub event_log_atomic_commit : ℕ → Debug → Debug
  event_log_atomic_commit now d = logged d.event_log
    where
      logged : Option (List Log) → Debug
      logged none = d
      logged (some logs) = record (put_next max_log atomic_commit now logs d) {
        auto_refresh_frames = 0;
      }

  -- DPU_EVENT_LOG_CMD
  unfoldable pub event_log_cmd : ℕ → Debug → Debug
  event_log_cmd now d = logged d.event_log
    where
      logged : Option (List Log) → Debug
      logged none = d
      logged (some logs) = put_next max_log dsim_command now logs d

  -- The allocation of `dpu_init_debug`: `has_memory n` tells if vzalloc finds room for n entries.
  unfoldable pub alloc_event_log : (ℕ → Bool) → ℕ → ℕ → ℕ → Option (List Log)
  alloc_event_log has_memory event_cnt i zero = none
  alloc_event_log has_memory event_cnt i (suc left) =
      let cnt = event_cnt / 2 ^ i in
      let rest = alloc_event_log has_memory cnt (suc i) left in
      if has_memory cnt then some (replicate cnt blank) else rest

  -- No counter is set here: the device is allocated as 0.
  unfoldable pub init_event_log : (ℕ → Bool) → Debug
  init_event_log has_memory = record {
    event_log = alloc_event_log has_memory max_log 0 event_log_retry;
    event_log_idx = 4294967295;
    underrun_cnt = 0;
    crc_cnt = 0;
    ecc_cnt = 0;
    idma_err_cnt = 0;
    auto_refresh_frames = 0;
  }

  -- What other parts of the driver log, in the order in which they do, each at a time.
  unfoldable pub log_call : Call → Debug → Debug
  log_call (event e now) d = dpu_event_log e now d
  log_call (commit now) d = event_log_atomic_commit now d
  log_call (command now) d = event_log_cmd now d

  unfoldable pub log_calls : List Call → Debug → Debug
  log_calls [] d = d
  log_calls (c ∷ cs) d = log_calls cs (log_call c d)
