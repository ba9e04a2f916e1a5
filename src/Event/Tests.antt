-- ===== src/Event/Tests.antt =====
-- A ring of 4 entries that has gone round, with an event left out.
use native.Mathlib.Nat.{dvd-mul_right}
use google_modules_display_s.Prelude.{◌==◌, ℕ, refl, Bool, true, List, [], ◌∷◌, arith}
use google_modules_display_s.Event.{Call, event, commit, command, init_event_log, log_calls}
use google_modules_display_s.Event.Kind.{
  EventType, number, atomic_commit, te_interrupt, decon_enabled,
}
use google_modules_display_s.Event.History.{record_calls, start, Quiet}
use google_modules_display_s.Event.Refinement.{Refines, log_calls-History}

abbrev enough : ℕ → Bool
enough n = true

abbrev calls : List Call
calls =
    event decon_enabled 10
    ∷ event te_interrupt 11
    ∷ event te_interrupt 12
    ∷ event te_interrupt 13
    ∷ event te_interrupt 14
    ∷ commit 15
    ∷ command 16
    ∷ event te_interrupt 17
    ∷ []

log_calls-History_example :
    Refines 4 (record_calls calls start) (log_calls 4 calls (init_event_log 4 enough))
    × Quiet (record_calls calls start).entries
log_calls-History_example =
    log_calls-History 4 enough calls (dvd-mul_right 4 1073741824) (omega arith) (omega arith) refl

abbrev no_commits : EventType → Bool
no_commits t = number t == number atomic_commit
