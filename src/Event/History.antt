-- ===== src/Event/History.antt =====
-- The history of the events that the clients of the ring make, as the ring is meant to keep it.
use google_modules_display_s.Prelude.{
  ℕ, suc, ◌≡◌, refl, Bool, true, false, List, [], ◌∷◌, arith, u32, ltb, ◌==◌, if◌then◌else◌, get_or,
  Bool-cases, inl, inr, ◌&&◌,
}
use google_modules_display_s.Event.{
  Log, blank, Case, frame_start, frame_end, default, case_of, Call, event, commit, command,
}
use google_modules_display_s.Event.Kind.{EventType, number, atomic_commit, dsim_command}

-- The abstract log: the whole history, newest first, and the frames since the last commit.
pub record History : Type 0 where
  pub entries : List Log
  pub frames : ℕ

-- The last three entries are of this type.
unfoldable pub repeats : EventType → List Log → Bool
repeats t h = same 0 && (same 1 && same 2)
  where
    same : ℕ → Bool
    same k = number (get_or h k blank).kind == number t

abbrev pub is_frame : Case → Bool
is_frame frame_start = true
is_frame frame_end = true
is_frame _ = false

abbrev pub is_limited : Case → Bool
is_limited default = false
is_limited _ = true

abbrev pub frames_after : Case → ℕ → ℕ
frames_after frame_start frames = u32 (suc frames)
frames_after _ frames = frames

-- A frame after more than three without a commit is left out, and a limited type that fills the
-- last three entries.
unfoldable pub leaves_out : EventType → Case → ℕ → List Log → Bool
leaves_out t c frames h = if is_frame c && ltb 3 frames then true else is_limited c && repeats t h

unfoldable pub record_call : Call → History → History
record_call (event t now) s =
    let frames = frames_after (case_of t) s.frames in
    let entry : Log = record { kind = t; ts_nsec = now } in
    record {
      entries = if leaves_out t (case_of t) frames s.entries then s.entries else entry ∷ s.entries;
      frames = frames;
    }
record_call (commit now) s = record {
  entries = record { kind = atomic_commit; ts_nsec = now } ∷ s.entries;
  frames = 0;
}
record_call (command now) s = record s {
  entries = record { kind = dsim_command; ts_nsec = now } ∷ s.entries;
}

unfoldable pub record_calls : List Call → History → History
record_calls [] s = s
record_calls (c ∷ cs) s = record_calls cs (record_call c s)

-- Nothing logged yet.
abbrev pub start : History
start = record { entries = []; frames = 0 }

-- No limited type stands four times in a row.
unfoldable pub Quiet : List Log → Type 0
Quiet [] = Unit
Quiet (x ∷ h) = ((is_limited (case_of x.kind) && repeats x.kind h) ≡ false) × Quiet h

not_left_out :
    (t : EventType) (c : Case) (frames : ℕ) (h : List Log)
    → leaves_out t c frames h ≡ false
    → (is_limited c && repeats t h) ≡ false
unfolding leaves_out
not_left_out t c frames h e = elim (Bool-cases (is_frame c && ltb 3 frames)) [
  | inl r ↦ ground arith
  | inr r ↦ ground arith
]

record_call-Quiet : (c : Call) (s : History) → Quiet s.entries → Quiet (record_call c s).entries
unfolding Quiet record_call case_of
record_call-Quiet (event t now) s q =
    let frames = frames_after (case_of t) s.frames in
    elim (Bool-cases (leaves_out t (case_of t) frames s.entries)) [
      | inl r ↦ rw (r) q
      | inr r ↦ rw (r) (not_left_out t (case_of t) frames s.entries r, q)
    ]
record_call-Quiet (commit now) s q = (refl, q)
record_call-Quiet (command now) s q = (refl, q)

pub record_calls-Quiet :
    (cs : List Call) (s : History) → Quiet s.entries → Quiet (record_calls cs s).entries
unfolding record_calls
record_calls-Quiet [] s q = q
record_calls-Quiet (c ∷ cs) s q = record_calls-Quiet cs (record_call c s) (record_call-Quiet c s q)
