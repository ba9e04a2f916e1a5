-- ===== src/Decon/Flip/Acts.antt =====
-- The life of frames on a display controller, as a row of acts.
use google_modules_display_s.Prelude.{Bool, ℕ, Option, none, some, List, [], ◌∷◌}
use google_modules_display_s.Hibernation.{DeconState}
use google_modules_display_s.Decon.Flip.State.{FlipState}
use google_modules_display_s.Decon.Flip.{
  Commit, atomic_flush, check_fs_pending, irq_handler, te_irq_handler, Wait, wait_for_flip_done,
}

-- All that happens to a frame: a flush, an interrupt, a wait, or the controller changes its state.
pub data Act : Type 0 where
  flush : Commit → Act
  frame_start : Bool → Act
  irq : Bool → Bool → Bool → Act
  te : Bool → Act
  wait : Wait → Act
  switch : DeconState → Act

unfoldable pub act : Act → FlipState → FlipState × Option ℕ
act (flush c) s = atomic_flush c s
act (frame_start pending) s = ((check_fs_pending pending s).1, none)
act (irq done start end) s = (irq_handler done start end s, none)
act (te ignored) s = (te_irq_handler ignored s, none)
act (wait w) s = (wait_for_flip_done w s, none)
act (switch d) s = (record s { state = d }, none)

-- A row of acts, with the events that stay in a CRTC state.
abbrev pub keep : Option ℕ → List ℕ → List ℕ
keep none es = es
keep (some e) es = e ∷ es

unfoldable pub run : List Act → FlipState → FlipState × List ℕ
run [] s = (s, [])
run (a ∷ rest) s = let (t, left) = act a s in let (u, es) = run rest t in (u, keep left es)

-- The event that an act hands over.
abbrev pub handed : Act → Option ℕ
handed (flush c) = c.event
handed _ = none
