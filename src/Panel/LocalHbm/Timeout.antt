-- ===== src/Panel/LocalHbm/Timeout.antt =====
-- No local high brightness mode without a timeout, over any row of requests.
use google_modules_display_s.Prelude.{
  ℕ, ◌<◌, ◌≡◌, Bool, true, false, not, ◌&&◌, ◌||◌, some, arith, ◌==◌,
}
use google_modules_display_s.Panel.LocalHbm.{
  disabled, LhbmDesc, is_disabled, refuses, Panel, request, resume, expire, timeout_work,
  disable_feat, post_work,
}
use google_modules_display_s.Panel.LocalHbm.Updates.{
  knows_mode, Guarded, turned_off-Guarded, turned_on-Guarded, fired-Guarded, resumed-Guarded,
  worked-Guarded, feat_disabled-Guarded,
}

-- A panel, and whether two things met that the driver does not keep apart: a request or a timeout that
-- turns LHBM off while the disabling of the panel waits, the disabling while an update waits, or a
-- request to turn LHBM on that is refused while an update waits.
pub record World : Type 0 where
  pub panel : Panel
  pub overlapped : Bool

abbrev pub fresh : Panel → World
fresh p = record { panel = p; overlapped = false }

abbrev pub becomes : World → Bool → Panel → World
becomes w overlaps p = record { panel = p; overlapped = w.overlapped || overlaps }

unfoldable pub is_refused_amid : LhbmDesc → Panel → Bool
is_refused_amid d p =
    not (p.waiting == 0)
    && is_disabled p.hbm.effective
    && refuses d (record p.hbm { requested = true })

-- Another update goes on before the one of the disabling, if both wait.
unfoldable pub pass : LhbmDesc → Panel → Panel
pass d p = record (resume d (record p { restores = false })) { restores = true }

-- All that happens to LHBM, in any order. A timeout that ends while the work of the one before waits
-- for the lock stays queued behind it.
pub data Step (d : LhbmDesc) : World → World → Type 0 where
  turned_off : (w : World) → Step d w (becomes w w.panel.restores (request d false w.panel))
  turned_on :
      (w : World) → Step d w (becomes w (is_refused_amid d w.panel) (request d true w.panel))
  expired :
      (w : World)
      → w.panel.hbm.timeout_queued ≡ true
      → w.panel.firing ≡ false
      → Step d w (becomes w false (expire w.panel))
  fired :
      (w : World)
      → w.panel.firing ≡ true
      → Step d w (becomes w w.panel.restores (timeout_work d w.panel))
  resumed : (w : World) → 0 < w.panel.waiting → Step d w (becomes w false (resume d w.panel))
  passed :
      (w : World)
      → w.panel.restores ≡ true
      → 1 < w.panel.waiting
      → Step d w (becomes w false (pass d w.panel))
  feat_disabled :
      (w : World) → Step d w (becomes w (not (w.panel.waiting == 0)) (disable_feat d w.panel))
  worked :
      (w : World)
      → w.panel.hbm.post_queued ≡ true
      → Step d w (becomes w false (record w.panel { hbm = post_work d w.panel.hbm }))
  mode_set :
      (v : ℕ) (w : World)
      → Step d w
          (becomes w false (record w.panel { hbm = record w.panel.hbm { current_mode = some v } }))

pub data Reach (d : LhbmDesc) (w : World) : World → Type 0 where
  here : Reach d w w
  next : {u v : World} → Reach d w u → Step d u v → Reach d w v

-- Two that meet are remembered.
neither : (a b : Bool) → (a || b) ≡ false → (a ≡ false) × (b ≡ false)
neither a b e = ground arith

Step-before :
    {d : LhbmDesc} {v w : World} → Step d v w → w.overlapped ≡ false → v.overlapped ≡ false
Step-before (turned_off w) o = (neither _ _ o).0
Step-before (turned_on w) o = (neither _ _ o).0
Step-before (expired w t f) o = (neither _ _ o).0
Step-before (fired w f) o = (neither _ _ o).0
Step-before (resumed w h) o = (neither _ _ o).0
Step-before (passed w b h) o = (neither _ _ o).0
Step-before (feat_disabled w) o = (neither _ _ o).0
Step-before (worked w q) o = (neither _ _ o).0
Step-before (mode_set v w) o = (neither _ _ o).0

Step-Guarded :
    {d : LhbmDesc} {v w : World}
    → Step d v w
    → w.overlapped ≡ false
    → Guarded d v.panel
    → Guarded d w.panel
unfolding is_refused_amid
Step-Guarded {d} (turned_off w) o g = turned_off-Guarded d w.panel (neither w.overlapped _ o).1 g
Step-Guarded {d} (turned_on w) o g =
    let n = (neither w.overlapped _ o).1 in turned_on-Guarded d w.panel (ground arith) g
Step-Guarded {d} (expired w t f) o g = ground arith
Step-Guarded {d} (fired w f) o g = fired-Guarded d w.panel (neither w.overlapped _ o).1 g
Step-Guarded {d} (resumed w h) o g = resumed-Guarded d w.panel h g
Step-Guarded {d} (passed w b h) o g = let a = g.alone in absurd (ground arith)
Step-Guarded {d} (feat_disabled w) o g =
    let n = (neither w.overlapped _ o).1 in feat_disabled-Guarded d w.panel (ground arith) g
Step-Guarded {d} (worked w q) o g = worked-Guarded d w.panel g
Step-Guarded {d} (mode_set v w) o g = ground arith

-- LHBM is off, nothing waits, and there is a mode.
pub record IsDark (p : Panel) : Type 0 where
  pub dark : p.hbm.effective ≡ disabled
  pub nobody : p.waiting ≡ 0
  pub no_restore : p.restores ≡ false
  pub has_mode : knows_mode p.hbm.current_mode ≡ true

-- From LHBM that is off, with a current mode, whatever requests, modes, timeouts, works and disablings
-- of the panel follow in any order: as long as no request or timeout turned LHBM off while the disabling
-- waited, no disabling came while an update waited, and no request to turn LHBM on was refused while
-- one waited, LHBM is on only with a timeout that is queued or about to run, or while an update waits to
-- turn it off; and one that is requested again while an update waits has such a timeout.
pub Reach-Guarded :
    {d : LhbmDesc} {p : Panel} {w : World}
    → IsDark p
    → Reach d (fresh p) w
    → w.overlapped ≡ false
    → Guarded d w.panel
Reach-Guarded {d} {p} i here o = ground arith
Reach-Guarded i (next path step) o = Step-Guarded step o (Reach-Guarded i path (Step-before step o))
