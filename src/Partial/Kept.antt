-- ===== src/Partial/Kept.antt =====
-- The region of a commit stays one that the panel takes.
use google_modules_display_s.Prelude.{
  ◌≡◌, ◌≤◌, ◌<◌, ◌⊎◌, inl, inr, refl, sym, ap, ◌∙◌, none, some, ℕ, Bool, true, false, arith,
  Option-cases,
}
use mathlib.Core.Bool.{true≢false}
use google_modules_display_s.Partial.{
  Rect, Mode, Partial, RectOps, CrtcState, full, adjust_region, DisplayPartial, partial_init,
  requested, settle, with_region, prepare,
}
use google_modules_display_s.Partial.Region.{
  Fits, Divides, adjust_region-some, partial_init-Divides,
}
use google_modules_display_s.Partial.Prepare.{Goes, prepare-cases}

-- The kept region is the one the commit went on with, or the full one.
with_region-region :
    (ops : RectOps) (c : Bool) (s : CrtcState)
    → ((with_region ops c s).partial_region ≡ s.partial_region)
      ⊎ ((with_region ops c s).partial_region ≡ full s.mode)
unfolding with_region settle
with_region-region ops c s = ground arith

-- A region as the panel takes it, which does not end above its start.
pub record Whole (pt : Partial) (mode : Mode) (r : Rect) : Type 0 where
  pub fits : Fits pt mode r
  pub ordered : r.y1 ≤ r.y2

-- The region that a commit asks for, if any, does not end above its start.
abbrev pub Ordered : CrtcState → Type 0
Ordered new = (q : ℕ × Rect) → new.blob ≡ some q → q.1.y1 ≤ q.1.y2

full-Whole : (pt : Partial) (mode : Mode) → Divides pt mode → Whole pt mode (full mode)
unfolding full
full-Whole pt mode d = record {
  fits = record {
    left = refl;
    right = refl;
    top = let p = d.positive in omega arith;
    bottom = d.rows;
    inside = omega arith;
  };
  ordered = omega arith;
}

requested-Whole :
    (pt : Partial) (new : CrtcState)
    → Divides pt new.mode
    → new.mode.vdisplay < 65536
    → pt.min_h ≤ 65536
    → Ordered new
    → Whole pt new.mode (requested pt new)
unfolding requested
requested-Whole pt new d small step asked = elim (Option-cases new.blob) [
  | inl n ↦
      let e : requested pt new ≡ full new.mode = ground (arith, n) in
      rw e (full-Whole pt new.mode d)
  | inr b ↦
      let at = b.1 in
      elim (Option-cases (adjust_region pt new.mode b.0.1)) [
        | inl n ↦
            let e : requested pt new ≡ full new.mode = ground (arith, at, n) in
            rw e (full-Whole pt new.mode d)
        | inr r ↦
            let found = r.1 in
            let e : requested pt new ≡ r.0 = ground (arith, at, found) in
            rw e (
              let w = adjust_region-some pt new.mode b.0.1 r.0 d small step found in
              record { fits = w.fits; ordered = omega (arith, w.covers, asked b.0 b.1) })
      ]
]

Goes-Whole :
    (ops : RectOps) (pt : Partial) (old new : CrtcState)
    → Divides pt new.mode
    → new.mode.vdisplay < 65536
    → pt.min_h ≤ 65536
    → Ordered new
    → Whole pt new.mode new.partial_region
    → (g : Goes ops pt old new) → Whole pt new.mode (prepare ops pt old new).partial_region
Goes-Whole ops pt old new d small step asks start g =
    let region : Whole pt new.mode g.region = elim (g.from) [
      | inl kept ↦ rw kept.0 start
      | inr asked ↦ rw asked.0 (requested-Whole pt new d small step asks)
    ] in
    elim (with_region-region ops g.changed
      (record new { needs_reconfigure = false; partial_region = g.region })) [
        | inl e ↦ rw (ap (λ (s : CrtcState). s.partial_region) g.result ∙ e) region
        | inr e ↦
            rw (ap (λ (s : CrtcState). s.partial_region) g.result ∙ e) (full-Whole pt new.mode d)
      ]

started :
    (pt : Partial) (new : CrtcState)
    → new.needs_modeset ≡ false
    → (new.needs_modeset ≡ true) ⊎ Whole pt new.mode new.partial_region
    → Whole pt new.mode new.partial_region
started pt new off (inl on) = absurd (true≢false (sym on ∙ off))
started pt new off (inr fits) = fits

-- Under block sizes that exynos_partial_init accepts for the mode, the region of a commit consists of
-- whole blocks of lines from its first to its last inside the panel, over its whole width. Conditions:
-- the region that is asked for, if any, does not end above its start, the commit sets the mode or
-- started with such a region, the panel has less than 2 ^ 16 lines, and a block at most 2 ^ 16.
pub prepare-Whole :
    (ops : RectOps) (pm : DisplayPartial) (pt : Partial) (old new : CrtcState)
    → partial_init pm new.mode ≡ (none, pt)
    → new.mode.vdisplay < 65536
    → pt.min_h ≤ 65536
    → Ordered new
    → (new.needs_modeset ≡ true) ⊎ Whole pt new.mode new.partial_region
    → Whole pt new.mode (prepare ops pt old new).partial_region
prepare-Whole ops pm pt old new init small step asks start =
    let d = partial_init-Divides pm new.mode pt init in
    elim (prepare-cases ops pt old new) [
      | inl m ↦ rw (ap (λ (s : CrtcState). s.partial_region) m.1) (full-Whole pt new.mode d)
      | inr (inl m) ↦ rw (ap (λ (s : CrtcState). s.partial_region) m.2) (started pt new m.0 start)
      | inr (inr g) ↦ Goes-Whole ops pt old new d small step asks (started pt new g.0 start) g.1
    ]
