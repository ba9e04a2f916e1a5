-- ===== src/Partial/Prepare.antt =====
-- exynos_partial_prepare: the region of a commit, and whether its planes move to it.
use google_modules_display_s.Prelude.{
  ◌≡◌, ◌≢◌, ◌↔◌, ◌⊎◌, inl, inr, refl, sym, ap, Option, List, [], ◌∷◌, Bool, true, false, not, arith,
  Bool-cases,
}
use google_modules_display_s.Partial.{
  Rect, Partial, Plane, RectOps, CrtcState, full, requested, settle, with_region, prepare,
  blobs_differ,
}

-- What drm_rect_equals is documented to be.
pub record RectLaws (ops : RectOps) : Type 0 where
  pub equals_iff : (a b : Rect) → (ops.equals a b ≡ true) ↔ (a ≡ b)

-- The mark says whether the region is a part of the panel.
abbrev pub Marked : RectOps → CrtcState → Type 0
Marked ops s = s.needs_reconfigure ≡ not (ops.equals (full s.mode) s.partial_region)

settle-Marked : (ops : RectOps) (s : CrtcState) → Marked ops (settle ops s)
unfolding settle
settle-Marked ops s = refl

with_region-Marked :
    (ops : RectOps) (changed : Bool) (s : CrtcState)
    → s.needs_reconfigure ≡ false
    → Marked ops (with_region ops changed s)
unfolding with_region settle
with_region-Marked ops changed s e = ground arith

-- The region that a commit with planes goes on with, and whether it changed.
pub record Goes (ops : RectOps) (pt : Partial) (old new : CrtcState) : Type 0 where
  pub region : Rect
  pub changed : Bool
  pub from :
      ((region ≡ new.partial_region) × (changed ≡ false))
      ⊎ ((region ≡ requested pt new) × (changed ≡ not (ops.equals region old.partial_region)))
  pub result :
      prepare ops pt old new
      ≡ with_region ops changed (record new { needs_reconfigure = false; partial_region = region })

abbrev pub Case : RectOps → Partial → CrtcState → CrtcState → Type 0
Case ops pt old new =
    ((new.needs_modeset ≡ true)
      × (prepare ops pt old new
          ≡ record new { needs_reconfigure = false; partial_region = full new.mode }))
    ⊎ ((new.needs_modeset ≡ false)
        × (new.planes ≡ [])
        × (prepare ops pt old new ≡ record new { needs_reconfigure = false }))
    ⊎ ((new.needs_modeset ≡ false) × Goes ops pt old new)

prepare-Goes :
    (ops : RectOps) (pt : Partial) (old new : CrtcState) (p : Option Plane)
    (ps : List (Option Plane))
    → new.needs_modeset ≡ false
    → new.planes ≡ p ∷ ps
    → Goes ops pt old new
unfolding prepare
prepare-Goes ops pt old new p ps e planes = elim (Bool-cases (blobs_differ old.blob new.blob)) [
  | inl differ ↦ record {
    region = requested pt new;
    changed = not (ops.equals (requested pt new) old.partial_region);
    from = inr (refl, refl);
    result = ground (arith, e, planes, differ);
  }
  | inr same ↦ record {
    region = new.partial_region;
    changed = false;
    from = inl (refl, refl);
    result = ground (arith, e, planes, same);
  }
]

List-cases :
    (xs : List (Option Plane))
    → (xs ≡ []) ⊎ ((p : Option Plane) × (ps : List (Option Plane)) × (xs ≡ p ∷ ps))
List-cases [] = inl refl
List-cases (p ∷ ps) = inr (p, ps, refl)

pub prepare-cases : (ops : RectOps) (pt : Partial) (old new : CrtcState) → Case ops pt old new
unfolding prepare
prepare-cases ops pt old new = elim (Bool-cases new.needs_modeset) [
  | inl e ↦ inl (e, ground (arith, e))
  | inr e ↦ elim (List-cases new.planes) [
    | inl none_there ↦ inr (inl (e, none_there, ground (arith, e, none_there)))
    | inr some_there ↦
        inr (inr (e, prepare-Goes ops pt old new some_there.0 some_there.1 e some_there.2))
  ]
]

-- Where a commit sets the mode or has planes, its state is marked to move the planes exactly if
-- the region is not the full one.
pub prepare-Marked :
    (ops : RectOps) (pt : Partial) (old new : CrtcState)
    → RectLaws ops
    → (new.needs_modeset ≡ true) ⊎ (new.planes ≢ [])
    → Marked ops (prepare ops pt old new)
prepare-Marked ops pt old new laws h = elim (prepare-cases ops pt old new) [
  | inl m ↦
      let same = (laws.equals_iff (full new.mode) (full new.mode)).1 refl in
      rw m.1 (ap not (sym same))
  | inr (inl n) ↦ ground (arith, n.0, n.1, h)
  | inr (inr g) ↦ rw g.1.result (with_region-Marked ops g.1.changed _ refl)
]
