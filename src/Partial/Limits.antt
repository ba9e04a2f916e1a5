-- ===== src/Partial/Limits.antt =====
-- The limits of the planes' hardware that the region of a commit keeps.
use google_modules_display_s.Prelude.{
  ℕ, zero, suc, ◌≡◌, ◌≢◌, ◌⊎◌, inl, inr, refl, sym, ap, ◌∙◌, Option, some, none, List, [], ◌∷◌,
  Bool, true, false, not, arith, get_elem?, Bool-cases, ◌/◌, ◌%◌, ◌*◌, ◌≤◌, u32, if◌then◌else◌,
}
use google_modules_display_s.Format.{is_yuv}
use mathlib.Core.Option.{some-injective}
use mathlib.Core.Bool.{true≢false}
use google_modules_display_s.Partial.{
  Rect, Mode, Partial, Plane, RectOps, CrtcState, is_partial_supported, plane_scaling, adjusted_src,
  check_planes, full, settle, with_region, prepare,
}
use google_modules_display_s.Partial.Prepare.{RectLaws, Goes, prepare-cases}

-- What the hardware of a plane wants of a region that cuts it to `w` by `h`: it is neither rotated nor
-- scaled, its new start in a YUV buffer is even, and what is left is not below its least size,
-- doubled for YUV.
pub record Cuttable (p : Plane) (w h : ℕ) (r : Rect) : Type 0 where
  pub upright : p.rotated ≡ false
  pub unscaled : (p.src_w / 65536 ≡ p.crtc_w) × (p.src_h / 65536 ≡ p.crtc_h)
  pub even :
      is_yuv p.fmt ≡ true
      → (adjusted_src p.src_x p.crtc_x r.x1 % 2 ≡ 0) × (adjusted_src p.src_y p.crtc_y r.y1 % 2 ≡ 0)
  pub wide : u32 (p.min_f_w * (if is_yuv p.fmt then 2 else 1)) ≤ w
  pub high : u32 (p.min_f_h * (if is_yuv p.fmt then 2 else 1)) ≤ h

is_partial_supported-Cuttable :
    (p : Plane) (w h : ℕ) (r : Rect) → is_partial_supported p w h r ≡ true → Cuttable p w h r
unfolding is_partial_supported plane_scaling
is_partial_supported-Cuttable p w h r e = record {
  upright = ground (arith, e);
  unscaled = ground (arith, e);
  even = λ y. ground (arith, e, y);
  wide = ground (arith, e);
  high = ground (arith, e);
}

-- Every plane that meets the region can be cut to it, and none has a state that is an error.
pub record Supported (ops : RectOps) (ps : List (Option Plane)) (r : Rect) : Type 0 where
  pub plane :
      (i : ℕ) (p : Plane) (w h : ℕ)
      → get_elem? ps i ≡ some (some p)
      → ops.intersect p r ≡ some (w, h)
      → Cuttable p w h r
  pub states : (i : ℕ) → get_elem? ps i ≡ some none → ⊥

check_rest :
    (ops : RectOps) (q : Option Plane) (ps : List (Option Plane)) (r : Rect)
    → check_planes ops (q ∷ ps) r ≡ true
    → check_planes ops ps r ≡ true
unfolding check_planes
check_rest ops none ps r e = ground arith
check_rest ops (some p) ps r e = ground arith

check_head :
    (ops : RectOps) (p : Plane) (ps : List (Option Plane)) (r : Rect) (w h : ℕ)
    → check_planes ops (some p ∷ ps) r ≡ true
    → ops.intersect p r ≡ some (w, h)
    → is_partial_supported p w h r ≡ true
unfolding check_planes
check_head ops p ps r w h e i = ground (arith, i)

check_all :
    (ops : RectOps) (ps : List (Option Plane)) (r : Rect)
    → check_planes ops ps r ≡ true
    → (i : ℕ) (p : Plane) (w h : ℕ) → get_elem? ps i ≡ some (some p)
    → ops.intersect p r ≡ some (w, h)
    → is_partial_supported p w h r ≡ true
check_all ops [] r e i p w h at meet = ground arith
check_all ops (q ∷ ps) r e zero p w h at meet =
    check_head ops p ps r w h (rw (some-injective q (some p) at) at e) meet
check_all ops (q ∷ ps) r e (suc i) p w h at meet =
    check_all ops ps r (check_rest ops q ps r e) i p w h at meet

check_states :
    (ops : RectOps) (ps : List (Option Plane)) (r : Rect)
    → check_planes ops ps r ≡ true
    → (i : ℕ) → get_elem? ps i ≡ some none
    → ⊥
unfolding check_planes
check_states ops [] r e i at = ground (arith, at)
check_states ops (none ∷ ps) r e i at = ground (arith, e)
check_states ops (some p ∷ ps) r e zero at = ground (arith, at)
check_states ops (some p ∷ ps) r e (suc i) at =
    check_states ops ps r (check_rest ops (some p) ps r e) i at

full-equals : (ops : RectOps) → RectLaws ops → (m : Mode) → ops.equals (full m) (full m) ≡ true
full-equals ops laws m = (laws.equals_iff (full m) (full m)).1 refl

settle-check :
    (ops : RectOps) (s : CrtcState)
    → RectLaws ops
    → (settle ops s).needs_reconfigure ≡ true
    → check_planes ops s.planes (settle ops s).partial_region ≡ true
unfolding settle
settle-check ops s laws n =
    let f = full-equals ops laws s.mode in
    elim (Bool-cases (check_planes ops s.planes s.partial_region)) [
      | inl yes_all ↦ ground (arith, yes_all)
      | inr fails ↦ ground (arith, fails, f, n)
    ]

with_region-check :
    (ops : RectOps) (c : Bool) (s : CrtcState)
    → RectLaws ops
    → s.needs_reconfigure ≡ false
    → (c ≡ true) ⊎ (s.planes_changed ≡ true)
    → (with_region ops c s).needs_reconfigure ≡ true
    → check_planes ops s.planes (with_region ops c s).partial_region ≡ true
unfolding with_region
with_region-check ops true s laws off h n = settle-check ops _ laws n
with_region-check ops false s laws off (inl h) n = ground arith
with_region-check ops false s laws off (inr h) n =
    elim (Bool-cases (ops.equals (full s.mode) s.partial_region)) [
      | inl whole ↦ ground (arith, h, whole, off, n)
      | inr part ↦
          let same : with_region ops false s ≡ settle ops s = ground (arith, h, part) in
          rw same (settle-check ops s laws (rw same at n))
    ]

same_region :
    (ops : RectOps) (s : CrtcState)
    → s.planes_changed ≡ false
    → (with_region ops false s).partial_region ≡ s.partial_region
unfolding with_region
same_region ops s e = ground (arith, e)

-- Without a change of the planes, a region that stays is that of the old state.
region_check :
    (ops : RectOps) (c : Bool) (s : CrtcState) (before : Rect)
    → RectLaws ops
    → s.needs_reconfigure ≡ false
    → (c ≡ true) ⊎ (s.partial_region ≡ before)
    → (s.planes_changed ≡ true) ⊎ ((with_region ops c s).partial_region ≢ before)
    → (with_region ops c s).needs_reconfigure ≡ true
    → check_planes ops s.planes (with_region ops c s).partial_region ≡ true
region_check ops c s before laws off (inl e) h n = with_region-check ops c s laws off (inl e) n
region_check ops c s before laws off (inr at) (inl h) n =
    with_region-check ops c s laws off (inr h) n
region_check ops true s before laws off (inr at) (inr h) n =
    with_region-check ops true s laws off (inl refl) n
region_check ops false s before laws off (inr at) (inr h) n = elim (Bool-cases s.planes_changed) [
  | inl moved ↦ with_region-check ops false s laws off (inr moved) n
  | inr still ↦ absurd (h (same_region ops s still ∙ at))
]

Goes-from :
    (ops : RectOps) (pt : Partial) (old new : CrtcState)
    → RectLaws ops
    → new.partial_region ≡ old.partial_region
    → (g : Goes ops pt old new) → (g.changed ≡ true) ⊎ (g.region ≡ old.partial_region)
Goes-from ops pt old new laws copy g = elim (g.from) [
  | inl kept ↦ inr (kept.0 ∙ copy)
  | inr asked ↦ elim (Bool-cases (ops.equals g.region old.partial_region)) [
    | inl same ↦ inr ((laws.equals_iff g.region old.partial_region).0 same)
    | inr other ↦ inl (asked.1 ∙ ap not other)
  ]
]

Goes-check :
    (ops : RectOps) (pt : Partial) (old new : CrtcState)
    → RectLaws ops
    → new.partial_region ≡ old.partial_region
    → Goes ops pt old new
    → (new.planes_changed ≡ true) ⊎ ((prepare ops pt old new).partial_region ≢ old.partial_region)
    → (prepare ops pt old new).needs_reconfigure ≡ true
    → check_planes ops new.planes (prepare ops pt old new).partial_region ≡ true
Goes-check ops pt old new laws copy g h n = rw g.result (
    region_check ops g.changed _ old.partial_region laws refl (Goes-from ops pt old new laws copy g)
      (rw g.result at h) (rw g.result at n))

-- If the planes of a commit are marked to move, and the planes or the region changed, then every plane
-- that meets the final region is neither rotated nor scaled, starts even in a YUV buffer and is large
-- enough for its hardware when it is cut to the region, and the state of no plane is an error.
-- Condition: the new state started with the region of the old one.
pub prepare-Supported :
    (ops : RectOps) (pt : Partial) (old new : CrtcState)
    → RectLaws ops
    → new.partial_region ≡ old.partial_region
    → (new.planes_changed ≡ true) ⊎ ((prepare ops pt old new).partial_region ≢ old.partial_region)
    → (prepare ops pt old new).needs_reconfigure ≡ true
    → Supported ops new.planes (prepare ops pt old new).partial_region
prepare-Supported ops pt old new laws copy h n = elim (prepare-cases ops pt old new) [
  | inl m ↦ absurd (true≢false (sym n ∙ ap (λ (s : CrtcState). s.needs_reconfigure) m.1))
  | inr (inl m) ↦ absurd (true≢false (sym n ∙ ap (λ (s : CrtcState). s.needs_reconfigure) m.2))
  | inr (inr g) ↦ record {
    plane = λ i p w height at meet. is_partial_supported-Cuttable p w height _ (
        check_all ops new.planes _ (Goes-check ops pt old new laws copy g.1 h n) i p w height at
          meet);
    states = check_states ops new.planes _ (Goes-check ops pt old new laws copy g.1 h n);
  }
]
