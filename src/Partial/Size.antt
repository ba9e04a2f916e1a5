-- ===== src/Partial/Size.antt =====
-- The timing and the slices for an updated region.
use google_modules_display_s.Prelude.{
  ℕ, zero, suc, ◌+◌, ◌-◌, ◌*◌, ◌^◌, ◌≡◌, ◌≤◌, ◌<◌, refl, sym, ap, ◌∙◌, some, List, [], ◌∷◌, Bool,
  true, false, arith, if◌then◌else◌, replicate, leb, ◌&&◌,
}
use google_modules_display_s.Partial.{
  Rect, Mode, Partial, RectOps, Decon, Timing, Effect, partial_timing, included_slices, set_size,
}
use google_modules_display_s.Partial.Region.{Fits}

-- The region of a frame takes as long as the whole panel: the porches make up for its size.
pub record SameTime (t p : Timing) : Type 0 where
  pub lines : p.vactive + p.vfp ≡ t.vactive + t.vfp
  pub clocks : t.dsc_enabled ≡ false → p.hactive + p.hfp ≡ t.hactive + t.hfp

partial_timing-SameTime :
    (t : Timing) (w h : ℕ)
    → w ≤ t.hactive
    → h ≤ t.vactive
    → t.hactive + t.hfp < 2 ^ 32
    → t.vactive + t.vfp < 2 ^ 32
    → SameTime t (partial_timing t w h)
unfolding partial_timing
partial_timing-SameTime t w h lw lh fw fh = record {
  lines = ground arith;
  clocks = λ e. ground arith;
}

-- What the kernel documents of the size of a rectangle.
pub record SizeLaws (ops : RectOps) : Type 0 where
  pub width : (r : Rect) → r.x1 ≤ r.x2 → ops.width r ≡ r.x2 - r.x1
  pub height : (r : Rect) → r.y1 ≤ r.y2 → ops.height r ≡ r.y2 - r.y1

-- A region over the whole width has every slice.
all_slices :
    (n i w : ℕ) (r : Rect)
    → r.x1 ≡ 0
    → w * (i + n) ≤ r.x2
    → included_slices n i w r ≡ replicate n true
unfolding included_slices
all_slices zero i w r left fits = refl
all_slices (suc n) i w r left fits =
    let one : w * i + w ≤ w * (i + suc n) = grind arith in
    let same : i + suc n ≡ suc i + n = omega arith in
    let ih = all_slices n (suc i) w r left (rw (sym same) fits) in
    let inside : (leb r.x1 (w * i) && leb (w * i + w) r.x2) ≡ true = ground arith in
    rw inside (ap (λ (l : List Bool). true ∷ l) ih)

-- What is written for a region: the first effects, with what follows.
pub record Written (t : Timing) (d : Decon) (r : Rect) (es : List Effect) : Type 0 where
  pub timing : Timing
  pub rest : List Effect
  pub effects :
      es
      ≡ Effect.dsim_partial timing
        ∷ Effect.decon_partial (replicate d.slice_count true) r.x2 (r.y2 - r.y1)
        ∷ rest
  pub lines : timing.vactive ≡ r.y2 - r.y1
  pub same_time : SameTime t timing

abbrev effects_of : RectOps → Decon → Timing → Rect → List Bool → ℕ → ℕ → List Effect
effects_of ops d t r slices w h =
    Effect.dsim_partial (partial_timing t (ops.width r) (ops.height r))
    ∷ Effect.decon_partial slices w h
    ∷ (if d.dqe then Effect.dqe_size (ops.width r) (ops.height r) ∷ [] else [])

-- For a region over the whole width of the panel and inside it, which does not end above its start, the
-- DSI host is given the lines of the region and porches with which a frame takes as many lines and,
-- without DSC, as many clocks of a line as before; the controller is given every slice. Conditions: the
-- host's timing is the mode's, with sums below 2 ^ 32, and the slices fit in its width.
pub set_size-Written :
    (ops : RectOps) (pt : Partial) (mode : Mode) (d : Decon) (t : Timing) (r : Rect)
    → SizeLaws ops
    → d.dsim ≡ some t
    → t.hactive ≡ mode.hdisplay
    → t.vactive ≡ mode.vdisplay
    → t.hactive + t.hfp < 2 ^ 32
    → t.vactive + t.vfp < 2 ^ 32
    → d.slice_width * d.slice_count ≤ mode.hdisplay
    → Fits pt mode r
    → r.y1 ≤ r.y2
    → Written t d r (set_size ops d r)
unfolding set_size partial_timing
set_size-Written ops pt mode d t r laws host h_same v_same h_fits v_fits slices fits ordered =
    let left = fits.left in
    let right = fits.right in
    let w : ops.width r ≡ r.x2 = laws.width r (omega (arith, left)) ∙ omega (arith, left) in
    let h = laws.height r ordered in
    let all = all_slices d.slice_count 0 d.slice_width r left (omega (arith, slices, right)) in
    let form : set_size ops d r
        ≡ effects_of ops d t r (included_slices d.slice_count 0 d.slice_width r) (ops.width r)
            (ops.height r) =
      ground (arith, host) in
    record {
      timing = partial_timing t (ops.width r) (ops.height r);
      rest = if d.dqe then Effect.dqe_size (ops.width r) (ops.height r) ∷ [] else [];
      effects =
          form
          ∙ ap (λ (l : List Bool). effects_of ops d t r l (ops.width r) (ops.height r)) all
          ∙ ap (λ (x : ℕ). effects_of ops d t r (replicate d.slice_count true) x (ops.height r)) w
          ∙ ap (λ (x : ℕ). effects_of ops d t r (replicate d.slice_count true) r.x2 x) h;
      lines = h;
      same_time =
          partial_timing-SameTime t _ _ (omega (arith, right, w)) (omega (arith, h, fits.inside))
            h_fits v_fits;
    }
