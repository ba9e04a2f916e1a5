-- ===== src/Partial/Tests.antt =====
-- The theorems on partial updates at a panel of 1440 by 3120 pixels, in blocks of 60 lines.
use google_modules_display_s.Prelude.{
  ℕ, ◌+◌, ◌-◌, ◌*◌, ◌≡◌, inl, inr, refl, ap, Option, some, none, [], ◌∷◌, Bool, true, false, arith,
  if◌then◌else◌, ◌&&◌, ◌==◌, ltb, min, max,
}
use google_modules_display_s.Prelude.Int.{pos, pos_part, ◌-ℤ◌}
use google_modules_display_s.Format.{DrmFormat, Colorspace}
use google_modules_display_s.Partial.{
  Rect, Mode, Partial, DisplayPartial, Plane, RectOps, CrtcState, Decon, Timing,
  is_partial_supported, check_planes, full, adjust_region, partial_init, prepare, rounddown,
  roundup, blobs_differ, requested, with_region, settle, plane_scaling, adjusted_src,
}
use google_modules_display_s.Partial.Prepare.{RectLaws}
use google_modules_display_s.Partial.Limits.{Supported, prepare-Supported}
use google_modules_display_s.Partial.Kept.{Whole, prepare-Whole}
use google_modules_display_s.Partial.Size.{SizeLaws}

abbrev rect : ℕ → ℕ → ℕ → ℕ → Rect
rect a b c d = record { x1 = a; y1 = b; x2 = c; y2 = d }

abbrev mode : Mode
mode = record { hdisplay = 1440; vdisplay = 3120 }

abbrev wanted : DisplayPartial
wanted = record { enabled = true; min_width = 1440; min_height = 60 }

abbrev blocks : Partial
blocks = record { min_w = 1440; min_h = 60 }

init : partial_init wanted mode ≡ (none, blocks)
unfolding partial_init
init = refl

widened : adjust_region blocks mode (rect 0 100 1440 250) ≡ some (rect 0 60 1440 300)
unfolding adjust_region rounddown roundup
widened = refl

-- Rectangles as the kernel documents them, for planes with their origin on the panel.
abbrev equals : Rect → Rect → Bool
equals a b = a.x1 == b.x1 && a.y1 == b.y1 && a.x2 == b.x2 && a.y2 == b.y2

abbrev intersect : Plane → Rect → Option (ℕ × ℕ)
intersect p r =
    let left = max (pos_part p.crtc_x) r.x1 in
    let right = min (pos_part p.crtc_x + p.crtc_w) r.x2 in
    let top = max (pos_part p.crtc_y) r.y1 in
    let bottom = min (pos_part p.crtc_y + p.crtc_h) r.y2 in
    if ltb left right && ltb top bottom then some (right - left, bottom - top) else none

abbrev ops : RectOps
ops = record {
  equals = equals;
  width = λ r. r.x2 - r.x1;
  height = λ r. r.y2 - r.y1;
  intersect = intersect;
}

ops-RectLaws : RectLaws ops
ops-RectLaws = record { equals_iff = λ a b. ground arith }

ops-SizeLaws : SizeLaws ops
ops-SizeLaws = record { width = λ r h. refl; height = λ r h. refl }

abbrev plane : Plane
plane = record {
  rotated = false;
  src_x = 0;
  src_y = 0;
  src_w = 1440 * 65536;
  src_h = 3120 * 65536;
  crtc_x = pos 0;
  crtc_y = pos 0;
  crtc_w = 1440;
  crtc_h = 3120;
  fmt = record {
    fmt = DrmFormat.nv12;
    bpp = 12;
    padding = 0;
    bpc = 8;
    num_planes = 2;
    len_alpha = 0;
    cs = Colorspace.yuv420;
  };
  min_f_w = 16;
  min_f_h = 8;
}

abbrev before : CrtcState
before = record {
  mode = mode;
  needs_modeset = false;
  planes = some plane ∷ [];
  planes_changed = true;
  color_mgmt_changed = false;
  blob = none;
  partial_region = rect 0 0 1440 3120;
  needs_reconfigure = false;
}

abbrev after : CrtcState
after = record before { blob = some (1, rect 0 100 1440 250) }

abbrev prepared : CrtcState
prepared = record after {
  partial_region = rect 0 60 1440 300;
  needs_reconfigure = true;
  color_mgmt_changed = true;
}

prepare-after : prepare ops blocks before after ≡ prepared
unfolding prepare blobs_differ requested adjust_region rounddown roundup with_region settle
    check_planes is_partial_supported plane_scaling adjusted_src full ◌-ℤ◌
prepare-after = refl

marks : (prepare ops blocks before after).needs_reconfigure ≡ true
marks = ap (λ (s : CrtcState). s.needs_reconfigure) prepare-after

prepare-Supported_example :
    Supported ops (some plane ∷ []) (prepare ops blocks before after).partial_region
prepare-Supported_example =
    prepare-Supported ops blocks before after ops-RectLaws refl (inl refl) marks

prepare-Whole_example : Whole blocks mode (prepare ops blocks before after).partial_region
prepare-Whole_example =
    prepare-Whole ops wanted blocks before after init (omega arith) (omega arith)
      (λ q at. ground (arith, at))
      (inr (record {
        fits = record {
          left = refl;
          right = refl;
          top = refl;
          bottom = refl;
          inside = omega arith;
        };
        ordered = omega arith;
      }))

abbrev timing : Timing
timing = record { hactive = 1440; hfp = 20; vactive = 3120; vfp = 12; dsc_enabled = true }

abbrev controller : Decon
controller = record { dsim = some timing; slice_count = 2; slice_width = 720; dqe = true }
