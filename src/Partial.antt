-- ===== src/Partial.antt =====
-- exynos_drm_partial.c: the part of the panel that a frame updates. The coordinates of an update region
-- come from a `struct drm_clip_rect` or the mode, which both hold 16 unsigned bits.
pub mod Region
pub mod Prepare
pub mod Limits
pub mod Kept
pub mod Size
mod Tests
use google_modules_display_s.Prelude.{
  ℕ, zero, suc, ◌+◌, ◌-◌, ◌*◌, ◌/◌, ◌%◌, Bool, true, false, not, ◌||◌, ◌&&◌, Option, none, some,
  List, [], ◌∷◌, ◌++◌, ltb, leb, ◌==◌, if◌then◌else◌, u32, sub32, Ret, Errno, is_ok, map,
}
use google_modules_display_s.Prelude.Int.{ℤ, pos, pos_part, neg_part, ◌-ℤ◌, ltb_ℤ}
use google_modules_display_s.Format.{DpuFmt, is_yuv}

-- `struct drm_rect` of a region.
pub record Rect : Type 0 where
  pub x1 : ℕ
  pub y1 : ℕ
  pub x2 : ℕ
  pub y2 : ℕ

-- The fields of `struct drm_display_mode` that are read here.
pub record Mode : Type 0 where
  pub hdisplay : ℕ
  pub vdisplay : ℕ

-- `struct exynos_display_partial`.
pub record DisplayPartial : Type 0 where
  pub enabled : Bool
  pub min_width : ℕ
  pub min_height : ℕ

-- `struct exynos_partial`, without its pointers.
pub record Partial : Type 0 where
  pub min_w : ℕ
  pub min_h : ℕ

-- `MIN_WIN_BLOCK_WIDTH` is 8 and `MIN_WIN_BLOCK_HEIGHT` 1. The sizes are stored before the tests.
pub partial_init : DisplayPartial → Mode → Ret × Partial
partial_init pm mode =
    let sizes : Partial = record { min_w = pm.min_width; min_h = pm.min_height } in
    if ltb pm.min_width 8 || ltb pm.min_height 1
    then (some Errno.einval, sizes)
    else if not (mode.hdisplay % pm.min_width == 0) || not (mode.vdisplay % pm.min_height == 0)
    then (some Errno.einval, sizes)
    else (none, sizes)

pub full : Mode → Rect
full mode = record { x1 = 0; y1 = 0; x2 = mode.hdisplay; y2 = mode.vdisplay }

-- The macros of the kernel, on a value and a 32-bit step.
pub rounddown : ℕ → ℕ → ℕ
rounddown x y = x - x % y

pub roundup : ℕ → ℕ → ℕ
roundup x y = u32 (u32 (x + (y - 1)) / y * y)

-- `none` is -EINVAL, which leaves the region as it was.
pub adjust_region : Partial → Mode → Rect → Option Rect
adjust_region pt mode req =
    if req.x1 == 0 && req.y1 == 0 && req.x2 == 0 && req.y2 == 0
    then none
    else if ltb mode.hdisplay req.x2 || ltb mode.vdisplay req.y2
    then none
    else some (record {
      x1 = 0;
      y1 = rounddown req.y1 pt.min_h;
      x2 = mode.hdisplay;
      y2 = roundup req.y2 pt.min_h;
    })

-- The state of a plane on the crtc. `rotated` is whether drm_rotation_simplify finds a turn by 90
-- degrees; `fmt` is what dpu_find_fmt_info finds for the format. The sizes src_* are in 16.16 fixed point.
pub record Plane : Type 0 where
  pub rotated : Bool
  pub src_x : ℕ
  pub src_y : ℕ
  pub src_w : ℕ
  pub src_h : ℕ
  pub crtc_x : ℤ
  pub crtc_y : ℤ
  pub crtc_w : ℕ
  pub crtc_h : ℕ
  pub fmt : DpuFmt
  pub min_f_w : ℕ
  pub min_f_h : ℕ

pub plane_scaling : Plane → Bool
plane_scaling p = not (p.src_w / 65536 == p.crtc_w) || not (p.src_h / 65536 == p.crtc_h)

-- The start of a plane in its buffer, moved to the start of the region: unsigned arithmetic.
pub adjusted_src : ℕ → ℤ → ℕ → ℕ
adjusted_src src crtc start =
    let at = src / 65536 in
    if ltb_ℤ crtc (pos start) then u32 (at + pos_part (pos start -ℤ crtc)) else at

-- `width` and `height` are those of the visible part of the plane in the region.
pub is_partial_supported : Plane → ℕ → ℕ → Rect → Bool
is_partial_supported p width height r =
    let sz_align : ℕ = if is_yuv p.fmt then 2 else 1 in
    let aligned =
      adjusted_src p.src_x p.crtc_x r.x1 % 2 == 0 && adjusted_src p.src_y p.crtc_y r.y1 % 2 == 0 in
    if p.rotated || plane_scaling p || (is_yuv p.fmt && not aligned)
    then false
    else not (ltb width (u32 (p.min_f_w * sz_align)) || ltb height (u32 (p.min_f_h * sz_align)))

-- The functions of drm_rect.h, and drm_rect_intersect with a plane's destination: `none` if they do not
-- overlap, and otherwise the width and the height of the common part.
pub record RectOps : Type 0 where
  pub equals : Rect → Rect → Bool
  pub width : Rect → ℕ
  pub height : Rect → ℕ
  pub intersect : Plane → Rect → Option (ℕ × ℕ)

-- The loop over the planes; `none` is a plane whose state is an error.
pub check_planes : RectOps → List (Option Plane) → Rect → Bool
check_planes ops [] r = true
check_planes ops (none ∷ ps) r = false
check_planes ops (some p ∷ ps) r =
    let rest = check_planes ops ps r in
    elim (ops.intersect p r) [ none ↦ rest | some s ↦ is_partial_supported p s.0 s.1 r && rest ]

-- The fields of `struct exynos_drm_crtc_state` that are used here. The blob of a requested region is
-- its identity and its content; `planes` are those of the plane mask.
pub record CrtcState : Type 0 where
  pub mode : Mode
  pub needs_modeset : Bool
  pub planes : List (Option Plane)
  pub planes_changed : Bool
  pub color_mgmt_changed : Bool
  pub blob : Option (ℕ × Rect)
  pub partial_region : Rect
  pub needs_reconfigure : Bool

-- Whether two pointers to blobs differ.
pub blobs_differ : Option (ℕ × Rect) → Option (ℕ × Rect) → Bool
blobs_differ none none = false
blobs_differ none (some b) = true
blobs_differ (some a) none = true
blobs_differ (some a) (some b) = not (a.0 == b.0)

-- The region for the request of the new state, and the full one without a request that can be met.
pub requested : Partial → CrtcState → Rect
requested pt new = elim new.blob [
  | none ↦ full new.mode
  | some b ↦ elim (adjust_region pt new.mode b.1) [ none ↦ full new.mode | some r ↦ r ]
]

-- From the check of the planes on.
pub settle : RectOps → CrtcState → CrtcState
settle ops s =
    let r = if check_planes ops s.planes s.partial_region then s.partial_region else full s.mode in
    record s { partial_region = r; needs_reconfigure = not (ops.equals (full s.mode) r) }

-- From the test of `region_changed` on.
pub with_region : RectOps → Bool → CrtcState → CrtcState
with_region ops changed s =
    let is_full = ops.equals (full s.mode) s.partial_region in
    if changed
    then settle ops (record s { color_mgmt_changed = true })
    else if not s.planes_changed
    then record s { needs_reconfigure = not is_full }
    else if is_full
    then s
    else settle ops s

pub prepare : RectOps → Partial → CrtcState → CrtcState → CrtcState
prepare ops pt old new =
    let s = record new { needs_reconfigure = false } in
    if new.needs_modeset then record s { partial_region = full new.mode } else elim new.planes [
      | [] ↦ s
      | p ∷ ps ↦
          if blobs_differ old.blob new.blob
          then (let r = requested pt new in
              with_region ops (not (ops.equals r old.partial_region))
                (record s { partial_region = r }))
          else with_region ops false s
    ]

-- The timing of the DSI host, `struct exynos_dsc` of the controller, and whether it has a DQE.
pub record Timing : Type 0 where
  pub hactive : ℕ
  pub hfp : ℕ
  pub vactive : ℕ
  pub vfp : ℕ
  pub dsc_enabled : Bool

pub record Decon : Type 0 where
  pub dsim : Option Timing
  pub slice_count : ℕ
  pub slice_width : ℕ
  pub dqe : Bool

-- What is sent to the panel and written to the registers of DSI host, controller and DQE.
pub data Effect : Type 0 where
  column_address : ℕ → ℕ → Effect
  page_address : ℕ → ℕ → Effect
  dsim_partial : Timing → Effect
  decon_partial : List Bool → ℕ → ℕ → Effect
  dqe_size : ℕ → ℕ → Effect

-- The end of a range, as 16 bits.
pub last_of : ℕ → ℕ
last_of x = (x + 65535) % 65536

-- `column_ret` is what the panel's driver returns for the column address. The caller ignores the result.
pub send_command : Ret → Decon → Rect → List Effect
send_command column_ret d r = elim d.dsim [
  | none ↦ []
  | some t ↦
      if is_ok column_ret
      then (column_address r.x1 (last_of r.x2) ∷ page_address r.y1 (last_of r.y2) ∷ [])
      else column_address r.x1 (last_of r.x2) ∷ []
]

-- The slices from number i on.
pub included_slices : ℕ → ℕ → ℕ → Rect → List Bool
included_slices zero i slice_width r = []
included_slices (suc n) i slice_width r =
    (leb r.x1 (slice_width * i) && leb (slice_width * i + slice_width) r.x2)
    ∷ included_slices n (suc i) slice_width r

pub partial_timing : Timing → ℕ → ℕ → Timing
partial_timing t w h = record t {
  hactive = w;
  vactive = h;
  hfp = u32 (t.hfp + sub32 t.hactive w / (if t.dsc_enabled then 3 else 1));
  vfp = u32 (t.vfp + sub32 t.vactive h);
}

pub set_size : RectOps → Decon → Rect → List Effect
set_size ops d r = elim d.dsim [
  | none ↦ []
  | some t ↦
      let w = ops.width r in
      let h = ops.height r in
      dsim_partial (partial_timing t w h)
      ∷ decon_partial (included_slices d.slice_count 0 d.slice_width r) w h
      ∷ (if d.dqe then dqe_size w h ∷ [] else [])
]

-- Without a controller (`partial->decon`) nothing happens.
pub update : RectOps → Ret → Option Decon → Rect → Rect → List Effect
update ops column_ret none before after = []
update ops column_ret (some d) before after =
    if ops.equals before after then [] else send_command column_ret d after ++ set_size ops d after

-- The mode and the region are those of the crtc's state, `none` without a state.
pub restore : RectOps → Option Decon → Option (Mode × Rect) → List Effect
restore ops none state = []
restore ops (some d) none = []
restore ops (some d) (some s) = if ops.equals (full s.0) s.1 then [] else set_size ops d s.1
