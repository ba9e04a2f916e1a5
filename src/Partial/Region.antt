-- ===== src/Partial/Region.antt =====
-- The region that a request is widened to.
use google_modules_display_s.Prelude.{
  ℕ, ◌+◌, ◌-◌, ◌*◌, ◌/◌, ◌%◌, ◌≡◌, ◌≤◌, ◌<◌, some, none, arith, u32, le_of_mul_lt,
}
use native.Mathlib.Nat.{div-add-mod', mod-lt, mod-le, mod-eq_of_lt, mul-mod_left}
use google_modules_display_s.Partial.{
  Rect, Mode, Partial, DisplayPartial, partial_init, adjust_region, rounddown, roundup,
}

-- A region as the panel takes it: whole lines of blocks, inside the panel.
pub record Fits (pt : Partial) (mode : Mode) (r : Rect) : Type 0 where
  pub left : r.x1 ≡ 0
  pub right : r.x2 ≡ mode.hdisplay
  pub top : r.y1 % pt.min_h ≡ 0
  pub bottom : r.y2 % pt.min_h ≡ 0
  pub inside : r.y2 ≤ mode.vdisplay

-- The blocks that the mode is cut into.
pub record Divides (pt : Partial) (mode : Mode) : Type 0 where
  pub positive : 0 < pt.min_h
  pub rows : mode.vdisplay % pt.min_h ≡ 0
  pub columns : mode.hdisplay % pt.min_w ≡ 0

pub partial_init-Divides :
    (pm : DisplayPartial) (mode : Mode) (pt : Partial)
    → partial_init pm mode ≡ (none, pt)
    → Divides pt mode
unfolding partial_init
partial_init-Divides pm mode pt e = record {
  positive = ground arith;
  rows = ground arith;
  columns = ground arith;
}

-- Rounding to a multiple.
down_lem :
    (x h : ℕ) → 0 < h → (rounddown x h % h ≡ 0) × (rounddown x h ≤ x) × (x < rounddown x h + h)
unfolding rounddown
down_lem x h pos =
    let q : x - x % h ≡ x / h * h = omega (arith, div-add-mod' x h) in
    let z : x / h * h % h ≡ 0 = mul-mod_left (x / h) h in
    (rw q z, omega arith, omega (arith, mod-lt x pos, mod-le x h))

up_lem :
    (x h : ℕ)
    → 0 < h
    → x + h < 4294967296
    → (roundup x h % h ≡ 0) × (x ≤ roundup x h) × (roundup x h < x + h)
unfolding roundup
up_lem x h pos small =
    let n : ℕ = x + (h - 1) in
    let nm = div-add-mod' n h in
    let low : n % h < h = mod-lt n pos in
    let z : n / h * h % h ≡ 0 = mul-mod_left (n / h) h in
    let e1 : u32 n ≡ n = mod-eq_of_lt (omega arith) in
    let e2 : u32 (u32 n / h * h) ≡ n / h * h = rw e1 (mod-eq_of_lt (omega arith)) in
    rw e2 (z, omega arith, omega arith)

-- A multiple of h that x is below is not passed by rounding x up.
up_within : (x h v : ℕ) → 0 < h → v % h ≡ 0 → x ≤ v → (r : ℕ) → r % h ≡ 0 → r < x + h → r ≤ v
up_within x h v pos vz le r rz near =
    let ev = div-add-mod' v h in
    let er = div-add-mod' r h in
    let at_most : r / h ≤ v / h = le_of_mul_lt (r / h) (v / h) h (omega arith) in
    let times : r / h * h ≤ v / h * h = grind arith in omega arith

-- What a request is widened to: the least blocks of lines around it, over the whole width.
pub record Widened (pt : Partial) (mode : Mode) (req r : Rect) : Type 0 where
  pub fits : Fits pt mode r
  pub covers : (r.y1 ≤ req.y1) × (req.y2 ≤ r.y2)
  pub least : (req.y1 < r.y1 + pt.min_h) × (r.y2 < req.y2 + pt.min_h)

pub adjust_region-some :
    (pt : Partial) (mode : Mode) (req r : Rect)
    → Divides pt mode
    → mode.vdisplay < 65536
    → pt.min_h ≤ 65536
    → adjust_region pt mode req ≡ some r
    → Widened pt mode req r
unfolding adjust_region
adjust_region-some pt mode req r d small step e =
    let in_y : req.y2 ≤ mode.vdisplay = ground arith in
    let down = down_lem req.y1 pt.min_h d.positive in
    let up = up_lem req.y2 pt.min_h d.positive (omega arith) in
    let within =
      up_within req.y2 pt.min_h mode.vdisplay d.positive d.rows in_y (roundup req.y2 pt.min_h) up.0
        up.2 in
    let e1 : r.y1 ≡ rounddown req.y1 pt.min_h = ground arith in
    let e2 : r.y2 ≡ roundup req.y2 pt.min_h = ground arith in
    record {
      fits = record {
        left = ground arith;
        right = ground arith;
        top = rw e1 down.0;
        bottom = rw e2 up.0;
        inside = omega arith;
      };
      covers = (omega arith, omega arith);
      least = (omega arith, omega arith);
    }

-- Under block sizes that exynos_partial_init accepts for the mode, a request that is accepted
-- becomes the least region of whole block rows around its lines, inside the panel and over its whole width.
-- Conditions: the panel has less than 2 ^ 16 lines, and a block at most 2 ^ 16.
pub adjust_region-Widened :
    (pm : DisplayPartial) (pt : Partial) (mode : Mode) (req r : Rect)
    → partial_init pm mode ≡ (none, pt)
    → mode.vdisplay < 65536
    → pt.min_h ≤ 65536
    → adjust_region pt mode req ≡ some r
    → Widened pt mode req r
adjust_region-Widened pm pt mode req r init small step e =
    adjust_region-some pt mode req r (partial_init-Divides pm mode pt init) small step e

-- A request that ends two blocks or more above its start is accepted, if it ends inside the panel,
-- and gives a region that ends above its start. Conditions: as for the least region.
pub adjust_region_unordered :
    (pt : Partial) (mode : Mode) (req : Rect)
    → Divides pt mode
    → mode.vdisplay < 65536
    → pt.min_h ≤ 65536
    → req.x2 ≤ mode.hdisplay
    → req.y2 ≤ mode.vdisplay
    → req.y2 + 2 * pt.min_h ≤ req.y1
    → (r : Rect) × (adjust_region pt mode req ≡ some r) × (r.y2 < r.y1)
unfolding adjust_region
adjust_region_unordered pt mode req d small step in_x in_y late =
    let down = down_lem req.y1 pt.min_h d.positive in
    let up = up_lem req.y2 pt.min_h d.positive (omega arith) in
    let p = d.positive in
    (
      record {
        x1 = 0;
        y1 = rounddown req.y1 pt.min_h;
        x2 = mode.hdisplay;
        y2 = roundup req.y2 pt.min_h;
      },
      ground arith,
      omega arith,
    )
