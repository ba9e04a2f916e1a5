-- ===== src/Dpp/Accepts.antt =====
-- A configuration that dpp_check accepts is inside the restrictions of the plane.
use google_modules_display_s.Prelude.{
  ℕ, suc, ◌*◌, ◌%◌, ◌^◌, ◌≡◌, ◌≤◌, ◌<◌, ◌⊎◌, inl, inr, ap, ◌∙◌, Bool, true, false, none, arith, u32,
  is_ok, Ret,
}
use native.Mathlib.Nat.{mod-eq_of_lt, pow-suc, pow-le-pow_right, mod-le}
use google_modules_display_s.Format.{is_yuv420}
use google_modules_display_s.Dpp.{
  Restriction, Frame, Config, in_range, is_aligned, scaled_w, scaled_h, check_scale, src_aligned,
  dst_aligned, src_in_range, dst_in_range, factor, src_h_max, check_size, check,
}
use google_modules_display_s.Dpp.Align.{is_aligned_iff}

abbrev pub Power : ℕ → Type 0
Power a = (k : ℕ) × (k < 31) × (a ≡ 2 ^ k)

-- Every alignment is a power of two, as IS_ALIGNED wants.
pub record Powers (res : Restriction) : Type 0 where
  pub src_x : Power res.src_x_align
  pub src_y : Power res.src_y_align
  pub src_w : Power res.src_w.align
  pub src_h : Power res.src_h.align
  pub src_f_w : Power res.src_f_w.align
  pub src_f_h : Power res.src_f_h.align
  pub dst_x : Power res.dst_x_align
  pub dst_y : Power res.dst_y_align
  pub dst_w : Power res.dst_w.align
  pub dst_h : Power res.dst_h.align
  pub dst_f_w : Power res.dst_f_w.align
  pub dst_f_h : Power res.dst_f_h.align

factor_cases : (c : Config) → (factor c ≡ 1) ⊎ (factor c ≡ 2)
unfolding factor
factor_cases c = ground arith

power_lem : (x b k : ℕ) → k < 32 → b ≡ 2 ^ k → is_aligned x (u32 b) ≡ true → x % b ≡ 0
power_lem x b k small e h =
    let most : 2 ^ k ≤ 2 ^ 31 = pow-le-pow_right (omega arith) {j = 31} (omega arith) in
    let low : u32 b ≡ 2 ^ k = mod-eq_of_lt (omega arith) ∙ e in
    let z = (is_aligned_iff x k small).0 (rw low at h) in ap (λ (t : ℕ). x % t) e ∙ z

-- One aligned number, with the factor for YUV.
aligned_lem :
    (c : Config) (x a : ℕ)
    → Power a
    → is_aligned x (u32 (a * factor c)) ≡ true
    → x % (a * factor c) ≡ 0
aligned_lem c x a (k, small, e) h = elim (factor_cases c) [
  | inl one ↦
      let p : a * factor c ≡ 2 ^ k = ap (λ (t : ℕ). a * t) one ∙ omega (arith, e) in
      power_lem x _ k (omega arith) p h
  | inr two_times ↦
      let p : a * factor c ≡ 2 ^ suc k =
        ap (λ (t : ℕ). a * t) two_times ∙ omega (arith, e, pow-suc 2 k) in
      power_lem x _ (suc k) (omega arith) p h
]

-- A number in a range of more than one value above 0.
pub record Within (v low high : ℕ) : Type 0 where
  pub above : low ≤ v
  pub below : v ≤ high
  pub proper : (0 < low) × (low < high)

in_range-Within : (v low high : ℕ) → in_range v low high ≡ true → Within v low high
unfolding in_range
in_range-Within v low high e = record {
  above = ground arith;
  below = ground arith;
  proper = ground arith;
}

-- The source starts and ends on multiples.
pub record Multiples (res : Restriction) (f : Frame) (mul : ℕ) : Type 0 where
  pub x : f.x % (res.src_x_align * mul) ≡ 0
  pub y : f.y % (res.src_y_align * mul) ≡ 0
  pub w : f.w % (res.src_w.align * mul) ≡ 0
  pub h : f.h % (res.src_h.align * mul) ≡ 0
  pub f_w : f.f_w % (res.src_f_w.align * mul) ≡ 0
  pub f_h : f.f_h % (res.src_f_h.align * mul) ≡ 0

src_aligned-Multiples :
    (res : Restriction) (c : Config)
    → Powers res
    → src_aligned res c.src (factor c) ≡ true
    → Multiples res c.src (factor c)
unfolding src_aligned
src_aligned-Multiples res c p e = record {
  x = aligned_lem c _ _ p.src_x (ground arith);
  y = aligned_lem c _ _ p.src_y (ground arith);
  w = aligned_lem c _ _ p.src_w (ground arith);
  h = aligned_lem c _ _ p.src_h (ground arith);
  f_w = aligned_lem c _ _ p.src_f_w (ground arith);
  f_h = aligned_lem c _ _ p.src_f_h (ground arith);
}

-- The destination does, too.
pub record DstMultiples (res : Restriction) (f : Frame) : Type 0 where
  pub x : f.x % res.dst_x_align ≡ 0
  pub y : f.y % res.dst_y_align ≡ 0
  pub w : f.w % res.dst_w.align ≡ 0
  pub h : f.h % res.dst_h.align ≡ 0
  pub f_w : f.f_w % res.dst_f_w.align ≡ 0
  pub f_h : f.f_h % res.dst_f_h.align ≡ 0

plain_lem : (x a : ℕ) → Power a → is_aligned x a ≡ true → x % a ≡ 0
plain_lem x a (k, small, e) h =
    let z = (is_aligned_iff x k (omega arith)).0 (rw e at h) in ap (λ (t : ℕ). x % t) e ∙ z

dst_aligned-DstMultiples :
    (res : Restriction) (f : Frame) → Powers res → dst_aligned res f ≡ true → DstMultiples res f
unfolding dst_aligned
dst_aligned-DstMultiples res f p e = record {
  x = plain_lem _ _ p.dst_x (ground arith);
  y = plain_lem _ _ p.dst_y (ground arith);
  w = plain_lem _ _ p.dst_w (ground arith);
  h = plain_lem _ _ p.dst_h (ground arith);
  f_w = plain_lem _ _ p.dst_f_w (ground arith);
  f_h = plain_lem _ _ p.dst_f_h (ground arith);
}

-- The destination inside its ranges.
pub record DstWithin (res : Restriction) (f : Frame) : Type 0 where
  pub w : Within f.w res.dst_w.least res.dst_w.most
  pub h : Within f.h res.dst_h.least res.dst_h.most
  pub f_w : Within f.f_w res.dst_f_w.least res.dst_f_w.most
  pub f_h : Within f.f_h res.dst_f_h.least res.dst_f_h.most

dst_in_range-DstWithin :
    (res : Restriction) (f : Frame) → dst_in_range res f ≡ true → DstWithin res f
unfolding dst_in_range
dst_in_range-DstWithin res f e = record {
  w = in_range-Within _ _ _ (ground arith);
  h = in_range-Within _ _ _ (ground arith);
  f_w = in_range-Within _ _ _ (ground arith);
  f_h = in_range-Within _ _ _ (ground arith);
}

-- What acceptance promises of a plane that is no colour map.
pub record Accepts (res : Restriction) (attr_afbc : Bool) (chip : Ret) (c : Config) : Type 0 where
  pub scaled :
      ((scaled_w c ≡ c.dst.w) × (scaled_h c ≡ c.dst.h))
      ⊎ ((scaled_w c ≤ c.dst.w * res.scale_down)
          × (scaled_h c ≤ c.dst.h * res.scale_down)
          × (c.dst.w ≤ scaled_w c * res.scale_up)
          × (c.dst.h ≤ scaled_h c * res.scale_up))
  pub multiples : Multiples res c.src (factor c)
  pub width : Within c.src.w (u32 (res.src_w.least * factor c)) res.src_w.most
  pub height : Within c.src.h (u32 (res.src_h.least * factor c)) (src_h_max res c)
  pub buffer_width : Within c.src.f_w (u32 (res.src_f_w.least * factor c)) res.src_f_w.most
  pub buffer_height : Within c.src.f_h res.src_f_h.least res.src_f_h.most
  pub dst_multiples : DstMultiples res c.dst
  pub dst : DstWithin res c.dst
  pub rotation : c.rot ≡ true → is_yuv420 c.fmt ≡ true
  pub compression : c.afbc ≡ true → attr_afbc ≡ true
  pub by_chip : is_ok chip ≡ true

scale_lem :
    (res : Restriction) (c : Config)
    → is_ok (check_scale res c) ≡ true
    → ((scaled_w c ≡ c.dst.w) × (scaled_h c ≡ c.dst.h))
      ⊎ ((scaled_w c ≤ c.dst.w * res.scale_down)
          × (scaled_h c ≤ c.dst.h * res.scale_down)
          × (c.dst.w ≤ scaled_w c * res.scale_up)
          × (c.dst.h ≤ scaled_h c * res.scale_up))
unfolding check_scale
scale_lem res c e =
    let d1 = mod-le (c.dst.w * res.scale_down) 4294967296 in
    let d2 = mod-le (c.dst.h * res.scale_down) 4294967296 in
    let u1 = mod-le (scaled_w c * res.scale_up) 4294967296 in
    let u2 = mod-le (scaled_h c * res.scale_up) 4294967296 in ground (arith, d1, d2, u1, u2)

-- The four tests of dpp_check_size.
size_lem :
    (res : Restriction) (c : Config)
    → is_ok (check_size res c) ≡ true
    → (src_aligned res c.src (factor c) ≡ true)
      × (src_in_range res c.src (factor c) (src_h_max res c) ≡ true)
      × (dst_in_range res c.dst ≡ true)
      × (dst_aligned res c.dst ≡ true)
unfolding check_size
size_lem res c e = ground arith

src_ranges :
    (res : Restriction) (c : Config)
    → src_in_range res c.src (factor c) (src_h_max res c) ≡ true
    → (in_range c.src.w (u32 (res.src_w.least * factor c)) res.src_w.most ≡ true)
      × (in_range c.src.h (u32 (res.src_h.least * factor c)) (src_h_max res c) ≡ true)
      × (in_range c.src.f_w (u32 (res.src_f_w.least * factor c)) res.src_f_w.most ≡ true)
      × (in_range c.src.f_h res.src_f_h.least res.src_f_h.most ≡ true)
unfolding src_in_range
src_ranges res c e = ground arith

stages :
    (res : Restriction) (attr_afbc : Bool) (chip : Ret) (c : Config)
    → check res false attr_afbc chip c ≡ none
    → (is_ok (check_scale res c) ≡ true)
      × (is_ok (check_size res c) ≡ true)
      × (c.rot ≡ true → is_yuv420 c.fmt ≡ true)
      × (c.afbc ≡ true → attr_afbc ≡ true)
      × (is_ok chip ≡ true)
unfolding check
stages res attr_afbc chip c e = ground arith

-- If dpp_check accepts a plane that is no colour map, then the plane is not scaled or scaled within both
-- factors, its source, its destination and their buffers lie on multiples of their alignments, those of
-- the source doubled for YUV, the sizes of the source, of the destination and of their buffers are in
-- their ranges, only YUV 420 is rotated, AFBC is used only where there is AFBC, and the chip accepts it.
-- Condition: the alignments are powers of two below 2 ^ 31.
pub check-Accepts :
    (res : Restriction) (attr_afbc : Bool) (chip : Ret) (c : Config)
    → Powers res
    → check res false attr_afbc chip c ≡ none
    → Accepts res attr_afbc chip c
check-Accepts res attr_afbc chip c p e =
    let s = stages res attr_afbc chip c e in
    let z = size_lem res c s.1 in
    let r = src_ranges res c z.1 in
    record {
      scaled = scale_lem res c s.0;
      multiples = src_aligned-Multiples res c p z.0;
      width = in_range-Within _ _ _ r.0;
      height = in_range-Within _ _ _ r.1;
      buffer_width = in_range-Within _ _ _ r.2;
      buffer_height = in_range-Within _ _ _ r.3;
      dst_multiples = dst_aligned-DstMultiples res c.dst p z.3;
      dst = dst_in_range-DstWithin res c.dst z.2;
      rotation = s.2;
      compression = s.3;
      by_chip = s.4;
    }
