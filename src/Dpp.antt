-- ===== src/Dpp.antt =====
-- The checks of exynos_drm_dpp.c on the configuration of a plane: dpp_check_scale, dpp_check_size,
-- dpp_check_dst_size and dpp_check. The configuration that dpp_convert_plane_state_to_config makes is
-- an argument, as is the result of the chip's own __dpp_check.
pub mod Align
pub mod Accepts
mod Tests
use google_modules_display_s.Prelude.{
  ℕ, ◌*◌, Bool, true, false, not, ◌||◌, ◌&&◌, some, none, ltb, leb, ◌==◌, if◌then◌else◌, u32, sub32,
  Ret, Errno, is_ok,
}
use Prim.Native.Nat.{bit_and}
use google_modules_display_s.Format.{DpuFmt, is_yuv, is_yuv420}

-- `struct dpp_size_range`.
pub record SizeRange : Type 0 where
  pub least : ℕ
  pub most : ℕ
  pub align : ℕ

-- The fields of `struct dpp_restriction` that the checks read.
pub record Restriction : Type 0 where
  pub src_f_w : SizeRange
  pub src_f_h : SizeRange
  pub src_w : SizeRange
  pub src_h : SizeRange
  pub src_x_align : ℕ
  pub src_y_align : ℕ
  pub dst_f_w : SizeRange
  pub dst_f_h : SizeRange
  pub dst_w : SizeRange
  pub dst_h : SizeRange
  pub dst_x_align : ℕ
  pub dst_y_align : ℕ
  pub src_h_rot_max : ℕ
  pub scale_down : ℕ
  pub scale_up : ℕ

-- `struct decon_frame`; x and y are the 32 bits of an `int`.
pub record Frame : Type 0 where
  pub x : ℕ
  pub y : ℕ
  pub w : ℕ
  pub h : ℕ
  pub f_w : ℕ
  pub f_h : ℕ

-- `rot` is the bit DPP_ROT of the field, `afbc` the test for COMP_TYPE_AFBC, and `fmt` the entry of the
-- table for the format.
pub record Config : Type 0 where
  pub src : Frame
  pub dst : Frame
  pub rot : Bool
  pub afbc : Bool
  pub fmt : DpuFmt

-- `IN_RANGE`, which refuses an empty range, one value included.
pub in_range : ℕ → ℕ → ℕ → Bool
in_range val low high = ltb 0 low && ltb low high && leb low val && leb val high

-- `IS_ALIGNED` on 32 bits.
pub is_aligned : ℕ → ℕ → Bool
is_aligned x a = bit_and x (sub32 a 1) == 0

pub scaled_w : Config → ℕ
scaled_w c = if c.rot then c.src.h else c.src.w

pub scaled_h : Config → ℕ
scaled_h c = if c.rot then c.src.w else c.src.h

-- As compiled for CONFIG_SOC_ZUMA, without the test of DPP_ATTR_CSC.
pub check_scale : Restriction → Config → Ret
check_scale res c =
    if scaled_w c == c.dst.w && scaled_h c == c.dst.h
    then none
    else if ltb (u32 (c.dst.w * res.scale_down)) (scaled_w c)
        || ltb (u32 (c.dst.h * res.scale_down)) (scaled_h c)
    then some Errno.enotsupp
    else if ltb (u32 (scaled_w c * res.scale_up)) c.dst.w
        || ltb (u32 (scaled_h c * res.scale_up)) c.dst.h
    then some Errno.enotsupp
    else none

pub src_aligned : Restriction → Frame → ℕ → Bool
src_aligned res f mul =
    is_aligned f.x (u32 (res.src_x_align * mul))
    && is_aligned f.y (u32 (res.src_y_align * mul))
    && is_aligned f.w (u32 (res.src_w.align * mul))
    && is_aligned f.h (u32 (res.src_h.align * mul))
    && is_aligned f.f_w (u32 (res.src_f_w.align * mul))
    && is_aligned f.f_h (u32 (res.src_f_h.align * mul))

pub dst_aligned : Restriction → Frame → Bool
dst_aligned res f =
    is_aligned f.x res.dst_x_align
    && is_aligned f.y res.dst_y_align
    && is_aligned f.w res.dst_w.align
    && is_aligned f.h res.dst_h.align
    && is_aligned f.f_w res.dst_f_w.align
    && is_aligned f.f_h res.dst_f_h.align

-- The lower bound of f_h is not multiplied.
pub src_in_range : Restriction → Frame → ℕ → ℕ → Bool
src_in_range res f mul src_h_max =
    in_range f.w (u32 (res.src_w.least * mul)) res.src_w.most
    && in_range f.h (u32 (res.src_h.least * mul)) src_h_max
    && in_range f.f_w (u32 (res.src_f_w.least * mul)) res.src_f_w.most
    && in_range f.f_h res.src_f_h.least res.src_f_h.most

pub dst_in_range : Restriction → Frame → Bool
dst_in_range res f =
    in_range f.w res.dst_w.least res.dst_w.most
    && in_range f.h res.dst_h.least res.dst_h.most
    && in_range f.f_w res.dst_f_w.least res.dst_f_w.most
    && in_range f.f_h res.dst_f_h.least res.dst_f_h.most

pub factor : Config → ℕ
factor c = if is_yuv c.fmt then 2 else 1

pub src_h_max : Restriction → Config → ℕ
src_h_max res c = if c.rot then res.src_h_rot_max else res.src_h.most

pub check_size : Restriction → Config → Ret
check_size res c =
    if not (src_aligned res c.src (factor c))
    then some Errno.enotsupp
    else if not (dst_aligned res c.dst)
    then some Errno.enotsupp
    else if not (src_in_range res c.src (factor c) (src_h_max res c))
    then some Errno.enotsupp
    else if not (dst_in_range res c.dst)
    then some Errno.enotsupp
    else none

pub check_dst_size : Restriction → Config → Ret
check_dst_size res c = if not (dst_in_range res c.dst) then some Errno.enotsupp else none

-- From the configuration on: `colormap` is the test of the modifier, `attr_afbc` that of DPP_ATTR_AFBC, and
-- `chip` what __dpp_check returns.
pub check : Restriction → Bool → Bool → Ret → Config → Ret
check res colormap attr_afbc chip c =
    if colormap
    then check_dst_size res c
    else if not (is_ok (check_scale res c))
    then some Errno.enotsupp
    else if not (is_ok (check_size res c))
    then some Errno.enotsupp
    else if c.rot && not (is_yuv420 c.fmt)
    then some Errno.enotsupp
    else if not attr_afbc && c.afbc
    then some Errno.enotsupp
    else if not (is_ok chip)
    then some Errno.enotsupp
    else none
