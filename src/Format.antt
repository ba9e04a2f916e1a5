-- ===== src/Format.antt =====
-- exynos_drm_format.c and exynos_drm_format.h: the table of the pixel formats, and its lookup. The
-- hardware codes of a format (dma_fmt, dpp_fmt) and its name are left out. The table is the one with
-- CONFIG_SOC_ZUMA, whose last two entries the other chips do not have.
pub mod Table
mod Tests
use google_modules_display_s.Prelude.{
  ℕ, ◌+◌, Bool, true, false, ◌||◌, ◌&&◌, ◌==◌, Option, none, some, List, [], ◌∷◌, ℕ_discrete,
}
use mathlib.Core.Logic.{ite}

-- The DRM_FORMAT codes that the table lists; any other code is `other`.
pub data DrmFormat : Type 0 where
  c8 argb8888 abgr8888 rgba8888 bgra8888 xrgb8888 xbgr8888 rgbx8888 bgrx8888 : DrmFormat
  rgb565 bgr565 argb2101010 abgr2101010 rgba1010102 bgra1010102 : DrmFormat
  nv12 nv21 p010 y010 yuv420_8bit yuv420_10bit argb16161616f abgr16161616f : DrmFormat
  other : ℕ → DrmFormat

unfoldable pub DrmFormat-discrete : Discrete DrmFormat
DrmFormat-discrete = hlevel ℕ_discrete

pub data Colorspace : Type 0 where
  rgb yuv420 yuv422 : Colorspace

-- `struct dpu_fmt`.
pub record DpuFmt : Type 0 where
  pub fmt : DrmFormat
  pub bpp : ℕ
  pub padding : ℕ
  pub bpc : ℕ
  pub num_planes : ℕ
  pub len_alpha : ℕ
  pub cs : Colorspace

abbrev entry : DrmFormat → ℕ → ℕ → ℕ → ℕ → ℕ → Colorspace → DpuFmt
entry fmt bpp padding bpc num_planes len_alpha cs = record {
  fmt = fmt;
  bpp = bpp;
  padding = padding;
  bpc = bpc;
  num_planes = num_planes;
  len_alpha = len_alpha;
  cs = cs;
}

-- `(u8)DPU_UNDEF_BITS_DEPTH`
abbrev undef_bits_depth : ℕ
undef_bits_depth = 0xcd

-- What the first entry does not give is 0.
pub dpu_formats_list : List DpuFmt
dpu_formats_list =
    entry DrmFormat.c8 8 0 0 1 0 Colorspace.rgb
    ∷ entry DrmFormat.argb8888 32 0 8 1 8 Colorspace.rgb
    ∷ entry DrmFormat.abgr8888 32 0 8 1 8 Colorspace.rgb
    ∷ entry DrmFormat.rgba8888 32 0 8 1 8 Colorspace.rgb
    ∷ entry DrmFormat.bgra8888 32 0 8 1 8 Colorspace.rgb
    ∷ entry DrmFormat.xrgb8888 24 8 8 1 0 Colorspace.rgb
    ∷ entry DrmFormat.xbgr8888 24 8 8 1 0 Colorspace.rgb
    ∷ entry DrmFormat.rgbx8888 24 8 8 1 0 Colorspace.rgb
    ∷ entry DrmFormat.bgrx8888 24 8 8 1 0 Colorspace.rgb
    ∷ entry DrmFormat.rgb565 16 0 undef_bits_depth 1 0 Colorspace.rgb
    ∷ entry DrmFormat.bgr565 16 0 undef_bits_depth 1 0 Colorspace.rgb
    ∷ entry DrmFormat.argb2101010 32 0 10 1 2 Colorspace.rgb
    ∷ entry DrmFormat.abgr2101010 32 0 10 1 2 Colorspace.rgb
    ∷ entry DrmFormat.rgba1010102 32 0 10 1 2 Colorspace.rgb
    ∷ entry DrmFormat.bgra1010102 32 0 10 1 2 Colorspace.rgb
    ∷ entry DrmFormat.nv12 12 0 8 2 0 Colorspace.yuv420
    ∷ entry DrmFormat.nv21 12 0 8 2 0 Colorspace.yuv420
    ∷ entry DrmFormat.p010 15 9 10 2 0 Colorspace.yuv420
    ∷ entry DrmFormat.y010 15 0 10 4 0 Colorspace.yuv420
    ∷ entry DrmFormat.yuv420_8bit 12 0 8 1 0 Colorspace.yuv420
    ∷ entry DrmFormat.yuv420_10bit 15 0 10 1 0 Colorspace.yuv420
    ∷ entry DrmFormat.argb16161616f 64 0 16 1 16 Colorspace.rgb
    ∷ entry DrmFormat.abgr16161616f 64 0 16 1 16 Colorspace.rgb
    ∷ []

find_fmt : DrmFormat → List DpuFmt → Option DpuFmt
find_fmt fmt [] = none
find_fmt fmt (e ∷ es) = ite (DrmFormat-discrete e.fmt fmt) (some e) (find_fmt fmt es)

-- `none` is the NULL pointer for a format that the table does not list.
unfoldable pub dpu_find_fmt_info : DrmFormat → Option DpuFmt
unfolding find_fmt dpu_formats_list
dpu_find_fmt_info fmt = find_fmt fmt dpu_formats_list

abbrev pub is_yuv420 : DpuFmt → Bool
is_yuv420 f = elim f.cs [ Colorspace.yuv420 ↦ true | _ ↦ false ]

abbrev pub is_yuv : DpuFmt → Bool
is_yuv f = elim f.cs [ Colorspace.rgb ↦ false | _ ↦ true ]
