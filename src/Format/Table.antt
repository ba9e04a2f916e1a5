-- ===== src/Format/Table.antt =====
-- What the table of formats guarantees to those who look a format up.
use mathlib.Core.Path.{subst}
use mathlib.Core.Logic.{if_pos, if_neg}
use mathlib.Core.Option.{some-injective}
use google_modules_display_s.Prelude.{◌+◌, ◌≤◌, true, ◌≡◌, some, arith, List, [], ◌∷◌}
use google_modules_display_s.Format.{
  DrmFormat, DrmFormat-discrete, DpuFmt, find_fmt, dpu_formats_list, dpu_find_fmt_info, is_yuv,
}

pub record IsSound (e : DpuFmt) : Type 0 where
  pub planes : (1 ≤ e.num_planes) × (e.num_planes ≤ 4)
  pub depth : (8 ≤ e.bpp) × (e.bpp + e.padding ≤ 64)
  pub opaque_yuv : is_yuv e ≡ true → e.len_alpha ≡ 0

abbrev AllSound : List DpuFmt → Type 0
AllSound [] = Unit {0}
AllSound (e ∷ es) = IsSound e × AllSound es

dpu_formats_list-AllSound : AllSound dpu_formats_list
unfolding dpu_formats_list
dpu_formats_list-AllSound = ground arith

find_fmt-IsSound :
    (f : DrmFormat) (es : List DpuFmt) {e : DpuFmt}
    → AllSound es
    → find_fmt f es ≡ some e
    → (e.fmt ≡ f) × IsSound e
unfolding find_fmt
find_fmt-IsSound f [] all h = ground arith
find_fmt-IsSound f (x ∷ es) {e} all h = elim (DrmFormat-discrete x.fmt f) [
  | yes p ↦
      subst (λ y. (y.fmt ≡ f) × IsSound y) (some-injective x e (rw (if_pos _ p) at h)) (p, all.0)
  | no p ↦ find_fmt-IsSound f es all.1 (rw (if_neg _ p) at h)
]

-- A format that is found has the code that was asked for, one to four planes, at least 8 bits a pixel
-- and with the padding at most 64, and no alpha if it is a YUV format.
pub dpu_find_fmt_info-IsSound :
    (f : DrmFormat) {e : DpuFmt} → dpu_find_fmt_info f ≡ some e → (e.fmt ≡ f) × IsSound e
unfolding dpu_find_fmt_info
dpu_find_fmt_info-IsSound f h = find_fmt-IsSound f dpu_formats_list dpu_formats_list-AllSound h
