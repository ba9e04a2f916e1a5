-- ===== src/Format/Tests.antt =====
-- The table at one format.
use google_modules_display_s.Prelude.{◌≡◌, refl, some, ℕ_discrete}
use google_modules_display_s.Format.{
  DrmFormat, DrmFormat-discrete, DpuFmt, Colorspace, dpu_find_fmt_info,
}

abbrev p010_entry : DpuFmt
p010_entry = record {
  fmt = DrmFormat.p010;
  bpp = 15;
  padding = 9;
  bpc = 10;
  num_planes = 2;
  len_alpha = 0;
  cs = Colorspace.yuv420;
}

p010_found : dpu_find_fmt_info DrmFormat.p010 ≡ some p010_entry
unfolding dpu_find_fmt_info DrmFormat-discrete ℕ_discrete
p010_found = refl
