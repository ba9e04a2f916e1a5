-- ===== src/Dpp/Tests.antt =====
-- The theorem on the checks of a plane at a full screen picture in NV12.
use google_modules_display_s.Prelude.{◌≡◌, refl, true, false, none, arith, ℕ}
use google_modules_display_s.Format.{DrmFormat, Colorspace}
use google_modules_display_s.Dpp.{
  SizeRange, Restriction, Frame, Config, in_range, is_aligned, scaled_w, scaled_h, check_scale,
  src_aligned, dst_aligned, src_in_range, dst_in_range, factor, src_h_max, check_size, check,
}
use google_modules_display_s.Dpp.Accepts.{Power, Accepts, check-Accepts}

abbrev range : ℕ → ℕ → ℕ → SizeRange
range a b c = record { least = a; most = b; align = c }

abbrev limits : Restriction
limits = record {
  src_f_w = range 16 65535 1;
  src_f_h = range 16 8190 1;
  src_w = range 16 3840 1;
  src_h = range 16 4096 1;
  src_x_align = 1;
  src_y_align = 1;
  dst_f_w = range 16 8190 1;
  dst_f_h = range 16 8190 1;
  dst_w = range 16 4096 1;
  dst_h = range 16 4096 1;
  dst_x_align = 1;
  dst_y_align = 1;
  src_h_rot_max = 2160;
  scale_down = 4;
  scale_up = 8;
}

abbrev frame : Frame
frame = record { x = 0; y = 0; w = 1440; h = 3120; f_w = 1440; f_h = 3120 }

abbrev picture : Config
picture = record {
  src = frame;
  dst = frame;
  rot = false;
  afbc = false;
  fmt = record {
    fmt = DrmFormat.nv12;
    bpp = 12;
    padding = 0;
    bpc = 8;
    num_planes = 2;
    len_alpha = 0;
    cs = Colorspace.yuv420;
  };
}

accepted : check limits false true none picture ≡ none
unfolding check check_scale check_size scaled_w scaled_h src_aligned dst_aligned src_in_range
    dst_in_range factor src_h_max in_range is_aligned
accepted = refl

one : Power 1
one = (0, omega arith, refl)

check-Accepts_example : Accepts limits true none picture
check-Accepts_example =
    check-Accepts limits true none picture
      (record {
        src_x = one;
        src_y = one;
        src_w = one;
        src_h = one;
        src_f_w = one;
        src_f_h = one;
        dst_x = one;
        dst_y = one;
        dst_w = one;
        dst_h = one;
        dst_f_w = one;
        dst_f_h = one;
      })
      accepted
