-- ===== src/Windows.antt =====
-- exynos_drm_drv.c, exynos_atomic_check_windows: which windows of the display controllers each CRTC
-- has. exynos_drm_decon.c, decon_get_win_id: which of them a plane gets.
pub mod Bits
pub mod Shares
pub mod Owners
pub mod Visible
mod Tests
use google_modules_display_s.Prelude.{
  ℕ, zero, suc, ◌+◌, ◌-◌, Bool, true, false, not, ◌&&◌, ◌||◌, Option, none, some, List, [], ◌∷◌,
  ltb, leb, ◌==◌, if◌then◌else◌, Errno,
}

-- A mask of 32 bits, by its bits.
abbrev pub Mask : Type 0
Mask = ℕ → Bool

abbrev pub no_bits : Mask
no_bits i = false

abbrev pub or_bits : Mask → Mask → Mask
or_bits f g i = f i || g i

abbrev pub and_not : Mask → Mask → Mask
and_not f g i = f i && not (g i)

abbrev pub put_bit : ℕ → Mask → Mask
put_bit b f i = if i == b then true else f i

abbrev pub clear_bit : ℕ → Mask → Mask
clear_bit b f i = if i == b then false else f i

abbrev pub bit_count : Bool → ℕ
bit_count b = if b then 1 else 0

-- `hweight32`, on the bits below a bound.
unfoldable pub weight : ℕ → Mask → ℕ
weight zero f = 0
weight (suc n) f = weight n f + bit_count (f n)

-- `ffs(mask) - 1`: the first set bit from one on.
unfoldable pub first_bit : ℕ → ℕ → Mask → Option ℕ
first_bit zero i f = none
first_bit (suc left) i f = let rest = first_bit left (suc i) f in if f i then some i else rest

-- The loop of `find_set_bits_mask`; 0 where there are not enough bits.
unfoldable pub find_bits : ℕ → Mask → Mask → Mask
find_bits zero f out = out
find_bits (suc n) f out = elim (first_bit 32 0 f) [
  | none ↦ no_bits
  | some b ↦ find_bits n (clear_bit b f) (put_bit b out)
]

abbrev pub find_set_bits_mask : Mask → ℕ → Mask
find_set_bits_mask f n = find_bits n f no_bits

-- What a CRTC state says of its planes; those of rounded corners are not counted.
pub record Usage : Type 0 where
  pub enable : Bool
  pub effectively_active : Bool
  pub planes : ℕ

-- `exynos_drm_crtc_get_win_cnt`
unfoldable pub get_win_cnt : Usage → ℕ
get_win_cnt u =
    if not u.enable || not u.effectively_active then 0 else if u.planes == 0 then 1 else u.planes

-- A CRTC as it was committed last: its use, and `reserved_win_mask`.
pub record Crtc : Type 0 where
  pub usage : Usage
  pub reserved : Mask

-- A CRTC in a commit: its new use, and whether one of the flags `active_changed`, `zpos_changed` and
-- `connectors_changed` is set or the planes differ.
pub record Change : Type 0 where
  pub usage : Usage
  pub changed : Bool

-- What the loop over the CRTCs carries: `available_win_mask`, and `freed_win_mask`.
pub record Pool : Type 0 where
  pub available : Mask
  pub freed : Mask

-- `err` is the error that the function returns.
pub data Checked (A : Type 0) : Type 0 where
  ok : A → Checked A
  err : Errno → Checked A

abbrev pub is_zero : Mask → Bool
is_zero f = weight 32 f == 0

unfoldable pub to_free : ℕ → ℕ → Mask → Mask
to_free old_cnt zero reserved = reserved
to_free old_cnt (suc n) reserved = find_set_bits_mask reserved (old_cnt - suc n)

-- Fewer windows: the lowest ones are given back, or all.
unfoldable pub shrink : ℕ → ℕ → Usage → Pool → Mask → Pool × Crtc
shrink old_cnt new_cnt u p reserved =
    let win_mask = to_free old_cnt new_cnt reserved in
    (
      record p { freed = or_bits p.freed win_mask },
      record { usage = u; reserved = and_not reserved win_mask },
    )

-- More windows: the lowest that are free.
unfoldable pub grow : ℕ → ℕ → Usage → Pool → Mask → Checked (Pool × Crtc)
grow old_cnt new_cnt u p reserved =
    let win_mask = find_set_bits_mask p.available (new_cnt - old_cnt) in
    if is_zero win_mask
    then err Errno.enoent
    else ok (
      record p { available = and_not p.available win_mask },
      record { usage = u; reserved = or_bits reserved win_mask },
    )

-- One turn of the loop over the CRTCs of a commit; `none` is a CRTC that is not in it.
unfoldable pub check_crtc : Option Change → Pool → Crtc → Checked (Pool × Crtc)
check_crtc none p c = ok (p, c)
check_crtc (some ch) p c =
    let old_cnt = get_win_cnt c.usage in
    let new_cnt = get_win_cnt ch.usage in
    if not ch.changed || old_cnt == new_cnt
    then ok (p, record c { usage = ch.usage })
    else if ltb new_cnt old_cnt
    then ok (shrink old_cnt new_cnt ch.usage p c.reserved)
    else grow old_cnt new_cnt ch.usage p c.reserved

-- The loop over the CRTCs.
unfoldable pub cons_crtc : Crtc → Checked (Pool × List Crtc) → Checked (Pool × List Crtc)
cons_crtc c (ok (p, cs)) = ok (p, c ∷ cs)
cons_crtc c (err e) = err e

unfoldable pub check_crtcs : Pool → List (Option Change × Crtc) → Checked (Pool × List Crtc)
check_crtcs p [] = ok (p, [])
check_crtcs p ((ch, c) ∷ rest) = elim (check_crtc ch p c) [
  | err e ↦ err e
  | ok (p', c') ↦ cons_crtc c' (check_crtcs p' rest)
]

-- The windows that no CRTC has, and those of each CRTC.
pub record Share : Type 0 where
  pub available : Mask
  pub crtcs : List Crtc

-- `exynos_atomic_check_windows` but for `visible_win_mask`, which follows: what was freed is available
-- for the next commit.
unfoldable pub check_windows : Mask → List (Option Change × Crtc) → Checked Share
check_windows available cs =
    elim (check_crtcs (record { available = available; freed = no_bits }) cs) [
      | err e ↦ err e
      | ok (p, cs') ↦ ok (record { available = or_bits p.available p.freed; crtcs = cs' })
    ]

-- `decon_get_win_id`, from a bit on with the bits counted before it; `none` is -EINVAL.
unfoldable pub win_from : ℕ → ℕ → ℕ → ℕ → Mask → Option ℕ
win_from zero bit i zpos f = none
win_from (suc left) bit i zpos f =
    let here = win_from left (suc bit) (suc i) zpos f in
    let past = win_from left (suc bit) i zpos f in
    if f bit then if i == zpos then some bit else here else past

unfoldable pub get_win_id : ℕ → Mask → ℕ → Option ℕ
get_win_id max_win f zpos = win_from max_win 0 0 zpos f

-- The part of a plane's state that the windows depend on.
pub record PlaneState : Type 0 where
  pub visible : Bool
  pub normalized_zpos : ℕ

unfoldable pub visible_zpos : List PlaneState → Mask
visible_zpos [] = no_bits
visible_zpos (p ∷ ps) =
    if p.visible then put_bit p.normalized_zpos (visible_zpos ps) else visible_zpos ps

-- The windows of a CRTC from a bit on, whose next one is for the plane at a position.
unfoldable pub visible_from : ℕ → ℕ → ℕ → Mask → Mask → Mask → Mask
visible_from zero bit zpos shown f out = out
visible_from (suc left) bit zpos shown f out =
    let here =
      visible_from left (suc bit) (suc zpos) shown f
        (if shown zpos then put_bit bit out else out) in
    let past = visible_from left (suc bit) zpos shown f out in if f bit then here else past

-- `visible_win_mask`, for a CRTC with planes or without.
unfoldable pub visible_win_mask : ℕ → Bool → List PlaneState → Mask → Mask
visible_win_mask max_win has_planes planes reserved =
    if has_planes then visible_from max_win 0 0 (visible_zpos planes) reserved no_bits else no_bits

-- `decon_is_win_used`
unfoldable pub is_win_used : ℕ → Mask → ℕ → Bool
is_win_used max_win visible win_id = if ltb max_win win_id then false else visible win_id
