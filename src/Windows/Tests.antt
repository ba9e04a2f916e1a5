-- ===== src/Windows/Tests.antt =====
-- Two CRTCs: one is turned on with three planes and then keeps two, the other is turned on in
-- between without a plane.
use google_modules_display_s.Prelude.{
  ℕ, zero, suc, ◌≡◌, refl, true, false, ◌||◌, ◌==◌, Option, none, some, List, [], ◌∷◌, arith, inl,
}
use google_modules_display_s.Windows.{
  Usage, Crtc, Change, Checked, ok, err, Share, check_windows, check_crtcs, check_crtc, cons_crtc,
  shrink, to_free, grow, find_bits, first_bit, weight, get_win_cnt, get_win_id, win_from, no_bits,
  Mask, PlaneState, visible_win_mask, is_win_used,
}
use google_modules_display_s.Windows.Shares.{Step, commit, Reach, here, next, AllMarked}
use google_modules_display_s.Windows.Visible.{is_shown, is_win_used-get_win_id}
use google_modules_display_s.Windows.Owners.{start, AllIdle, get_win_id-Apart, get_win_id-Finds}

abbrev off : Usage
off = record { enable = false; effectively_active = false; planes = 0 }

abbrev with_planes : ℕ → Usage
with_planes n = record { enable = true; effectively_active = true; planes = n }

abbrev idle : List Crtc
idle = record { usage = off; reserved = no_bits } ∷ record { usage = off; reserved = no_bits } ∷ []

abbrev share_of : Checked Share → Share
share_of (ok s) = s
share_of (err e) = start 14 idle

abbrev to : ℕ → Option Change
to n = some (record { usage = with_planes n; changed = true })

abbrev items1 : List (Option Change × Crtc)
items1 =
    (to 3, record { usage = off; reserved = no_bits })
    ∷ (none, record { usage = off; reserved = no_bits })
    ∷ []

share1 : Share
unfolding check_windows
share1 = share_of (check_windows (λ i. (start 14 idle).available i) items1)

idle-AllIdle : AllIdle idle
unfolding AllIdle get_win_cnt
idle-AllIdle = ((λ i. refl), refl, ((λ i. refl), refl, tt))

first_commit : Step (start 14 idle) share1
unfolding share1 AllMarked check_windows check_crtcs check_crtc cons_crtc grow find_bits first_bit
    weight get_win_cnt
first_commit = commit items1 share1 refl (inl refl, (tt, tt)) refl

abbrev crtc_at : ℕ → List Crtc → Crtc
crtc_at n [] = record { usage = off; reserved = no_bits }
crtc_at zero (c ∷ cs) = c
crtc_at (suc n) (c ∷ cs) = crtc_at n cs

-- The first CRTC gives one window back, and the second takes one.
abbrev items2 : List (Option Change × Crtc)
items2 = (to 2, crtc_at 0 share1.crtcs) ∷ (to 0, crtc_at 1 share1.crtcs) ∷ []

share2 : Share
unfolding check_windows
share2 = share_of (check_windows (λ i. share1.available i) items2)

second_commit : Step share1 share2
unfolding share1 share2 AllMarked check_windows check_crtcs check_crtc cons_crtc grow shrink to_free
    find_bits first_bit weight get_win_cnt
second_commit = commit items2 share2 refl (inl refl, (inl refl, tt)) refl

commits : Reach (start 14 idle) share2
commits = next (next here first_commit) second_commit

-- The windows 1 and 2 are left to the first CRTC, and the second has window 3.
given :
    (get_win_id 14 (crtc_at 0 share2.crtcs).reserved 1 ≡ some 2)
    × (get_win_id 14 (crtc_at 1 share2.crtcs).reserved 0 ≡ some 3)
unfolding get_win_id win_from share2 share1 check_windows check_crtcs check_crtc cons_crtc grow
    shrink to_free find_bits first_bit weight get_win_cnt
given = (refl, refl)

get_win_id-Apart_example : ◌≡◌ {A = ℕ} 0 0 × ◌≡◌ {A = ℕ} 1 1
unfolding share2 share1 check_windows check_crtcs check_crtc cons_crtc grow shrink to_free find_bits
    first_bit weight get_win_cnt
get_win_id-Apart_example =
    get_win_id-Apart 14 idle share2 0 0 1 1 2 (crtc_at 0 share2.crtcs) (crtc_at 0 share2.crtcs)
      idle-AllIdle commits refl refl given.0 given.0

get_win_id-Finds_example : (w : ℕ) × (get_win_id 14 (crtc_at 0 share2.crtcs).reserved 1 ≡ some w)
unfolding share2 share1 check_windows check_crtcs check_crtc cons_crtc grow shrink to_free find_bits
    first_bit weight get_win_cnt
get_win_id-Finds_example =
    get_win_id-Finds 14 idle share2 0 1 (crtc_at 0 share2.crtcs) (omega arith) idle-AllIdle commits
      refl (omega arith)

-- A CRTC with the windows 1, 3 and 4, whose second plane is hidden.
abbrev windows : Mask
windows i = i == 1 || i == 3 || i == 4

abbrev planes : List PlaneState
planes =
    record { visible = true; normalized_zpos = 2 }
    ∷ record { visible = false; normalized_zpos = 1 }
    ∷ record { visible = true; normalized_zpos = 0 }
    ∷ []

second : get_win_id 14 windows 1 ≡ some 3
unfolding get_win_id win_from
second = refl

is_win_used-get_win_id_example :
    is_win_used 14 (visible_win_mask 14 true planes windows) 3 ≡ is_shown planes 1
is_win_used-get_win_id_example = is_win_used-get_win_id 14 1 3 planes windows second
