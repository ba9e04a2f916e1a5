-- ===== src/Windows/Visible.antt =====
-- The windows that are in use: those of the planes that are to be seen.
use google_modules_display_s.Prelude.{
  ℕ, zero, suc, ◌+◌, ◌<◌, ◌≤◌, ◌≡◌, refl, sym, ap, ◌∙◌, Bool, true, false, ◌&&◌, ◌||◌, some, List,
  [], ◌∷◌, arith, ◌==◌, if◌then◌else◌, ◌⊎◌, inl, inr, Bool-cases,
}
use google_modules_display_s.Windows.{
  Mask, no_bits, put_bit, win_from, get_win_id, PlaneState, visible_zpos, visible_from,
  visible_win_mask, is_win_used,
}

-- Whether some plane at a position is to be seen.
unfoldable pub is_shown : List PlaneState → ℕ → Bool
is_shown [] z = false
is_shown (p ∷ ps) z = p.visible && z == p.normalized_zpos || is_shown ps z

visible_zpos_lem : (planes : List PlaneState) (z : ℕ) → visible_zpos planes z ≡ is_shown planes z
unfolding visible_zpos is_shown
visible_zpos_lem [] z = refl
visible_zpos_lem (p ∷ ps) z = ground (arith, visible_zpos_lem ps z)

-- One turn of the loop, for a window that the CRTC has.
abbrev mark : ℕ → ℕ → Mask → Mask → Mask
mark bit i shown out = if shown i then put_bit bit out else out

mark_other :
    (bit i : ℕ) (shown out : Mask) (w : ℕ) → bit < w ⊎ w < bit → mark bit i shown out w ≡ out w
mark_other bit i shown out w h = elim (Bool-cases (shown i)) [
  | inl b ↦ rw (b) (ground arith)
  | inr b ↦ rw (b) refl
]

mark_self : (bit i : ℕ) (shown out : Mask) → mark bit i shown out bit ≡ (shown i || out bit)
mark_self bit i shown out = elim (Bool-cases (shown i)) [
  | inl b ↦ rw (b) (ground arith)
  | inr b ↦ rw (b) refl
]

-- The loop leaves the bits that it has passed.
visible_from-below :
    (left bit i : ℕ) (shown f out : Mask) (w : ℕ)
    → w < bit
    → visible_from left bit i shown f out w ≡ out w
unfolding visible_from
visible_from-below zero bit i shown f out w h = refl
visible_from-below (suc left) bit i shown f out w h = elim (Bool-cases (f bit)) [
  | inl b ↦
      let a =
        visible_from-below left (suc bit) (suc i) shown f (mark bit i shown out) w (omega arith) in
      rw (b) (a ∙ mark_other bit i shown out w (inr h))
  | inr b ↦ rw (b) (visible_from-below left (suc bit) i shown f out w (omega arith))
]

-- The window that a plane is given is in use exactly if the plane is to be seen.
abbrev Given : ℕ → ℕ → ℕ → ℕ → Mask → Mask → Mask → ℕ → Type 0
Given left bit i z shown f out w =
    (bit ≤ w) × (w < bit + left) × (visible_from left bit i shown f out w ≡ (shown z || out w))

visible_from-Given :
    (left bit i z : ℕ) (shown f out : Mask) (w : ℕ)
    → win_from left bit i z f ≡ some w
    → Given left bit i z shown f out w
unfolding visible_from win_from
visible_from-Given zero bit i z shown f out w e = ground arith
visible_from-Given (suc left) bit i z shown f out w e = elim (Bool-cases (f bit)) [
  | inr b ↦
      let r = visible_from-Given left (suc bit) i z shown f out w (ground arith) in
      rw (b) (omega (arith, r.0), omega (arith, r.1), r.2)
  | inl b ↦ elim (Bool-cases (i == z)) [
    | inr k ↦
        let r =
          visible_from-Given left (suc bit) (suc i) z shown f (mark bit i shown out) w
            (ground arith) in
        let m = mark_other bit i shown out w (inl (omega (arith, r.0))) in
        rw (b) (omega (arith, r.0), omega (arith, r.1), r.2 ∙ ap (λ t. shown z || t) m)
    | inl k ↦
        let same : bit ≡ w = ground arith in
        let at : i ≡ z = ground arith in
        let r =
          visible_from-below left (suc bit) (suc i) shown f (mark bit i shown out) bit
            (omega arith) in
        rw (b, sym same, sym at) (omega arith, omega arith, r ∙ mark_self bit i shown out)
  ]
]

-- For a CRTC with planes, whatever windows it has: the window that the plane at a position is given is
-- in use exactly if some plane at that position is to be seen.
pub is_win_used-get_win_id :
    (max_win z w : ℕ) (planes : List PlaneState) (reserved : Mask)
    → get_win_id max_win reserved z ≡ some w
    → is_win_used max_win (visible_win_mask max_win true planes reserved) w ≡ is_shown planes z
unfolding get_win_id visible_win_mask is_win_used
is_win_used-get_win_id max_win z w planes reserved e =
    let g = visible_from-Given max_win 0 0 z (visible_zpos planes) reserved no_bits w e in
    let v = visible_zpos_lem planes z in ground (arith, g.1, g.2, v)
