-- ===== src/Windows/Owners.antt =====
-- No two planes have one window, and every plane has one.
use mathlib.Core.Option.{some-injective}
use google_modules_display_s.Prelude.{
  ℕ, zero, suc, ◌+◌, ◌-◌, ◌<◌, ◌≤◌, ◌≡◌, ◌≢◌, refl, sym, ap, ◌∙◌, true, false, some, List, [], ◌∷◌,
  arith, ltb, ◌==◌, Bool-cases, inl, inr, get_elem?, ℕ_discrete,
}
use google_modules_display_s.Windows.{
  Mask, bit_count, weight, Crtc, get_win_cnt, Share, win_from, get_win_id,
}
use google_modules_display_s.Windows.Bits.{weight_zero}
use google_modules_display_s.Windows.Shares.{
  held, AllServed, IsServed, IsShared, commit, Reach, here, next, check_windows-IsShared,
}

-- The window that is found is set, and as many are set below it as the position says.
win_from-IsNth :
    (left bit i zpos w : ℕ) (f : Mask)
    → i ≡ weight bit f
    → win_from left bit i zpos f ≡ some w
    → (f w ≡ true) × (weight w f ≡ zpos)
unfolding win_from weight
win_from-IsNth zero bit i zpos w f e h = ground arith
win_from-IsNth (suc left) bit i zpos w f e h = ground (
  arith,
  win_from-IsNth left (suc bit) (suc i) zpos w f,
  win_from-IsNth left (suc bit) i zpos w f,
)

end_bit : (n : ℕ) → n + 0 ≡ n
end_bit n = omega arith

next_bit : (n k : ℕ) → n + suc k ≡ suc n + k
next_bit n k = omega arith

next_bit' : (n k : ℕ) → n + suc k ≡ suc (n + k)
next_bit' n k = omega arith

-- A position below the number of set bits has a window.
win_from-Finds :
    (left bit i zpos : ℕ) (f : Mask)
    → i ≡ weight bit f
    → i ≤ zpos
    → zpos < weight (bit + left) f
    → (w : ℕ) × (win_from left bit i zpos f ≡ some w)
unfolding win_from weight
win_from-Finds zero bit i zpos f e h k =
    let bound = ap (λ n. weight n f) (end_bit bit) in absurd (omega (arith, bound))
win_from-Finds (suc left) bit i zpos f e h k =
    let bound = ap (λ n. weight n f) (next_bit bit left) in
    elim (Bool-cases (f bit)) [
      | inl set ↦ elim (Bool-cases (i == zpos)) [
        | inl found ↦ (bit, rw (set, found) refl)
        | inr other ↦
            rw (set, other)
              (win_from-Finds left (suc bit) (suc i) zpos f (ground (arith, set)) (ground arith)
                (omega (arith, bound)))
      ]
      | inr clear ↦
          rw (clear) (
            win_from-Finds left (suc bit) i zpos f (ground (arith, clear)) h (omega (arith, bound)))
    ]

held_once :
    (cs : List Crtc) (a : ℕ) (c : Crtc) (w : ℕ)
    → get_elem? cs a ≡ some c
    → bit_count (c.reserved w) ≤ held cs w
unfolding held
held_once [] a c w e = ground arith
held_once (x ∷ cs) zero c w e = ground (arith, e)
held_once (x ∷ cs) (suc a) c w e = omega (arith, held_once cs a c w e)

-- Two CRTCs that both have a window hold it twice.
held_twice :
    (cs : List Crtc) (a b : ℕ) (c d : Crtc) (w : ℕ)
    → get_elem? cs a ≡ some c
    → get_elem? cs b ≡ some d
    → a ≢ b
    → bit_count (c.reserved w) + bit_count (d.reserved w) ≤ held cs w
unfolding held
held_twice [] a b c d w ea eb ne = ground arith
held_twice (x ∷ cs) zero zero c d w ea eb ne = absurd (ne refl)
held_twice (x ∷ cs) zero (suc b) c d w ea eb ne = ground (arith, held_once cs b d w eb)
held_twice (x ∷ cs) (suc a) zero c d w ea eb ne = ground (arith, held_once cs a c w ea)
held_twice (x ∷ cs) (suc a) (suc b) c d w ea eb ne =
    omega (arith, held_twice cs a b c d w ea eb (λ e. ne (ap suc e)))

same_crtc :
    (cs : List Crtc) (a b : ℕ) (c d : Crtc)
    → a ≡ b
    → get_elem? cs a ≡ some c
    → get_elem? cs b ≡ some d
    → c ≡ d
same_crtc cs a b c d e ea eb = some-injective c d (sym ea ∙ ap (λ i. get_elem? cs i) e ∙ eb)

Served-at :
    (cs : List Crtc) (a : ℕ) (c : Crtc) → get_elem? cs a ≡ some c → AllServed cs → IsServed c
unfolding AllServed
Served-at [] a c e s = ground arith
Served-at (x ∷ cs) zero c e s = ground arith
Served-at (x ∷ cs) (suc a) c e s = Served-at cs a c e s.1

rest_of : (n : ℕ) → n ≤ 32 → n + (32 - n) ≡ 32
rest_of n h = omega arith

zero_add : (n : ℕ) → 0 + n ≡ n
zero_add n = omega arith

-- The bits of a CRTC are windows of the hardware.
weight_below :
    (k n : ℕ) (f : Mask) → ((i : ℕ) → n ≤ i → f i ≡ false) → weight (n + k) f ≡ weight n f
unfolding weight
weight_below zero n f h = ap (λ j. weight j f) (end_bit n)
weight_below (suc k) n f h =
    ap (λ j. weight j f) (next_bit' n k)
    ∙ ground (arith, h (n + k) (omega arith), weight_below k n f h)

-- Before the first commit: all windows are available.
unfoldable pub AllIdle : List Crtc → Type 0
AllIdle [] = Unit
AllIdle (c ∷ cs) = ((i : ℕ) → c.reserved i ≡ false) × (get_win_cnt c.usage ≡ 0) × AllIdle cs

abbrev pub start : ℕ → List Crtc → Share
start max_win cs = record { available = λ i. ltb i max_win; crtcs = cs }

Idle-none : (cs : List Crtc) → AllIdle cs → ((i : ℕ) → held cs i ≡ 0) × AllServed cs
unfolding AllIdle held AllServed
Idle-none [] h = (λ i. refl, tt)
Idle-none (c ∷ cs) (empty, unused, rest) =
    let r = Idle-none cs rest in
    (
      λ i. ground (arith, empty i, r.0 i),
      (weight_zero 32 c.reserved (λ j k. empty j) ∙ sym unused, r.1),
    )

Reach-IsShared :
    (max_win : ℕ) (cs : List Crtc) {s : Share}
    → AllIdle cs
    → Reach (start max_win cs) s
    → IsShared max_win s
Reach-IsShared max_win cs idle here =
    let r = Idle-none cs idle in record { once = λ i. omega (arith, r.0 i); served = r.1 }
Reach-IsShared max_win cs idle (next {t} path (commit items u e m r)) =
    check_windows-IsShared max_win t u items e m (Reach-IsShared max_win cs idle path) r

-- After any row of accepted commits from the start, in which the flags of a CRTC are set where its
-- count of windows changes: two planes that have the same window of the hardware are the same plane
-- of the same CRTC.
pub get_win_id-Apart :
    (max_win : ℕ) (cs : List Crtc) (s : Share) (a b z1 z2 w : ℕ) (c d : Crtc)
    → AllIdle cs
    → Reach (start max_win cs) s
    → get_elem? s.crtcs a ≡ some c
    → get_elem? s.crtcs b ≡ some d
    → get_win_id max_win c.reserved z1 ≡ some w
    → get_win_id max_win d.reserved z2 ≡ some w
    → (a ≡ b) × (z1 ≡ z2)
unfolding get_win_id weight
get_win_id-Apart max_win cs s a b z1 z2 w c d idle path ea eb h1 h2 =
    let v = Reach-IsShared max_win cs idle path in
    let n1 = win_from-IsNth max_win 0 0 z1 w c.reserved refl h1 in
    let n2 = win_from-IsNth max_win 0 0 z2 w d.reserved refl h2 in
    elim (ℕ_discrete a b) [
      | yes same ↦ (
        same,
        sym n1.1 ∙ ap (λ x. weight w x.reserved) (same_crtc s.crtcs a b c d same ea eb) ∙ n2.1,
      )
      | no other ↦
          absurd (ground (arith, held_twice s.crtcs a b c d w ea eb other, v.once w, n1.0, n2.0))
    ]

-- After any such row of commits, every plane of a CRTC, by its position below the count of windows
-- that the CRTC has a use for, has a window.
pub get_win_id-Finds :
    (max_win : ℕ) (cs : List Crtc) (s : Share) (a z : ℕ) (c : Crtc)
    → max_win ≤ 32
    → AllIdle cs
    → Reach (start max_win cs) s
    → get_elem? s.crtcs a ≡ some c
    → z < get_win_cnt c.usage
    → (w : ℕ) × (get_win_id max_win c.reserved z ≡ some w)
unfolding get_win_id weight
get_win_id-Finds max_win cs s a z c few idle path e h =
    let v = Reach-IsShared max_win cs idle path in
    let many = Served-at s.crtcs a c e v.served in
    let low =
      weight_below (32 - max_win) max_win c.reserved
        (λ i k. ground (arith, held_once s.crtcs a c i e, v.once i)) in
    let all = ap (λ n. weight n c.reserved) (rest_of max_win few) in
    win_from-Finds max_win 0 0 z c.reserved refl (omega arith)
      (rw (zero_add max_win) (omega (arith, many, low, all)))
