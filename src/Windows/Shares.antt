-- ===== src/Windows/Shares.antt =====
-- The windows over any row of commits: none is shared, none is lost.
use google_modules_display_s.Prelude.{
  ℕ, zero, suc, ◌+◌, ◌-◌, ◌<◌, ◌≤◌, ◌≡◌, refl, sym, ap, true, not, ◌||◌, Option, none, some, List,
  [], ◌∷◌, arith, ltb, ◌==◌, ◌⊎◌, inl, inr, Bool-cases, Errno, dec_lt,
}
use google_modules_display_s.Windows.{
  Mask, no_bits, or_bits, and_not, bit_count, weight, find_set_bits_mask, Usage, get_win_cnt, Crtc,
  Change, Pool, Checked, ok, err, to_free, shrink, grow, check_crtc, cons_crtc, check_crtcs, Share,
  check_windows,
}
use google_modules_display_s.Windows.Bits.{
  weight_add, weight-no_bits, Takes, find_bits-Takes, find_bits_short,
}

-- How often a window is in the pool.
abbrev pub in_pool : Pool → ℕ → ℕ
in_pool p i = bit_count (p.available i) + bit_count (p.freed i)

-- As many windows as the CRTC has a use for.
abbrev pub IsServed : Crtc → Type 0
IsServed c = weight 32 c.reserved ≡ get_win_cnt c.usage

-- What DRM does with the flags of a change: without one, the count of windows stays.
abbrev pub IsMarked : Option Change → Crtc → Type 0
IsMarked none c = Unit
IsMarked (some ch) c = (ch.changed ≡ true) ⊎ (get_win_cnt ch.usage ≡ get_win_cnt c.usage)

-- One turn of the loop keeps every window where it is, or moves it between the pool and the CRTC.
record Keeps (p q : Pool) (c d : Crtc) : Type 0 where
  moves : (i : ℕ) → in_pool q i + bit_count (d.reserved i) ≡ in_pool p i + bit_count (c.reserved i)
  serves : IsServed d

-- The windows that a shrinking CRTC gives back.
gives_back :
    (old new : ℕ) (reserved : Mask)
    → weight 32 reserved ≡ old
    → (weight 32 (to_free old new reserved) ≡ old - new)
      × ((i : ℕ) → bit_count (to_free old new reserved i) ≤ bit_count (reserved i))
unfolding to_free
gives_back old zero reserved e = (omega (arith, e), λ i. omega arith)
gives_back old (suc new) reserved e =
    let t =
      find_bits-Takes (old - suc new) reserved no_bits (omega (arith, e)) (λ i. ground arith) in
    (omega (arith, t.many, weight-no_bits 32), λ i. omega (arith, t.from i))

shrink-Keeps :
    (old new : ℕ) (u : Usage) (p : Pool) (c : Crtc)
    → weight 32 c.reserved ≡ old
    → get_win_cnt u ≡ new
    → new < old
    → ((i : ℕ) → in_pool p i + bit_count (c.reserved i) ≤ 1)
    → Keeps p (shrink old new u p c.reserved).0 c (shrink old new u p c.reserved).1
unfolding shrink
shrink-Keeps old new u p c e f h once =
    let r = to_free old new c.reserved in
    let g = gives_back old new c.reserved e in
    let parts = weight_add 32 (and_not c.reserved r) r c.reserved (λ i. ground (arith, g.1 i)) in
    record { moves = λ i. ground (arith, g.1 i, once i); serves = omega (arith, parts, g.0, e, f) }

taken-Keeps :
    (old new : ℕ) (u : Usage) (p q : Pool) (c d : Crtc) (m : Mask)
    → weight 32 c.reserved ≡ old
    → get_win_cnt u ≡ new
    → old < new
    → ((i : ℕ) → in_pool p i + bit_count (c.reserved i) ≤ 1)
    → Takes (new - old) p.available no_bits m
    → q ≡ record p { available = and_not p.available m }
    → d ≡ record { usage = u; reserved = or_bits c.reserved m }
    → Keeps p q c d
taken-Keeps old new u p q c d m e f h once t eq ed =
    let parts =
      weight_add 32 c.reserved m (or_bits c.reserved m) (λ i. ground (arith, t.from i, once i)) in
    rw (eq, ed)
      (record {
        moves = λ i. ground (arith, t.from i, once i);
        serves = omega (arith, parts, t.many, weight-no_bits 32, e, f);
      })

grow-Keeps :
    (old new : ℕ) (u : Usage) (p q : Pool) (c d : Crtc)
    → weight 32 c.reserved ≡ old
    → get_win_cnt u ≡ new
    → old < new
    → ((i : ℕ) → in_pool p i + bit_count (c.reserved i) ≤ 1)
    → grow old new u p c.reserved ≡ ok (q, d)
    → Keeps p q c d
unfolding grow
grow-Keeps old new u p q c d e f h once r = elim (dec_lt (weight 32 p.available) (new - old)) [
  | yes few ↦
      let none_free = find_bits_short (new - old) p.available no_bits few in
      ground (arith, none_free, weight-no_bits 32)
  | no many ↦
      let t = find_bits-Takes (new - old) p.available no_bits (omega arith) (λ i. ground arith) in
      taken-Keeps old new u p q c d (find_set_bits_mask p.available (new - old)) e f h once t
        (ground (arith, t.many, weight-no_bits 32)) (ground (arith, t.many, weight-no_bits 32))
]

stays-Keeps :
    (p q : Pool) (c d : Crtc) (u : Usage)
    → q ≡ p
    → d ≡ record c { usage = u }
    → get_win_cnt u ≡ get_win_cnt c.usage
    → IsServed c
    → Keeps p q c d
stays-Keeps p q c d u eq ed same s =
    rw (eq, ed) (record { moves = λ i. refl; serves = omega (arith, same, s) })

-- One turn of the loop.
check_crtc-Keeps :
    (ch : Option Change) (p q : Pool) (c d : Crtc)
    → IsServed c
    → IsMarked ch c
    → ((i : ℕ) → in_pool p i + bit_count (c.reserved i) ≤ 1)
    → check_crtc ch p c ≡ ok (q, d)
    → Keeps p q c d
unfolding check_crtc
check_crtc-Keeps none p q c d s m once e =
    stays-Keeps p q c d c.usage (ground arith) (ground arith) refl s
check_crtc-Keeps (some ch) p q c d s m once e =
    elim (Bool-cases (not ch.changed || get_win_cnt c.usage == get_win_cnt ch.usage)) [
      | inl same ↦ stays-Keeps p q c d ch.usage (ground arith) (ground arith) (ground arith) s
      | inr more ↦ elim (Bool-cases (ltb (get_win_cnt ch.usage) (get_win_cnt c.usage))) [
        | inl less ↦
            let e' : shrink (get_win_cnt c.usage) (get_win_cnt ch.usage) ch.usage p c.reserved
                ≡ (q, d) =
              ground arith in
            rw (ap (λ x. x.0) (sym e'), ap (λ x. x.1) (sym e'))
              (shrink-Keeps (get_win_cnt c.usage) (get_win_cnt ch.usage) ch.usage p c s refl
                (ground arith) once)
        | inr grows ↦
            grow-Keeps (get_win_cnt c.usage) (get_win_cnt ch.usage) ch.usage p q c d s refl
              (ground arith) once (ground arith)
      ]
    ]

-- How often a window is with the CRTCs.
unfoldable pub held : List Crtc → ℕ → ℕ
held [] i = 0
held (c ∷ cs) i = bit_count (c.reserved i) + held cs i

unfoldable pub AllServed : List Crtc → Type 0
AllServed [] = Unit
AllServed (c ∷ cs) = IsServed c × AllServed cs

unfoldable pub AllMarked : List (Option Change × Crtc) → Type 0
AllMarked [] = Unit
AllMarked ((ch, c) ∷ rest) = IsMarked ch c × AllMarked rest

abbrev pub crtcs_of : List (Option Change × Crtc) → List Crtc
crtcs_of [] = []
crtcs_of ((ch, c) ∷ rest) = c ∷ crtcs_of rest

Checked-cases : {A : Type 0} (x : Checked A) → ((a : A) × (x ≡ ok a)) ⊎ ((e : Errno) × (x ≡ err e))
Checked-cases (ok a) = inl (a, refl)
Checked-cases (err e) = inr (e, refl)

-- A loop that succeeds did so on the first CRTC and on the others.
check_crtcs_inv :
    (p q : Pool) (ch : Option Change) (c : Crtc) (rest : List (Option Change × Crtc))
    (ds : List Crtc)
    → check_crtcs p ((ch, c) ∷ rest) ≡ ok (q, ds)
    → (p' : Pool) × (c' : Crtc) × (ds' : List Crtc) × (check_crtc ch p c ≡ ok (p', c'))
      × (check_crtcs p' rest ≡ ok (q, ds'))
      × (ds ≡ c' ∷ ds')
unfolding check_crtcs cons_crtc
check_crtcs_inv p q ch c rest ds e = elim (Checked-cases (check_crtc ch p c)) [
  | inl ((p', c'), first) ↦ elim (Checked-cases (check_crtcs p' rest)) [
    | inl ((q', ds'), others) ↦ (p', c', ds', first, ground arith, ground arith)
    | inr (x, others) ↦ ground arith
  ]
  | inr (x, first) ↦ ground arith
]

check_crtcs-Keeps :
    (p q : Pool) (items : List (Option Change × Crtc)) (ds : List Crtc)
    → AllServed (crtcs_of items)
    → AllMarked items
    → ((i : ℕ) → in_pool p i + held (crtcs_of items) i ≤ 1)
    → check_crtcs p items ≡ ok (q, ds)
    → ((i : ℕ) → in_pool q i + held ds i ≡ in_pool p i + held (crtcs_of items) i) × AllServed ds
unfolding check_crtcs held AllServed AllMarked
check_crtcs-Keeps p q [] ds s m once e =
    let eq : q ≡ p = ground arith in let ed : ds ≡ [] = ground arith in rw (eq, ed) (λ i. refl, tt)
check_crtcs-Keeps p q ((ch, c) ∷ rest) ds s m once e =
    let (p', c', ds', first, others, ed) = check_crtcs_inv p q ch c rest ds e in
    let k = check_crtc-Keeps ch p p' c c' s.0 m.0 (λ i. omega (arith, once i)) first in
    let l =
      check_crtcs-Keeps p' q rest ds' s.1 m.1 (λ i. omega (arith, once i, k.moves i)) others in
    rw (ed) (λ i. omega (arith, k.moves i, l.0 i), (k.serves, l.1))

-- Every window of the hardware is with one CRTC or available, and never with two; each CRTC has as
-- many as it has a use for.
pub record IsShared (max_win : ℕ) (s : Share) : Type 0 where
  pub once : (i : ℕ) → bit_count (s.available i) + held s.crtcs i ≡ bit_count (ltb i max_win)
  pub served : AllServed s.crtcs

-- The commits that are accepted, one after the other.
pub data Step (s : Share) : Share → Type 0 where
  commit :
      (items : List (Option Change × Crtc)) (t : Share)
      → crtcs_of items ≡ s.crtcs
      → AllMarked items
      → check_windows s.available items ≡ ok t
      → Step s t

pub data Reach (s : Share) : Share → Type 0 where
  here : Reach s s
  next : {t u : Share} → Reach s t → Step t u → Reach s u

pub check_windows-IsShared :
    (max_win : ℕ) (s t : Share) (items : List (Option Change × Crtc))
    → crtcs_of items ≡ s.crtcs
    → AllMarked items
    → IsShared max_win s
    → check_windows s.available items ≡ ok t
    → IsShared max_win t
unfolding check_windows
check_windows-IsShared max_win s t items e m v r =
    let p : Pool = record { available = s.available; freed = no_bits } in
    elim (Checked-cases (check_crtcs p items)) [
      | inl ((q, ds), ran) ↦
          let k =
            check_crtcs-Keeps p q items ds (rw (e) v.served) m
              (λ i. rw (e) (ground (arith, v.once i))) ran in
          let et : t ≡ record { available = or_bits q.available q.freed; crtcs = ds } =
            ground arith in
          rw (et) (record {
            once = λ i. ground (arith, k.0 i, v.once i, ap (λ cs. held cs i) e);
            served = k.1;
          })
      | inr (x, ran) ↦ ground arith
    ]
