-- ===== src/Bts/Bandwidth/Lines.antt =====
-- The bandwidth on each line of the panel, and the loops that take its maximum over the first lines of
-- the windows.
pub mod Least
use google_modules_display_s.Prelude.{
  ℕ, zero, suc, ◌+◌, ◌-◌, ◌*◌, ◌/◌, ◌%◌, ◌≤◌, ◌<◌, ◌≡◌, refl, sym, ap, ◌∙◌, max, Bool, true, false,
  ◌||◌, ◌&&◌, not, Option, none, some, List, [], ◌∷◌, ltb, leb, ◌==◌, if◌then◌else◌, u32, arith,
  Bool-cases, inl, inr, ◌⊎◌,
}
use google_modules_display_s.Bts.{WinState, WinConfig, Bts}
use google_modules_display_s.Bts.Bandwidth.{
  is_buffer, get_rt_bw, ch_num, on_port, is_win_half_covered, covering_bw, overlap_bw, under_rcd,
  overlaps, rcd_total, every, update_overlap_bw,
}

-- Whether a window covers a line.
abbrev pub covers : WinConfig → ℕ → Bool
covers w y = leb w.dst_y y && ltb y (w.dst_y + w.dst_h)

module _ (b : Bts) (on : WinConfig → Bool) where
  -- The bandwidth on line `y` of the windows of `on`.
  pub load : List WinConfig → ℕ → ℕ
  load [] y = 0
  load (w ∷ ws) y = (if is_buffer w && (on w && covers w y) then get_rt_bw b w else 0) + load ws y

  -- Their bandwidth in all.
  unfoldable pub need : List WinConfig → ℕ
  need [] = 0
  need (w ∷ ws) = (if is_buffer w && on w then get_rt_bw b w else 0) + need ws

-- The last line of each window is a word of 32 bits.
abbrev pub InWords : List WinConfig → Type 0
InWords [] = Unit
InWords (w ∷ ws) = (w.dst_y + w.dst_h < 4294967296) × InWords ws

half_covered :
    (w0 w1 : WinConfig)
    → w1.dst_y + w1.dst_h < 4294967296
    → is_win_half_covered false w0 w1 ≡ covers w1 w0.dst_y
unfolding is_win_half_covered
half_covered w0 w1 h = ground arith

module _ (b : Bts) (on : WinConfig → Bool) where
  pub load-need : (ws : List WinConfig) (y : ℕ) → load b on ws y ≤ need b on ws
  unfolding load need
  load-need [] y = omega arith
  load-need (w ∷ ws) y = ground (arith, load-need ws y)

  pub covering :
      (i : ℕ) (wi : WinConfig) (j : ℕ) (ws : List WinConfig)
      → InWords ws
      → need b on ws < 4294967296
      → (load b on ws wi.dst_y ≤ covering_bw b on i wi j ws)
        × (covering_bw b on i wi j ws ≤ need b on ws)
  unfolding covering_bw load need is_win_half_covered
  covering i wi j [] r h = (omega arith, omega arith)
  covering i wi j (w ∷ ws) r h =
      let rest = covering i wi (suc j) ws r.1 (ground (arith, h)) in
      let inside = r.0 in ground (arith, rest, inside, h)

  overlap_covers :
      (rcd : WinConfig) (all : List WinConfig) (i : ℕ) (wi : WinConfig)
      → InWords (rcd ∷ all)
      → need b on (rcd ∷ all) < 4294967296
      → load b on (rcd ∷ all) wi.dst_y ≤ overlap_bw b on rcd all i wi
  unfolding overlap_bw load need is_win_half_covered
  overlap_covers rcd all i wi r h =
      let rest = covering i wi 0 all r.1 (ground (arith, h)) in
      let inside = r.0 in ground (arith, rest, inside, h)

  -- What the loop adds up on the first line of the rounded corners.
  pub rcd_covers :
      (rcd : WinConfig) (all : List WinConfig) (i : ℕ) (ws : List WinConfig)
      → InWords ws
      → need b on ws < 4294967296
      → (if is_buffer rcd && on rcd then load b on ws rcd.dst_y else 0)
        ≡ (overlaps b on rcd all i ws).1
  unfolding overlaps under_rcd load need is_win_half_covered
  rcd_covers rcd all i [] r h = ground arith
  rcd_covers rcd all i (w ∷ ws) r h =
      let rest = rcd_covers rcd all (suc i) ws r.1 (ground (arith, h)) in
      let inside = r.0 in
      let small = load-need ws rcd.dst_y in ground (arith, rest, inside, h, small)

  -- Whether some window begins at line `y`.
  unfoldable pub starts : List WinConfig → ℕ → Bool
  starts [] y = false
  starts (w ∷ ws) y = (is_buffer w && (on w && (w.dst_y == y))) || starts ws y

  -- A line on which no window begins has no more load than the line above it.
  load_falls :
      (ws : List WinConfig) (y : ℕ)
      → starts ws (suc y) ≡ false
      → load b on ws (suc y) ≤ load b on ws y
  unfolding load starts
  load_falls [] y e = omega arith
  load_falls (w ∷ ws) y e =
      let rest = load_falls ws y (ground (arith, e)) in ground (arith, rest, e)

  no_load : (ws : List WinConfig) → starts ws 0 ≡ false → load b on ws 0 ≡ 0
  unfolding load starts
  no_load [] e = refl
  no_load (w ∷ ws) e = let rest = no_load ws (ground (arith, e)) in ground (arith, rest, e)

  -- So a bound on the lines on which windows begin is one on all lines.
  pub every_line :
      (ws : List WinConfig) (bound : ℕ)
      → ((y : ℕ) → starts ws y ≡ true → load b on ws y ≤ bound)
      → (y : ℕ) → load b on ws y ≤ bound
  every_line ws bound h zero = elim (Bool-cases (starts ws 0)) [
    | inl e ↦ h 0 e
    | inr e ↦ omega (arith, no_load ws e)
  ]
  every_line ws bound h (suc y) = elim (Bool-cases (starts ws (suc y))) [
    | inl e ↦ h (suc y) e
    | inr e ↦ omega (arith, load_falls ws y e, every_line ws bound h y)
  ]

  pub window_covers :
      (rcd : WinConfig) (all : List WinConfig) (i : ℕ) (ws : List WinConfig) (y : ℕ)
      → InWords (rcd ∷ all)
      → need b on (rcd ∷ all) < 4294967296
      → starts ws y ≡ true
      → load b on (rcd ∷ all) y ≤ (overlaps b on rcd all i ws).0
  unfolding overlaps starts
  window_covers rcd all i [] y r h e = ground (arith, e)
  window_covers rcd all i (w ∷ ws) y r h e =
      elim (Bool-cases (is_buffer w && (on w && (w.dst_y == y)))) [
        | inl s ↦
            let at : y ≡ w.dst_y = ground (arith, s) in
            let here = overlap_covers rcd all i w r h in
            let here' : load b on (rcd ∷ all) y ≤ overlap_bw b on rcd all i w = rw at here in
            ground (arith, here', s)
        | inr s ↦
            let rest = window_covers rcd all (suc i) ws y r h (ground (arith, s, e)) in
            ground (arith, rest, s)
      ]

  pub rcd_line :
      (rcd : WinConfig) (all : List WinConfig) (y : ℕ)
      → on rcd ≡ true
      → InWords all
      → need b on (rcd ∷ all) < 4294967296
      → is_buffer rcd && (rcd.dst_y == y) ≡ true
      → load b on (rcd ∷ all) y ≤ rcd_total b rcd (overlaps b on rcd all 0 all).1
  unfolding load need rcd_total
  rcd_line rcd all y o r h e =
      let at : y ≡ rcd.dst_y = ground (arith, e) in
      let sum = rcd_covers rcd all 0 all r (ground (arith, h)) in
      let small = load-need all rcd.dst_y in rw at (ground (arith, sum, small, h, o, e))

-- The load depends on the bandwidths of the planes only.
pub load_same :
    (b b' : Bts) (c : ℕ)
    → b.rt_bw ≡ b'.rt_bw
    → (ws : List WinConfig) (y : ℕ)
    → (load b (on_port b c) ws y ≡ load b' (on_port b' c) ws y)
      × (need b (on_port b c) ws ≡ need b' (on_port b' c) ws)
unfolding load need get_rt_bw ch_num
load_same b b' c e [] y = (refl, refl)
load_same b b' c e (w ∷ ws) y = let rest = load_same b b' c e ws y in rw e (ground (arith, rest))

pub need_same :
    (b b' : Bts) → b.rt_bw ≡ b'.rt_bw → (ws : List WinConfig) → need b every ws ≡ need b' every ws
unfolding need get_rt_bw
need_same b b' e [] = refl
need_same b b' e (w ∷ ws) = let rest = need_same b b' e ws in rw e (ground (arith, rest))

pub need_port : (b : Bts) (c : ℕ) (ws : List WinConfig) → need b (on_port b c) ws ≤ need b every ws
unfolding need
need_port b c [] = omega arith
need_port b c (w ∷ ws) = let rest = need_port b c ws in ground (arith, rest)

-- If no sum overflows, no line of the panel, whatever windows and rounded corners cover it, carries more
-- bandwidth than the rt_avg_bw that dpu_bts_update_overlap_bw computes.
pub update_overlap_bw-covers :
    (b : Bts)
    → InWords (b.rcd_config ∷ b.win_config)
    → need b every (b.rcd_config ∷ b.win_config) < 4294967296
    → (y : ℕ) → load b every (b.rcd_config ∷ b.win_config) y ≤ (update_overlap_bw b).rt_avg_bw
unfolding update_overlap_bw starts
update_overlap_bw-covers b r h = every_line b every (b.rcd_config ∷ b.win_config) _ (λ y e.
    elim (Bool-cases (starts b every b.win_config y)) [
      | inl s ↦
          omega (arith, window_covers b every b.rcd_config b.win_config 0 b.win_config y r h s)
      | inr s ↦
          omega
            (arith, rcd_line b every b.rcd_config b.win_config y refl r.1 h (ground (arith, e, s)))
    ])
