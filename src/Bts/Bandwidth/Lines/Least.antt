-- ===== src/Bts/Bandwidth/Lines/Least.antt =====
-- The maximum over the first lines of the windows is no more than the maximum over all lines.
use google_modules_display_s.Prelude.{
  ℕ, zero, suc, ◌+◌, ◌≤◌, ◌<◌, ◌≡◌, refl, sym, ap, Bool, true, some, List, [], ◌∷◌, ◌==◌, arith,
  Bool-cases, inl, inr, get_elem?,
}
use mathlib.Core.Path.{subst}
use mathlib.Core.Option.{some-injective}
use google_modules_display_s.Bts.{WinConfig, Bts}
use google_modules_display_s.Bts.Bandwidth.{
  is_win_half_covered, covering_bw, overlap_bw, overlaps, rcd_total, every, update_overlap_bw,
}
use google_modules_display_s.Bts.Bandwidth.Lines.{
  load, need, InWords, load-need, rcd_covers, update_overlap_bw-covers,
}

-- Each window has a line.
abbrev pub Tall : List WinConfig → Type 0
Tall [] = Unit
Tall (w ∷ ws) = (0 < w.dst_h) × Tall ws

-- At place `i` of the list, whose first place is `j`, stands `wi`.
At : ℕ → WinConfig → ℕ → List WinConfig → Type 0
At i wi j [] = Unit
At i wi j (w ∷ ws) = ((i == j) ≡ true → w ≡ wi) × At i wi (suc j) ws

past-At : (i : ℕ) (wi : WinConfig) (j : ℕ) (ws : List WinConfig) → i < j → At i wi j ws
unfolding At
past-At i wi j [] h = tt
past-At i wi j (w ∷ ws) h = (λ e. ground (arith, e, h), past-At i wi (suc j) ws (omega arith))

found-At :
    (i j : ℕ) (wi : WinConfig) (ws : List WinConfig) → get_elem? ws i ≡ some wi → At (i + j) wi j ws
unfolding At
found-At i j wi [] e = tt
found-At zero j wi (w ∷ ws) e =
    (λ s. some-injective w wi e, past-At (0 + j) wi (suc j) ws (omega arith))
found-At (suc i) j wi (w ∷ ws) e =
    let next = found-At i (suc j) wi ws e in
    let at : suc i + j ≡ i + suc j = omega arith in
    (λ s. ground (arith, s), subst (λ x. At x wi (suc j) ws) (sym at) next)

-- The list `ws` begins at place `i` of `all`.
Rest : ℕ → List WinConfig → List WinConfig → Type 0
Rest i all ws = (k : ℕ) → get_elem? all (i + k) ≡ get_elem? ws k

Rest-At : (i : ℕ) (w : WinConfig) (all ws : List WinConfig) → Rest i all (w ∷ ws) → At i w 0 all
unfolding Rest
Rest-At i w all ws r =
    let at : i + 0 ≡ i = omega arith in
    let a = found-At i 0 w all (let h = r 0 in rw at at h) in rw at at a

next-Rest :
    (i : ℕ) (w : WinConfig) (all ws : List WinConfig) → Rest i all (w ∷ ws) → Rest (suc i) all ws
unfolding Rest
next-Rest i w all ws r k = let at : suc i + k ≡ i + suc k = omega arith in rw at (r (suc k))

module _ (b : Bts) (on : WinConfig → Bool) where
  covering_le :
      (i : ℕ) (wi : WinConfig) (j : ℕ) (ws : List WinConfig)
      → 0 < wi.dst_h
      → At i wi j ws
      → InWords ws
      → need b on ws < 4294967296
      → covering_bw b on i wi j ws ≤ load b on ws wi.dst_y
  unfolding covering_bw load need is_win_half_covered At
  covering_le i wi j [] tall a r h = omega arith
  covering_le i wi j (w ∷ ws) tall a r h =
      let rest = covering_le i wi (suc j) ws tall a.1 r.1 (ground (arith, h)) in
      let inside = r.0 in
      elim (Bool-cases (i == j)) [
        | inl e ↦
            let same = a.0 e in
            let top = ap (λ (x : WinConfig). x.dst_y) same in
            let height = ap (λ (x : WinConfig). x.dst_h) same in
            ground (arith, rest, inside, h, top, height, tall)
        | inr e ↦ ground (arith, rest, inside, h, e)
      ]

  overlap_le :
      (rcd : WinConfig) (all : List WinConfig) (i : ℕ) (wi : WinConfig)
      → 0 < wi.dst_h
      → At i wi 0 all
      → InWords (rcd ∷ all)
      → need b on (rcd ∷ all) < 4294967296
      → overlap_bw b on rcd all i wi ≤ load b on (rcd ∷ all) wi.dst_y
  unfolding overlap_bw load need is_win_half_covered
  overlap_le rcd all i wi tall a r h =
      let rest = covering_le i wi 0 all tall a r.1 (ground (arith, h)) in
      let inside = r.0 in
      let small = load-need b on all wi.dst_y in ground (arith, rest, inside, h, small)

  windows_le :
      (rcd : WinConfig) (all : List WinConfig) (bound : ℕ) (i : ℕ) (ws : List WinConfig)
      → Rest i all ws
      → Tall ws
      → InWords (rcd ∷ all)
      → need b on (rcd ∷ all) < 4294967296
      → ((y : ℕ) → load b on (rcd ∷ all) y ≤ bound)
      → (overlaps b on rcd all i ws).0 ≤ bound
  unfolding overlaps
  windows_le rcd all bound i [] s tall r h le = omega arith
  windows_le rcd all bound i (w ∷ ws) s tall r h le =
      let rest = windows_le rcd all bound (suc i) ws (next-Rest i w all ws s) tall.1 r h le in
      let here = overlap_le rcd all i w tall.0 (Rest-At i w all ws s) r h in
      let line = le w.dst_y in ground (arith, rest, here, line)

  rcd_le :
      (rcd : WinConfig) (all : List WinConfig)
      → on rcd ≡ true
      → 0 < rcd.dst_h
      → InWords (rcd ∷ all)
      → need b on (rcd ∷ all) < 4294967296
      → rcd_total b rcd (overlaps b on rcd all 0 all).1 ≤ load b on (rcd ∷ all) rcd.dst_y
  unfolding load need rcd_total
  rcd_le rcd all o tall r h =
      let sum = rcd_covers b on rcd all 0 all r.1 (ground (arith, h)) in
      let small = load-need b on all rcd.dst_y in ground (arith, sum, small, h, o, tall)

-- If no sum overflows and each window has a line, the rt_avg_bw that dpu_bts_update_overlap_bw computes
-- is the highest bandwidth on a line of the panel: no line carries more, and no number below it bounds
-- all lines.
pub update_overlap_bw-Least :
    (b : Bts)
    → Tall (b.rcd_config ∷ b.win_config)
    → InWords (b.rcd_config ∷ b.win_config)
    → need b every (b.rcd_config ∷ b.win_config) < 4294967296
    → ((y : ℕ) → load b every (b.rcd_config ∷ b.win_config) y ≤ (update_overlap_bw b).rt_avg_bw)
      × ((bound : ℕ)
          → ((y : ℕ) → load b every (b.rcd_config ∷ b.win_config) y ≤ bound)
          → (update_overlap_bw b).rt_avg_bw ≤ bound)
unfolding update_overlap_bw Rest
update_overlap_bw-Least b tall r h = (
  update_overlap_bw-covers b r h,
  λ bound le.
      let wins =
        windows_le b every b.rcd_config b.win_config bound 0 b.win_config
          (λ k. let at : 0 + k ≡ k = omega arith in rw at refl) tall.1 r h le in
      let corner = rcd_le b every b.rcd_config b.win_config refl tall.0 r h in
      let line = le b.rcd_config.dst_y in omega (arith, wins, corner, line),
)
