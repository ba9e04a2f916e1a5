-- ===== src/Bts/Bandwidth/Ports.antt =====
-- The bandwidth on each line of the panel that goes over one port of the bus.
use google_modules_display_s.Prelude.{
  ℕ, zero, suc, ◌+◌, ◌≤◌, ◌<◌, ◌≡◌, refl, ◌∙◌, max, true, false, ◌&&◌, List, [], ◌∷◌, ltb, ◌==◌,
  u32, arith, Bool-cases, inl, inr, get_or, set, length, length-set,
}
use google_modules_display_s.Bts.{WinConfig, Bts}
use google_modules_display_s.Bts.Bandwidth.{
  is_buffer, get_rt_bw, ch_num, on_port, overlap_bw, under_rcd, overlaps, rcd_total, port_overlaps,
  update_disp_ch_bw,
}
use google_modules_display_s.Bts.Bandwidth.Lines.{
  load, need, InWords, starts, every_line, window_covers, rcd_line,
}

get_or-set_self : (xs : List ℕ) (i v : ℕ) → i < length xs → get_or (set xs i v) i 0 ≡ v
get_or-set_self [] i v h = absurd (omega arith)
get_or-set_self (x ∷ xs) zero v h = refl
get_or-set_self (x ∷ xs) (suc i) v h = get_or-set_self xs i v (omega arith)

get_or-set_ne :
    (xs : List ℕ) (i j v : ℕ) → (i == j) ≡ false → get_or (set xs i v) j 0 ≡ get_or xs j 0
get_or-set_ne [] i j v h = refl
get_or-set_ne (x ∷ xs) zero zero v h = ground (arith, h)
get_or-set_ne (x ∷ xs) zero (suc j) v h = refl
get_or-set_ne (x ∷ xs) (suc i) zero v h = refl
get_or-set_ne (x ∷ xs) (suc i) (suc j) v h = get_or-set_ne xs i j v (ground (arith, h))

module _ (b : Bts) (rcd : WinConfig) (all : List WinConfig) where
  two_ports : (i : ℕ) (ws : List WinConfig) → length (port_overlaps b rcd all i ws).0 ≡ 2
  unfolding port_overlaps
  two_ports i [] = refl
  two_ports i (w ∷ ws) =
      let rest = port_overlaps b rcd all (suc i) ws in
      let c = ch_num b w in
      let n =
        length-set rest.0 c (max (get_or rest.0 c 0) (overlap_bw b (on_port b c) rcd all i w)) in
      let same = two_ports (suc i) ws in
      elim (Bool-cases (is_buffer w && ltb c 2)) [ inl e ↦ rw e (n ∙ same) | inr e ↦ rw e same ]

  -- The entry of a port is the maximum over the windows on it.
  port_entry :
      (c i : ℕ) (ws : List WinConfig)
      → c < 2
      → get_or (port_overlaps b rcd all i ws).0 c 0 ≡ (overlaps b (on_port b c) rcd all i ws).0
  unfolding port_overlaps overlaps
  port_entry zero i [] h = refl
  port_entry (suc zero) i [] h = refl
  port_entry (suc (suc c)) i [] h = absurd (omega arith)
  port_entry c i (w ∷ ws) h =
      let rest = port_overlaps b rcd all (suc i) ws in
      let two = two_ports (suc i) ws in
      let same = port_entry c (suc i) ws h in
      elim (Bool-cases (c == ch_num b w)) [
        | inl e ↦
            let at : ch_num b w ≡ c = ground (arith, e) in
            let v = max (get_or rest.0 c 0) (overlap_bw b (on_port b c) rcd all i w) in
            let put = get_or-set_self rest.0 c v (omega (arith, two, h)) in
            rw at (ground (arith, put, same, h))
        | inr e ↦
            let c' = ch_num b w in
            let v = max (get_or rest.0 c' 0) (overlap_bw b (on_port b c') rcd all i w) in
            let kept = get_or-set_ne rest.0 c' c v (ground (arith, e)) in
            ground (arith, kept, same, e)
      ]

  -- So is the sum over the windows on the port of the rounded corners.
  port_sum :
      (i : ℕ) (ws : List WinConfig)
      → ch_num b rcd < 2
      → (port_overlaps b rcd all i ws).1 ≡ (overlaps b (on_port b (ch_num b rcd)) rcd all i ws).1
  unfolding port_overlaps overlaps under_rcd
  port_sum i [] h = refl
  port_sum i (w ∷ ws) h = let same = port_sum (suc i) ws h in ground (arith, same, h)

-- The entry of a port is at least what both loops found for it.
windows_in :
    (b : Bts) (c : ℕ)
    → c < 2
    → (overlaps b (on_port b c) b.rcd_config b.win_config 0 b.win_config).0
      ≤ get_or (update_disp_ch_bw b).ch_bw c 0
unfolding update_disp_ch_bw
windows_in b c h =
    let r = b.rcd_config in
    let found = port_overlaps b r b.win_config 0 b.win_config in
    let entry = port_entry b r b.win_config c 0 b.win_config h in
    let two = two_ports b r b.win_config 0 b.win_config in
    elim (Bool-cases (c == ch_num b r)) [
      | inl e ↦
          let at : ch_num b r ≡ c = ground (arith, e) in
          let put =
            get_or-set_self found.0 c (max (get_or found.0 c 0) (u32 (found.1 + get_rt_bw b r)))
              (omega (arith, two, h)) in
          rw at (ground (arith, put, entry))
      | inr e ↦
          let c' = ch_num b r in
          let kept =
            get_or-set_ne found.0 c' c (max (get_or found.0 c' 0) (u32 (found.1 + get_rt_bw b r)))
              (ground (arith, e)) in
          ground (arith, kept, entry)
    ]

corner_in :
    (b : Bts) (c : ℕ)
    → c < 2
    → is_buffer b.rcd_config ≡ true
    → ch_num b b.rcd_config ≡ c
    → rcd_total b b.rcd_config (overlaps b (on_port b c) b.rcd_config b.win_config 0 b.win_config).1
      ≤ get_or (update_disp_ch_bw b).ch_bw c 0
unfolding update_disp_ch_bw rcd_total
corner_in b c h buf at =
    let r = b.rcd_config in
    let found = port_overlaps b r b.win_config 0 b.win_config in
    let two = two_ports b r b.win_config 0 b.win_config in
    let sum = port_sum b r b.win_config 0 b.win_config (omega (arith, at, h)) in
    let sum' : found.1 ≡ (overlaps b (on_port b c) r b.win_config 0 b.win_config).1 =
      rw at at sum in
    let put =
      get_or-set_self found.0 c (max (get_or found.0 c 0) (u32 (found.1 + get_rt_bw b r)))
        (omega (arith, two, h)) in
    rw at (ground (arith, put, sum', buf, h))

-- If no sum overflows, then on no line of the panel more bandwidth goes over a port of the bus, rounded
-- corners included, than its entry of ch_bw that dpu_bts_update_disp_ch_bw computes.
pub update_disp_ch_bw-covers :
    (b : Bts) (c : ℕ)
    → c < 2
    → InWords (b.rcd_config ∷ b.win_config)
    → need b (on_port b c) (b.rcd_config ∷ b.win_config) < 4294967296
    → (y : ℕ)
    → load b (on_port b c) (b.rcd_config ∷ b.win_config) y ≤ get_or (update_disp_ch_bw b).ch_bw c 0
unfolding starts
update_disp_ch_bw-covers b c h r n =
    every_line b (on_port b c) (b.rcd_config ∷ b.win_config) _ (λ y e.
      elim (Bool-cases (starts b (on_port b c) b.win_config y)) [
        | inl s ↦ omega (
          arith,
          windows_in b c h,
          window_covers b (on_port b c) b.rcd_config b.win_config 0 b.win_config y r n s,
        )
        | inr s ↦
            let on : on_port b c b.rcd_config ≡ true = ground (arith, e, s) in
            let at : ch_num b b.rcd_config ≡ c = ground (arith, on) in
            let buf : is_buffer b.rcd_config ≡ true = ground (arith, e, s) in
            omega (
              arith,
              corner_in b c h buf at,
              rcd_line b (on_port b c) b.rcd_config b.win_config y on r.1 n (ground (arith, e, s)),
            )
      ])
