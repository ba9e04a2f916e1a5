-- ===== src/Dp/Training/Ladder.antt =====
-- The links that dp_do_full_link_training tries, as a list: for each number of lanes from the best down,
-- every rate from the best down.
pub mod Descent
pub mod Outcome
use google_modules_display_s.Prelude.{
  ℕ, zero, suc, ◌+◌, ◌-◌, ◌*◌, ◌/◌, ◌≤◌, ◌<◌, ◌≡◌, refl, sym, ap, ◌∙◌, min, Bool, true, false, not,
  ◌&&◌, ◌||◌, Option, none, some, List, [], ◌∷◌, ◌++◌, map, length, arith, Bool-cases, Option-cases,
  inl, inr, ◌⊎◌, if◌then◌else◌, ltb, leb, ◌==◌, Ret, Errno,
}
use google_modules_display_s.Dp.{
  Rates, Caps, Link, Dp, with_link, get_max_link_rate, is_valid_rate, is_valid_lanes,
}
use google_modules_display_s.Dp.Training.{
  Line, try_link, next_link, get_lower_link_rate, end_training, full_training, end_turn,
}
use google_modules_display_s.Dp.Training.Rounds.{Apart, Ends, try_link-Ends}

abbrev pub keep : (ℕ → Bool) → List ℕ → List ℕ
keep f [] = []
keep f (n ∷ ns) = let rest = keep f ns in if f n then n ∷ rest else rest

abbrev pub flatten : List (List Link) → List Link
flatten [] = []
flatten (ls ∷ lss) = ls ++ flatten lss

abbrev pub on_lanes : Rates → ℕ → ℕ → Link
on_lanes r n c = record { link_rate = r.link_rate c; num_lanes = n }

-- The standard rates up to `top`, from the highest down, on `n` lanes.
pub rungs : Rates → ℕ → ℕ → List Link
rungs r top n = map (on_lanes r n) (keep (λ c. leb c (r.bw_code top)) (30 ∷ 20 ∷ 10 ∷ 6 ∷ []))

pub ladder : Rates → ℕ → ℕ → List Link
ladder r top n = flatten (map (rungs r top) (keep (λ k. leb k n) (4 ∷ 2 ∷ 1 ∷ [])))

-- To try links in the order of a list until one is trained or the cable is out.
pub try_each : Rates → Line → ℕ → Dp → List Link → Option (Ret × Dp × ℕ)
try_each r line t dp [] = some (some Errno.eio, end_training dp, t)
try_each r line t dp (l ∷ ls) = elim (line.unplugged t) [
  | true ↦ some (some Errno.eio, end_training (with_link dp l), suc t)
  | false ↦
      end_turn (λ dp' t'. try_each r line t' dp' ls) (try_link r line (suc t) (with_link dp l))
]

-- The links `ls` are those that next_link gives after `l`, one after the other.
abbrev pub Chain : Rates → ℕ → Link → List Link → Type 0
Chain r top l [] = next_link r top l ≡ none
Chain r top l (m ∷ ms) = (next_link r top l ≡ some m) × Chain r top m ms

end_turn_same :
    (f g : Dp → ℕ → Option (Ret × Dp × ℕ)) (w : Bool × Dp × ℕ)
    → f w.1 w.2 ≡ g w.1 w.2
    → end_turn f (some w) ≡ end_turn g (some w)
unfolding end_turn
end_turn_same f g (true, dp, t) e = refl
end_turn_same f g (false, dp, t) e = e

-- The rest of the row after a failure, where training of the rest is known.
climb :
    (fuel : ℕ) (r : Rates) (line : Line) (top : ℕ) (l : Link) (ls : List Link)
    → ((dp : Dp) (t : ℕ) (ms : List Link)
        → length ms < fuel
        → get_max_link_rate r dp.host dp.sink ≡ top
        → Chain r top dp.link ms
        → full_training fuel r line t dp ≡ try_each r line t dp (dp.link ∷ ms))
    → length ls < suc fuel
    → Chain r top l ls
    → (dp : Dp) (t : ℕ) → get_max_link_rate r dp.host dp.sink ≡ top
    → elim (next_link r top l) [
      | none ↦ some (some Errno.eio, end_training dp, t)
      | some m ↦ full_training fuel r line t (record dp { link = m })
    ]
      ≡ try_each r line t dp ls
unfolding try_each with_link
climb fuel r line top l [] train h c dp t k = rw c refl
climb fuel r line top l (m ∷ ms) train h c dp t k =
    rw c.0 (train (record dp { link = m }) t ms (omega arith) k c.1)

pub training_tries :
    (fuel : ℕ) (r : Rates) (line : Line) (t top : ℕ) (dp : Dp) (ls : List Link)
    → length ls < fuel
    → get_max_link_rate r dp.host dp.sink ≡ top
    → Chain r top dp.link ls
    → full_training fuel r line t dp ≡ try_each r line t dp (dp.link ∷ ls)
unfolding full_training try_each with_link
training_tries zero r line t top dp ls h e c = absurd (omega arith)
training_tries (suc fuel) r line t top dp ls h e c = elim (Bool-cases (line.unplugged t)) [
  | inl out ↦ rw (full_training, try_each, out) refl
  | inr in_place ↦
      rw (full_training, try_each, in_place)
        (let (w, ew, a) = try_link-Ends r line (suc t) dp in
          let top_kept =
            ap (λ (c : Caps). get_max_link_rate r c w.1.sink) a.apart.same_host
            ∙ ap (λ (c : Caps). get_max_link_rate r dp.host c) a.apart.same_sink
            ∙ e in
          rw ew (
            end_turn_same _ _ w (
              rw top_kept (
                rw a.apart.same_link (
                  climb fuel r line top dp.link ls
                    (λ dp' t' ms. training_tries fuel r line t' top dp' ms) h c w.1 w.2
                    top_kept)))))
]
