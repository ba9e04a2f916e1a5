-- ===== src/Dp/Training/Ladder/Outcome.antt =====
-- What a full training ends with.
use google_modules_display_s.Prelude.{
  ℕ, zero, suc, ◌+◌, ◌*◌, ◌≤◌, ◌≡◌, refl, sym, ap, ◌∙◌, Bool, true, false, Option, none, some, List,
  [], ◌∷◌, map, length, get_elem?, leb, length-map, length-append, arith, inl, inr, ◌⊎◌, Ret, Errno,
  Bool-cases,
}
use mathlib.Core.Option
use mathlib.Core.Option.{some-injective}
use google_modules_display_s.Dp.{
  Rates, Link, Dp, with_link, get_max_link_rate, is_valid_rate, is_valid_lanes,
}
use google_modules_display_s.Dp.Training.{
  Line, eq_loop, link_training_eq, equalize, try_link, end_turn, end_training, validate,
  full_training,
}
use google_modules_display_s.Dp.Training.Rounds.{link_training_cr-Ends, try_link-Ends}
use google_modules_display_s.Dp.Training.Ladder.{keep, flatten, on_lanes, rungs, ladder, try_each}
use google_modules_display_s.Dp.Training.Ladder.Descent.{full_training-ladder}

-- The status read last, just before `t`, was good on all lanes of the link.
pub record Good (line : Line) (dp : Dp) (t : ℕ) : Type 0 where
  pub read : ℕ
  pub is_last : t ≡ suc read
  pub recovered : (line.status read).clock_recovery_ok dp.link.num_lanes ≡ true
  pub equalized : (line.status read).channel_eq_ok dp.link.num_lanes ≡ true

-- A run that says that training succeeded is right.
abbrev Honest : Line → Bool × Dp × ℕ → Type 0
Honest line w = w.0 ≡ true → Good line w.1 w.2

eq_loop-Honest : (n : ℕ) (line : Line) (t : ℕ) (dp : Dp) → Honest line (eq_loop n line t dp)
unfolding eq_loop
eq_loop-Honest zero line t dp = λ e. ground (arith, e)
eq_loop-Honest (suc n) line t dp =
    let next =
      eq_loop-Honest n line (suc t) (record dp { lanes = (validate (line.status t) dp).lanes }) in
    elim (Bool-cases ((line.status t).clock_recovery_ok dp.link.num_lanes)) [
      | inl c ↦ elim (Bool-cases ((line.status t).channel_eq_ok dp.link.num_lanes)) [
        | inl q ↦
            rw c (rw q (λ e. record { read = t; is_last = refl; recovered = c; equalized = q }))
        | inr q ↦ rw c (rw q next)
      ]
      | inr c ↦ rw c (λ e. ground (arith, e))
    ]

equalize-Honest : (r : Rates) (line : Line) (w : Bool × Dp × ℕ) → Honest line (equalize r line w)
unfolding equalize link_training_eq
equalize-Honest r line (true, dp, t) = eq_loop-Honest 6 line t _
equalize-Honest r line (false, dp, t) = λ e. ground (arith, e)

try_link-Honest :
    (r : Rates) (line : Line) (t : ℕ) (dp : Dp) (w : Bool × Dp × ℕ)
    → try_link r line t dp ≡ some w
    → Honest line w
unfolding try_link
try_link-Honest r line t dp w e =
    let (v, ev, a) = link_training_cr-Ends line t dp in
    let same : equalize r line v ≡ w =
      some-injective _ _ (ap (Option.map (equalize r line)) (sym ev) ∙ e) in
    rw⁻¹ same (equalize-Honest r line v)

-- What try_each ends with on a row of links: a trained link of the row, or -EIO.
pub record Trained (line : Line) (ls : List Link) (dp : Dp) (t : ℕ) : Type 0 where
  pub place : ℕ
  pub tried : get_elem? ls place ≡ some dp.link
  pub good : Good line dp t

pub record Outcome (line : Line) (ls : List Link) (t : ℕ) (w : Ret × Dp × ℕ) : Type 0 where
  pub verdict : ((w.0 ≡ none) × Trained line ls w.1 w.2) ⊎ (w.0 ≡ some Errno.eio)
  pub quiet : (w.1.hw_pattern ≡ 0) × (w.1.sink_pattern ≡ 0)
  pub within : w.2 ≤ t + length ls * 18

ended : (dp : Dp) → ((end_training dp).hw_pattern ≡ 0) × ((end_training dp).sink_pattern ≡ 0)
unfolding end_training
ended dp = (refl, refl)

after_try :
    (line : Line) (t : ℕ) (l : Link) (ls : List Link) (retry : Dp → ℕ → Option (Ret × Dp × ℕ))
    (w : Bool × Dp × ℕ)
    → w.1.link ≡ l
    → w.2 ≤ t + 18
    → Honest line w
    → ((v : Ret × Dp × ℕ) × (retry w.1 w.2 ≡ some v) × Outcome line ls w.2 v)
    → (v : Ret × Dp × ℕ) × (end_turn retry (some w) ≡ some v) × Outcome line (l ∷ ls) t v
unfolding end_turn end_training
after_try line t l ls retry (true, dp, u) e within good rest =
    let g = good refl in
    (
      (none, end_training dp, u),
      refl,
      record {
        verdict = inl (
          refl,
          record {
            place = 0;
            tried = ap some (sym e);
            good = record {
              read = g.read;
              is_last = g.is_last;
              recovered = g.recovered;
              equalized = g.equalized;
            };
          },
        );
        quiet = ended dp;
        within = omega (arith, within);
      },
    )
after_try line t l ls retry (false, dp, u) e within good (v, ev, o) = (
  v,
  ev,
  record {
    verdict = elim o.verdict [
      | inl (ok, tr) ↦ inl (ok, record { place = suc tr.place; tried = tr.tried; good = tr.good })
      | inr failed ↦ inr failed
    ];
    quiet = o.quiet;
    within = omega (arith, within, o.within);
  },
)

try_each-Outcome :
    (r : Rates) (line : Line) (t : ℕ) (dp : Dp) (ls : List Link)
    → (w : Ret × Dp × ℕ) × (try_each r line t dp ls ≡ some w) × Outcome line ls t w
unfolding try_each with_link
try_each-Outcome r line t dp [] = (
  (some Errno.eio, end_training dp, t),
  refl,
  record { verdict = inr refl; quiet = ended dp; within = omega arith },
)
try_each-Outcome r line t dp (l ∷ ls) = elim (Bool-cases (line.unplugged t)) [
  | inl out ↦
      rw (try_each, out)
        (
          (some Errno.eio, end_training (with_link dp l), suc t),
          refl,
          record { verdict = inr refl; quiet = ended (with_link dp l); within = omega arith },
        )
  | inr there ↦
      rw (try_each, there)
        (let (w, ew, a) = try_link-Ends r line (suc t) (with_link dp l) in
          rw ew (
            after_try line t l ls _ w a.apart.same_link (omega (arith, a.within))
              (try_link-Honest r line (suc t) (with_link dp l) w ew)
              (try_each-Outcome r line w.2 w.1 ls)))
]

length-keep : (f : ℕ → Bool) (ns : List ℕ) → length (keep f ns) ≤ length ns
length-keep f [] = omega arith
length-keep f (n ∷ ns) = ground (arith, length-keep f ns)

length-rungs : (r : Rates) (top n : ℕ) → length (rungs r top n) ≤ 4
unfolding rungs
length-rungs r top n =
    let all : List ℕ = 30 ∷ 20 ∷ 10 ∷ 6 ∷ [] in
    let f : ℕ → Bool = λ c. leb c (r.bw_code top) in
    omega (arith, length-map (keep f all) (on_lanes r n), length-keep f all)

rows_length :
    (r : Rates) (top : ℕ) (ns : List ℕ) → length (flatten (map (rungs r top) ns)) ≤ length ns * 4
rows_length r top [] = omega arith
rows_length r top (n ∷ ns) = omega (
  arith,
  length-append (rungs r top n) (flatten (map (rungs r top) ns)),
  length-rungs r top n,
  rows_length r top ns,
)

length-ladder : (r : Rates) (top n : ℕ) → length (ladder r top n) ≤ 12
unfolding ladder
length-ladder r top n =
    let ns = keep (λ k. leb k n) (4 ∷ 2 ∷ 1 ∷ []) in
    omega (arith, rows_length r top ns, length-keep (λ k. leb k n) (4 ∷ 2 ∷ 1 ∷ []))

-- A full training from the best standard link of two ends returns, after at most 216 questions to the
-- hardware: with 0 on a link of the ladder whose last status shows clock recovery and channel equalization
-- on all its lanes, or with -EIO; and both ends are back to normal data in either case.
pub full_training-Outcome :
    (r : Rates) (line : Line) (t top n : ℕ) (dp : Dp)
    → is_valid_rate r top ≡ true
    → is_valid_lanes n ≡ true
    → get_max_link_rate r dp.host dp.sink ≡ top
    → dp.link ≡ record { link_rate = top; num_lanes = n }
    → (w : Ret × Dp × ℕ) × (full_training 12 r line t dp ≡ some w)
      × Outcome line (ladder r top n) t w
      × (w.2 ≤ t + 216)
full_training-Outcome r line t top n dp vr vl e at_link =
    let (w, ew, o) = try_each-Outcome r line t dp (ladder r top n) in
    (
      w,
      full_training-ladder r line t top n dp vr vl e at_link ∙ ew,
      o,
      omega (arith, o.within, length-ladder r top n),
    )
