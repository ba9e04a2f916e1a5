-- ===== src/Dp/Training/Rounds.antt =====
-- The two loops of link training end: ten rounds of clock recovery at most, and six of equalization.
use google_modules_display_s.Prelude.{
  ℕ, zero, suc, ◌+◌, ◌-◌, ◌≤◌, ◌<◌, ◌≡◌, refl, ap, ◌∙◌, Bool, true, false, some, arith, Bool-cases,
  Option-cases, inl, inr, replicate,
}
use mathlib.Core.Option
use google_modules_display_s.Dp.{Rates, Dp}
use google_modules_display_s.Dp.Training.Levels.{Levels, validate-Unmoved, zero_lanes-Levels}
use google_modules_display_s.Dp.Training.{
  Line, Round, validate, next_round, goes_on, cr_loop, first_round, zero_lane, link_training_cr,
  eq_loop, link_training_eq, equalize, try_link,
}

-- What both loops leave alone; and levels in bounds stay so.
pub record Apart (dp dp' : Dp) : Type 0 where
  pub same_link : dp'.link ≡ dp.link
  pub same_host : dp'.host ≡ dp.host
  pub same_sink : dp'.sink ≡ dp.sink
  pub levels_kept : Levels dp.lanes → Levels dp'.lanes

-- A run that ends between t and t + n, at an answer that `ok` accepts.
pub record Ends (dp : Dp) (t n : ℕ) (w : Bool × Dp × ℕ) : Type 0 where
  pub apart : Apart dp w.1
  pub after : t ≤ w.2
  pub within : w.2 ≤ t + n

kept :
    (line : Line) (t : ℕ) (dp : Dp) → Levels dp.lanes → Levels (validate (line.status t) dp).lanes
kept line t dp v = (validate-Unmoved (line.status t) dp v).1

next_counts :
    (same maxed : Bool) (k k' : Round)
    → next_round same maxed k ≡ some k'
    → k'.fail_long ≡ suc k.fail_long
unfolding next_round
next_counts same maxed k k' e = ground arith

goes_on_bound : (k : Round) → goes_on k ≡ true → k.fail_long < 10
unfolding goes_on
goes_on_bound k e = ground arith

cr-Ends :
    (fuel : ℕ) (line : Line) (t : ℕ) (k : Round) (dp : Dp)
    → k.fail_long < 10
    → 10 ≤ k.fail_long + fuel
    → (w : Bool × Dp × ℕ) × (cr_loop fuel line t k dp ≡ some w) × Ends dp t (10 - k.fail_long) w
unfolding cr_loop
cr-Ends zero line t k dp h f = absurd (omega arith)
cr-Ends (suc fuel) line t k dp h f =
    let v = validate (line.status t) dp in
    let dp' = record dp { lanes = v.lanes } in
    let ends : (b : Bool) → Ends dp t (10 - k.fail_long) (b, dp', suc t) = λ b. record {
      apart = record {
        same_link = refl;
        same_host = refl;
        same_sink = refl;
        levels_kept = λ v. kept line t dp v;
      };
      after = omega arith;
      within = omega arith;
    } in
    elim (Bool-cases ((line.status t).clock_recovery_ok dp.link.num_lanes)) [
      | inl e ↦ rw e ((true, dp', suc t), refl, ends true)
      | inr e ↦ rw e (elim (Option-cases (next_round v.same v.maxed k)) [
        | inl stop ↦ rw stop ((false, dp', suc t), refl, ends false)
        | inr (k', go) ↦ rw go (elim (Bool-cases (goes_on k')) [
          | inr off ↦ rw off ((false, dp', suc t), refl, ends false)
          | inl on ↦ rw on (
              let one = next_counts v.same v.maxed k k' go in
              let (w, ew, a) =
                cr-Ends fuel line (suc t) k' dp' (goes_on_bound k' on) (omega (arith, one)) in
              let bound = goes_on_bound k' on in
              (
                w,
                ew,
                record {
                  apart = record {
                    same_link = a.apart.same_link;
                    same_host = a.apart.same_host;
                    same_sink = a.apart.same_sink;
                    levels_kept = λ v. a.apart.levels_kept (kept line t dp v);
                  };
                  after = omega (arith, a.after);
                  within = omega (arith, a.within, one, bound);
                },
              ))
        ])
      ])
    ]

eq-Ends : (n : ℕ) (line : Line) (t : ℕ) (dp : Dp) → Ends dp t n (eq_loop n line t dp)
unfolding eq_loop
eq-Ends zero line t dp = record {
  apart = record { same_link = refl; same_host = refl; same_sink = refl; levels_kept = λ v. v };
  after = omega arith;
  within = omega arith;
}
eq-Ends (suc n) line t dp =
    let dp' = record dp { lanes = (validate (line.status t) dp).lanes } in
    let a = eq-Ends n line (suc t) dp' in
    let ends : (b : Bool) → Ends dp t (suc n) (b, dp', suc t) = λ b. record {
      apart = record {
        same_link = refl;
        same_host = refl;
        same_sink = refl;
        levels_kept = λ v. kept line t dp v;
      };
      after = omega arith;
      within = omega arith;
    } in
    elim (Bool-cases ((line.status t).clock_recovery_ok dp.link.num_lanes)) [
      | inl e ↦ rw e (elim (Bool-cases ((line.status t).channel_eq_ok dp.link.num_lanes)) [
        | inl q ↦ rw q (ends true)
        | inr q ↦ rw q (record {
          apart = record {
            same_link = a.apart.same_link;
            same_host = a.apart.same_host;
            same_sink = a.apart.same_sink;
            levels_kept = λ v. a.apart.levels_kept (kept line t dp v);
          };
          after = omega (arith, a.after);
          within = omega (arith, a.within);
        })
      ])
      | inr e ↦ rw e (ends false)
    ]

later :
    (n m : ℕ) {dp dp' : Dp} {t t' : ℕ} {w : Bool × Dp × ℕ}
    → Apart dp dp'
    → t ≤ t'
    → t' ≤ t + n
    → Ends dp' t' m w
    → Ends dp t (n + m) w
later n m a from to e = record {
  apart = record {
    same_link = e.apart.same_link ∙ a.same_link;
    same_host = e.apart.same_host ∙ a.same_host;
    same_sink = e.apart.same_sink ∙ a.same_sink;
    levels_kept = λ v. e.apart.levels_kept (a.levels_kept v);
  };
  after = omega (arith, from, e.after);
  within = omega (arith, to, e.within);
}

pub link_training_cr-Ends :
    (line : Line) (t : ℕ) (dp : Dp)
    → (w : Bool × Dp × ℕ) × (link_training_cr line t dp ≡ some w) × Ends dp t 11 w
unfolding link_training_cr
link_training_cr-Ends line t dp =
    let dp' = record dp { lanes = replicate 4 zero_lane; sink_pattern = 0 } in
    let dp1 = record dp' { hw_pattern = 1; sink_pattern = 1 } in
    elim (Bool-cases (line.reinit_fails t)) [
      | inl e ↦ rw e (
        (false, dp', suc t),
        refl,
        record {
          apart = record {
            same_link = refl;
            same_host = refl;
            same_sink = refl;
            levels_kept = λ v. zero_lanes-Levels;
          };
          after = omega arith;
          within = omega arith;
        },
      )
      | inr e ↦ rw e (
          let (w, ew, a) = cr-Ends 10 line (suc t) first_round dp1 (omega arith) (omega arith) in
          (
            w,
            ew,
            later 1 10
                (record {
                  same_link = refl;
                  same_host = refl;
                  same_sink = refl;
                  levels_kept = λ v. zero_lanes-Levels;
                })
                (omega arith) (omega arith) a,
          ))
    ]

link_training_eq-Ends :
    (r : Rates) (line : Line) (t : ℕ) (dp : Dp) → Ends dp t 6 (link_training_eq r line t dp)
unfolding link_training_eq
link_training_eq-Ends r line t dp =
    let a = eq-Ends 6 line t _ in
    record {
      apart = record {
        same_link = a.apart.same_link;
        same_host = a.apart.same_host;
        same_sink = a.apart.same_sink;
        levels_kept = λ v. a.apart.levels_kept v;
      };
      after = a.after;
      within = a.within;
    }

equalize-Ends :
    (r : Rates) (line : Line) (t : ℕ) (dp : Dp) (w : Bool × Dp × ℕ)
    → Ends dp t 11 w
    → Ends dp t 17 (equalize r line w)
unfolding equalize
equalize-Ends r line t dp (true, dp', t') a =
    later 11 6 a.apart a.after a.within (link_training_eq-Ends r line t' dp')
equalize-Ends r line t dp (false, dp', t') a = record {
  apart = a.apart;
  after = a.after;
  within = omega (arith, a.within);
}

-- One try of a link always ends, after at most 17 questions to the hardware; it leaves the link and both
-- ends alone and keeps the levels of the lanes in bounds.
pub try_link-Ends :
    (r : Rates) (line : Line) (t : ℕ) (dp : Dp)
    → (w : Bool × Dp × ℕ) × (try_link r line t dp ≡ some w) × Ends dp t 17 w
unfolding try_link
try_link-Ends r line t dp =
    let (w, ew, a) = link_training_cr-Ends line t dp in
    (equalize r line w, ap (Option.map (equalize r line)) ew, equalize-Ends r line t dp w a)
