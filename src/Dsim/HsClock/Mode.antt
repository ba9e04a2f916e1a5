-- ===== src/Dsim/HsClock/Mode.antt =====
-- Which entry of the PLL table dsim_get_clock_mode finds for the name of a mode.
use google_modules_display_s.Prelude.{
  ℕ, zero, suc, ◌+◌, ◌≡◌, ◌<◌, ◌⊎◌, inl, inr, refl, sym, ap, ◌∙◌, Option, some, none, Bool, true,
  false, arith, get_elem?, take, length, ◌==◌, List, [], ◌∷◌, Bool-cases,
}
use mathlib.Core.Option.{some-injective}
use mathlib.Core.Bool.{true≢false}
use google_modules_display_s.Dsim.State.{Dsim, PllParam}
use google_modules_display_s.Dsim.HsClock.{is_prefix, search_mode, get_clock_mode}

-- The first 32 characters of the entry's name begin the name of the mode, or are all of it.
abbrev pub matches : List ℕ → PllParam → Bool
matches name q = is_prefix (take 32 q.name) (take 32 name)

abbrev pub exact : List ℕ → PllParam → Bool
exact name q = length (take 32 q.name) == length (take 32 name)

abbrev pub NoMatch : List ℕ → List PllParam → Type 0
NoMatch name qs = (r : ℕ) (q : PllParam) → get_elem? qs r ≡ some q → matches name q ≡ false

-- Entry t is the first exact match, or the last match where no match is exact.
pub record Chosen (name : List ℕ) (qs : List PllParam) (t : ℕ) : Type 0 where
  pub entry : PllParam
  pub at : get_elem? qs t ≡ some entry
  pub matched : matches name entry ≡ true
  pub first :
      (r : ℕ) (q : PllParam)
      → r < t
      → get_elem? qs r ≡ some q
      → matches name q ≡ true
      → exact name q ≡ false
  pub last :
      exact name entry ≡ false
      → (r : ℕ) (q : PllParam) → t < r
      → get_elem? qs r ≡ some q
      → matches name q ≡ false

-- A later choice stays one behind an entry that is no exact match.
behind :
    (name : List ℕ) (q : PllParam) (qs : List PllParam) (t : ℕ)
    → (matches name q ≡ true → exact name q ≡ false)
    → Chosen name qs t
    → Chosen name (q ∷ qs) (suc t)
behind name q qs t head c = record {
  entry = c.entry;
  at = c.at;
  matched = c.matched;
  first = behind_first;
  last = behind_last;
}
  where
    behind_first :
        (r : ℕ) (q' : PllParam)
        → r < suc t
        → get_elem? (q ∷ qs) r ≡ some q'
        → matches name q' ≡ true
        → exact name q' ≡ false
    behind_first zero q' b e m =
        let same = some-injective q q' e in rw (sym same) (head (rw same m))
    behind_first (suc r) q' b e m = c.first r q' (omega arith) e m

    behind_last :
        exact name c.entry ≡ false
        → (r : ℕ) (q' : PllParam) → suc t < r
        → get_elem? (q ∷ qs) r ≡ some q'
        → matches name q' ≡ false
    behind_last x zero q' b e = absurd (omega arith)
    behind_last x (suc r) q' b e = c.last x r q' (omega arith) e

none_behind :
    (name : List ℕ) (q : PllParam) (qs : List PllParam)
    → matches name q ≡ false
    → NoMatch name qs
    → NoMatch name (q ∷ qs)
none_behind name q qs head absent zero q' e = rw (sym (some-injective q q' e)) head
none_behind name q qs head absent (suc r) q' e = absent r q' e

here_exact :
    (name : List ℕ) (q : PllParam) (qs : List PllParam)
    → matches name q ≡ true
    → exact name q ≡ true
    → Chosen name (q ∷ qs) 0
here_exact name q qs m x = record {
  entry = q;
  at = refl;
  matched = m;
  first = λ r q' b. absurd (omega arith);
  last = λ n. absurd (true≢false (sym x ∙ n));
}

here_last :
    (name : List ℕ) (q : PllParam) (qs : List PllParam)
    → matches name q ≡ true
    → NoMatch name qs
    → Chosen name (q ∷ qs) 0
here_last name q qs m absent = record {
  entry = q;
  at = refl;
  matched = m;
  first = λ r q' b. absurd (omega arith);
  last = λ n. after;
}
  where
    after :
        (r : ℕ) (q' : PllParam) → 0 < r → get_elem? (q ∷ qs) r ≡ some q' → matches name q' ≡ false
    after zero q' b e = absurd (omega arith)
    after (suc r) q' b e = absent r q' e

-- What the loop ends with: the fallback where nothing matches, and a choice otherwise.
abbrev Ends : List ℕ → List PllParam → ℕ → Option ℕ → Option ℕ → Type 0
Ends name qs i ret result =
    (NoMatch name qs × (result ≡ ret)) ⊎ ((t : ℕ) × (result ≡ some (i + t)) × Chosen name qs t)

Ends-skipped :
    (name : List ℕ) (q : PllParam) (qs : List PllParam) (i : ℕ) (ret result : Option ℕ)
    → matches name q ≡ false
    → Ends name qs (suc i) ret result
    → Ends name (q ∷ qs) i ret result
Ends-skipped name q qs i ret result m (inl none_left) =
    inl (none_behind name q qs m none_left.0, none_left.1)
Ends-skipped name q qs i ret result m (inr chosen) = inr (
  suc chosen.0,
  chosen.1 ∙ ap some (omega arith),
  behind name q qs chosen.0 (λ n. absurd (true≢false (sym n ∙ m))) chosen.2,
)

Ends-found :
    (name : List ℕ) (q : PllParam) (qs : List PllParam) (i : ℕ) (ret result : Option ℕ)
    → matches name q ≡ true
    → exact name q ≡ false
    → Ends name qs (suc i) (some i) result
    → Ends name (q ∷ qs) i ret result
Ends-found name q qs i ret result m x (inl none_left) =
    inr (0, none_left.1 ∙ ap some (omega arith), here_last name q qs m none_left.0)
Ends-found name q qs i ret result m x (inr chosen) =
    inr
      (suc chosen.0, chosen.1 ∙ ap some (omega arith), behind name q qs chosen.0 (λ n. x) chosen.2)

search_mode-Ends :
    (name : List ℕ) (qs : List PllParam) (i : ℕ) (ret : Option ℕ)
    → Ends name qs i ret (search_mode qs name i ret)
unfolding search_mode
search_mode-Ends name [] i ret = inl ((λ r q e. ground arith), refl)
search_mode-Ends name (q ∷ qs) i ret = elim (Bool-cases (matches name q)) [
  | inr m ↦
      let e : search_mode (q ∷ qs) name i ret ≡ search_mode qs name (suc i) ret =
        ground (arith, m) in
      rw e (Ends-skipped name q qs i ret _ m (search_mode-Ends name qs (suc i) ret))
  | inl m ↦ elim (Bool-cases (exact name q)) [
    | inl x ↦
        let e : search_mode (q ∷ qs) name i ret ≡ some i = ground (arith, m, x) in
        inr (0, e ∙ ap some (omega arith), here_exact name q qs m x)
    | inr x ↦
        let e : search_mode (q ∷ qs) name i ret ≡ search_mode qs name (suc i) (some i) =
          ground (arith, m, x) in
        rw e (Ends-found name q qs i ret _ m x (search_mode-Ends name qs (suc i) (some i)))
  ]
]

-- dsim_get_clock_mode finds nothing exactly where no entry's name begins the name of the mode. Otherwise it
-- finds the first entry whose name is all of it, or without such an entry the last whose name begins it.
-- Names count up to 32 characters.
pub get_clock_mode-Chosen :
    (d : Dsim) (name : List ℕ)
    → (NoMatch name d.params × (get_clock_mode d name ≡ none))
      ⊎ ((t : ℕ) × (get_clock_mode d name ≡ some t) × Chosen name d.params t)
unfolding get_clock_mode
get_clock_mode-Chosen d name = elim (search_mode-Ends name d.params 0 none) [
  | inl e ↦ inl e
  | inr c ↦ inr (c.0, c.1 ∙ ap some (omega arith), c.2)
]
