-- ===== src/Panel/Stats/Tables.antt =====
-- The tables of resolutions and refresh rates, as they are made from the modes of a panel.
use google_modules_display_s.Prelude.{
  ℕ, zero, suc, ◌+◌, ◌*◌, ◌<◌, ◌≤◌, ◌≡◌, refl, sym, ap, ◌∙◌, Bool, true, Option, none, some, List,
  [], ◌∷◌, map, arith, if◌then◌else◌, length, take, get_elem?, Bool-cases, inl, inr,
}
use google_modules_display_s.Panel.{on, Resolution, PanelMode, PanelDesc}
use google_modules_display_s.Panel.Stats.{
  same_res, same_rate, DisplayStats, add_new, add_all, rates, place, lookup, get_time_state_idx,
  table_of, tables, init, start_at, start_idx, max_vrefresh_ranges, max_resolution_tables,
}
use google_modules_display_s.Panel.Stats.Index.{index_of-Found, has, index_of-some}

take-nil : {A : Type 0} (n : ℕ) → ◌≡◌ {A = List A} (take n []) []
take-nil zero = refl
take-nil (suc n) = refl

take-all : {A : Type 0} (n : ℕ) (xs : List A) → length xs ≤ n → take n xs ≡ xs
take-all n [] h = take-nil n
take-all zero (x ∷ xs) h = absurd (omega arith)
take-all (suc n) (x ∷ xs) h = rw (take-all n xs (omega arith)) refl

module _ {A : Type 0} (same : A → A → Bool) where
  -- A value behind those of a list, if it is not among them.
  unfoldable pub put_new : A → List A → List A
  put_new v [] = v ∷ []
  put_new v (x ∷ xs) = let rest = put_new v xs in if same x v then x ∷ xs else x ∷ rest

  -- The values of a list once each, in the order in which they come first.
  unfoldable pub distinct_from : List A → List A → List A
  distinct_from [] found = found
  distinct_from (v ∷ vs) found = distinct_from vs (put_new v found)

  add_new-take :
      (left : ℕ) (v : A) (xs : List A)
      → add_new same left v (take left xs) ≡ take left (put_new v xs)
  unfolding add_new put_new
  add_new-take zero v xs = refl
  add_new-take (suc left) v [] = rw (take-nil left) refl
  add_new-take (suc left) v (x ∷ xs) = elim (Bool-cases (same x v)) [
    | inl b ↦ rw (b) refl
    | inr b ↦ rw (b, add_new-take left v xs) refl
  ]

  -- The loop makes the distinct values, as far as there is room.
  pub add_all-take :
      (left : ℕ) (vs xs : List A)
      → add_all same left vs (take left xs) ≡ take left (distinct_from vs xs)
  unfolding add_all distinct_from
  add_all-take left [] xs = refl
  add_all-take left (v ∷ vs) xs = rw (add_new-take left v xs) (add_all-take left vs (put_new v xs))

  put_new-has : (p : A → Bool) (v : A) (xs : List A) → has p xs ≡ true → has p (put_new v xs) ≡ true
  unfolding put_new has
  put_new-has p v [] h = ground arith
  put_new-has p v (x ∷ xs) h = ground (arith, put_new-has p v xs)

  distinct_from-has :
      (p : A → Bool) (vs xs : List A) → has p xs ≡ true → has p (distinct_from vs xs) ≡ true
  unfolding distinct_from
  distinct_from-has p [] xs h = h
  distinct_from-has p (v ∷ vs) xs h = distinct_from-has p vs (put_new v xs) (put_new-has p v xs h)

  put_new_self :
      ((x : A) → same x x ≡ true)
      → (v : A) (xs : List A) → has (λ x. same x v) (put_new v xs) ≡ true
  unfolding put_new has
  put_new_self r v [] = rw (r v) refl
  put_new_self r v (x ∷ xs) = ground (arith, put_new_self r v xs)

  -- Every value of a list is among its distinct ones.
  pub distinct_from-all :
      ((x : A) → same x x ≡ true)
      → {B : Type 0} (f : B → A) (bs : List B) (k : ℕ) (b : B) (xs : List A)
      → get_elem? bs k ≡ some b
      → has (λ x. same x (f b)) (distinct_from (map f bs) xs) ≡ true
  unfolding distinct_from
  distinct_from-all r f [] k b xs e = ground arith
  distinct_from-all r f (c ∷ bs) zero b xs e =
      let s : c ≡ b = ground arith in
      rw (sym s) (
        distinct_from-has (λ x. same x (f c)) (map f bs) (put_new (f c) xs)
          (put_new_self r (f c) xs))
  distinct_from-all r f (c ∷ bs) (suc k) b xs e = distinct_from-all r f bs k b (put_new (f c) xs) e

  -- A table that is made from modes has room for each value of them, if there are not too many.
  pub table_of-has :
      ((x : A) → same x x ≡ true)
      → (left : ℕ) {B : Type 0} (f : B → A) (bs : List B) (k : ℕ) (b : B)
      → length (distinct_from (map f bs) []) ≤ left
      → get_elem? bs k ≡ some b
      → has (λ x. same x (f b)) (table_of same left (map f bs) none) ≡ true
  unfolding table_of
  table_of-has r left f bs k b h e =
      let t = add_all-take left (map f bs) [] in
      let u = take-all left (distinct_from (map f bs) []) h in
      let v : add_all same left (map f bs) [] ≡ distinct_from (map f bs) [] =
        ap (λ z. add_all same left (map f bs) z) (sym (take-nil left)) ∙ (t ∙ u) in
      rw (v) (distinct_from-all r f bs k b [] e)

place-some :
    (s : DisplayStats) (a b : ℕ)
    → a < length s.res_table
    → b < length (rates s on)
    → s.available on ≡ length s.res_table * length s.vrefresh_range
    → (i : ℕ) × ((place s on (some a) (some b) ≡ some i) × (0 < s.available on))
unfolding place
place-some s a b h k e =
    let n : ℕ = length s.vrefresh_range in
    let m : ℕ = length s.res_table in
    let q : (a + 1) * n ≤ m * n = grind arith in
    let p : a * n + b < m * n = omega arith in (a * n + b, (ground arith, omega (arith, p, e)))

on-some :
    (s : DisplayStats) (v : ℕ) (r : Resolution)
    → has (λ x. same_res x r) s.res_table ≡ true
    → has (λ x. same_rate x v) s.vrefresh_range ≡ true
    → s.available on ≡ length s.res_table * length s.vrefresh_range
    → (i : ℕ) × (get_time_state_idx s on v r ≡ some i)
unfolding get_time_state_idx
on-some s v r h k e =
    let (a, f) = index_of-some (λ x. same_res x r) s.res_table h in
    let (b, g) = index_of-some (λ x. same_rate x v) s.vrefresh_range k in
    let x = (index_of-Found (λ x. same_res x r) s.res_table a f).inside in
    let y = (index_of-Found (λ x. same_rate x v) s.vrefresh_range b g).inside in
    let (i, p) = place-some s a b x y e in
    let l : lookup s on v r ≡ some i = rw (f, g) p.0 in (i, ground (arith, l, p.1))

-- The first state leaves the tables as they are.
start_at-kept :
    (o : Option ℕ) (s : DisplayStats)
    → ((start_at o s).res_table ≡ s.res_table)
      × ((start_at o s).vrefresh_range ≡ s.vrefresh_range)
      × ((start_at o s).available on ≡ s.available on)
unfolding start_at
start_at-kept none s = (refl, refl, refl)
start_at-kept (some i) s = (refl, refl, refl)

init-kept :
    (desc : PanelDesc) (current : Option PanelMode)
    → let s = init desc current true in
      (s.res_table ≡ (tables desc).res_table)
      × (s.vrefresh_range ≡ (tables desc).vrefresh_range)
      × (s.available on ≡ (tables desc).available on)
unfolding init
init-kept desc current = start_at-kept (start_idx (tables desc) current) (tables desc)

-- Where a panel has no tables of its own, and its modes have at most two resolutions and ten refresh
-- rates among them, each of its modes has a counter in the state on.
pub init-Finds :
    (desc : PanelDesc) (current : Option PanelMode) (k : ℕ) (m : PanelMode)
    → desc.resolution_table ≡ none
    → desc.vrefresh_range ≡ none
    → length (distinct_from same_res (map (λ m. m.res) desc.modes) []) ≤ max_resolution_tables
    → length (distinct_from same_rate (map (λ m. m.vrefresh) desc.modes) []) ≤ max_vrefresh_ranges
    → get_elem? desc.modes k ≡ some m
    → (i : ℕ) × (get_time_state_idx (init desc current true) on m.vrefresh m.res ≡ some i)
unfolding tables
init-Finds desc current k m nr nv hr hv e =
    let c = init-kept desc current in
    on-some (init desc current true) m.vrefresh m.res
      (rw (c.0, nr)
        (table_of-has same_res (λ x. ground arith) max_resolution_tables (λ m. m.res) desc.modes k m
          hr e))
      (rw (c.1, nv)
        (table_of-has same_rate (λ x. ground arith) max_vrefresh_ranges (λ m. m.vrefresh) desc.modes
          k m hv e))
      (rw (c.0, c.1, c.2) refl)
