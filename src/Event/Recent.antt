-- ===== src/Event/Recent.antt =====
-- What the ring holds: the last events of the history that its clients made.
use Prim.Native.Nat.{◌∣◌}
use native.Mathlib.Nat.{mod-mod_of_dvd, mod-eq_of_lt, mod-lt, add-mod_right, mod_self, mod-add-mod}
use google_modules_display_s.Prelude.{
  ◌⊎◌, ℕ, zero, suc, ◌+◌, ◌-◌, ◌%◌, ◌<◌, ◌≤◌, ◌≡◌, ◌≢◌, sym, ap, ◌∙◌, List, ◌∷◌, length, arith, u32,
  get_or, set, length-set, get_or-set_self, get_or-set_ne, inl, inr, dec_lt,
}
use google_modules_display_s.Event.{Log, blank, slot}

pub slot_low : (m p k : ℕ) → m ≤ 2147483648 → p < m → k ≤ p → slot m p k ≡ p - k
slot_low m p k hm hp hk =
    let e : p + m - k ≡ p - k + m = omega arith in
    rw (
      mod-eq_of_lt {n = p + m - k} {m = 4294967296} (omega arith),
      e,
      add-mod_right (p - k) m,
      mod-eq_of_lt {n = p - k} {m = m} (omega arith),
    )

pub slot_high : (m p k : ℕ) → m ≤ 2147483648 → p < k → k < m → slot m p k ≡ p + m - k
slot_high m p k hm hp hk = rw (
  mod-eq_of_lt {n = p + m - k} {m = 4294967296} (omega arith),
  mod-eq_of_lt {n = p + m - k} {m = m} (omega arith),
)

suc_add_one : (n : ℕ) → suc n ≡ n + 1
suc_add_one n = omega arith

-- The index after one more event, once round at the end of the ring or of the word.
next_index :
    (m i : ℕ)
    → m ∣ 4294967296
    → 1 < m
    → ((suc (i % m) < m) × (u32 (suc i) % m ≡ suc (i % m)))
      ⊎ ((suc (i % m) ≡ m) × (u32 (suc i) % m ≡ 0))
next_index m i dv hm =
    let e1 : u32 (suc i) % m ≡ suc i % m = mod-mod_of_dvd m (suc i) dv in
    let e2 : suc i % m ≡ suc (i % m) % m =
      ap (λ t. t % m) (suc_add_one i)
      ∙ sym (mod-add-mod i m 1)
      ∙ ap (λ t. t % m) (sym (suc_add_one (i % m))) in
    let hi = mod-lt i {m = m} (omega arith) in
    elim (dec_lt (suc (i % m)) m) [
      | yes h ↦ inl (h, e1 ∙ e2 ∙ mod-eq_of_lt h)
      | no h ↦
          let e : suc (i % m) ≡ m = omega arith in inr (e, e1 ∙ e2 ∙ ap (λ t. t % m) e ∙ mod_self m)
    ]

-- One more event moves every entry one step back, and takes the place of the oldest.
slot_next :
    (m i k : ℕ)
    → m ∣ 4294967296
    → 1 < m
    → m ≤ 2147483648
    → suc k < m
    → (slot m (u32 (suc i) % m) (suc k) ≡ slot m (i % m) k) × (u32 (suc i) % m ≢ slot m (i % m) k)
slot_next m i k dv h1 hm hk =
    let hp : i % m < m = mod-lt i {m = m} (omega arith) in
    elim (next_index m i dv h1) [
      | inl (h, e) ↦ elim (dec_lt (i % m) k) [
        | yes g ↦
            let at = slot_high m (i % m) k hm g (omega arith) in
            let to = slot_high m (suc (i % m)) (suc k) hm (omega arith) hk in
            (rw (e) (to ∙ omega arith ∙ sym at), λ q. omega (arith, q, e, at))
        | no g ↦
            let at = slot_low m (i % m) k hm hp (omega arith) in
            let to = slot_low m (suc (i % m)) (suc k) hm h (omega arith) in
            (rw (e) (to ∙ omega arith ∙ sym at), λ q. omega (arith, q, e, at))
      ]
      | inr (h, e) ↦
          let at = slot_low m (i % m) k hm hp (omega arith) in
          let to = slot_high m 0 (suc k) hm (omega arith) hk in
          (rw (e) (to ∙ omega arith ∙ sym at), λ q. omega (arith, q, e, at))
    ]

-- The ring shows a history, newest first, as far back as it is long.
unfoldable pub Shows : ℕ → List Log → List Log → ℕ → Type 0
Shows m h logs i =
    (length logs ≡ m) × ((k : ℕ) → k < m → get_or logs (slot m (i % m) k) blank ≡ get_or h k blank)

-- A further entry in the place of the oldest.
pub Shows-next :
    (m : ℕ) (h logs : List Log) (i : ℕ) (entry : Log)
    → m ∣ 4294967296
    → 1 < m
    → m ≤ 2147483648
    → Shows m h logs i
    → Shows m (entry ∷ h) (set logs (u32 (suc i) % m) entry) (u32 (suc i))
unfolding Shows
Shows-next m h logs i entry dv h1 hm (len, shown) = (length-set logs _ entry ∙ len, at)
  where
    hp : u32 (suc i) % m < m
    hp = mod-lt (u32 (suc i)) {m = m} (omega arith)

    first : slot m (u32 (suc i) % m) 0 ≡ u32 (suc i) % m
    first = slot_low m (u32 (suc i) % m) 0 hm hp (omega arith) ∙ omega arith

    at :
        (k : ℕ)
        → k < m
        → get_or (set logs (u32 (suc i) % m) entry) (slot m (u32 (suc i) % m) k) blank
          ≡ get_or (entry ∷ h) k blank
    at zero hk =
        ap (λ j. get_or (set logs (u32 (suc i) % m) entry) j blank) first
        ∙ (get_or-set_self logs (u32 (suc i) % m) entry blank (omega (arith, len, hp)))
    at (suc k) hk =
        let (e, ne) = slot_next m i k dv h1 hm hk in
        rw (e) (get_or-set_ne logs _ _ entry blank ne ∙ shown k (omega arith))
