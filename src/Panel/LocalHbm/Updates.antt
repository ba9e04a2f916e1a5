-- ===== src/Panel/LocalHbm/Updates.antt =====
-- What each operation of the local high brightness mode keeps of its timeout.
use google_modules_display_s.Prelude.{
  ℕ, ◌<◌, ◌≡◌, refl, Bool, true, false, not, ◌&&◌, ◌||◌, Option, none, some, arith, ltb, ◌==◌, ◌⊎◌,
  inl, inr, Bool-cases,
}
use google_modules_display_s.Panel.LocalHbm.{
  LhbmDesc, LocalHbm, is_disabled, is_post_supported, is_wrong_rate, refuses, settle, Progress,
  refused, done, waits, update_notimeout, Panel, proceed, arm_if_done, turn_on, update_local_hbm,
  request, resume, timeout_work, restore, disable_feat, post_work,
}

abbrev pub knows_mode : Option ℕ → Bool
knows_mode none = false
knows_mode (some v) = true

abbrev pub is_timed : Panel → Bool
is_timed p = p.hbm.timeout_queued || p.firing

-- LHBM is on only with a timeout, or while an update waits to turn it off; and one that is requested
-- again while an update waits has a timeout too.
pub record Guarded (d : LhbmDesc) (p : Panel) : Type 0 where
  pub timed : (is_disabled p.hbm.effective || is_timed p || ltb 0 p.waiting) ≡ true
  pub again : (p.waiting == 0 || not p.hbm.requested || is_timed p) ≡ true
  pub alone : (not p.restores || p.waiting == 1) ≡ true
  pub able : (is_disabled p.hbm.effective && p.waiting == 0 || d.has_set_local_hbm_mode) ≡ true
  pub mode : knows_mode p.hbm.current_mode ≡ true

-- With a mode, turning off is refused only by a driver that cannot, or where it is off.
refuses_off :
    (d : LhbmDesc) (s : LocalHbm)
    → s.requested ≡ false
    → knows_mode s.current_mode ≡ true
    → refuses d s ≡ true
    → (is_disabled s.effective || not d.has_set_local_hbm_mode) ≡ true
unfolding refuses is_wrong_rate
refuses_off d s r k h = ground arith

refuses-unable :
    (d : LhbmDesc) (s : LocalHbm) → refuses d s ≡ false → d.has_set_local_hbm_mode ≡ true
unfolding refuses
refuses-unable d s h = ground arith

-- What becomes of an update.
abbrev Refused : LhbmDesc → LocalHbm → Type 0
Refused d s = (update_notimeout d s ≡ refused) × (refuses d s ≡ true)

abbrev Accepted : LhbmDesc → LocalHbm → Progress → Type 0
Accepted d s r = (update_notimeout d s ≡ r) × (d.has_set_local_hbm_mode ≡ true)

update_off :
    (d : LhbmDesc) (s : LocalHbm)
    → s.requested ≡ false
    → Refused d s ⊎ Accepted d s (done (settle d s)) ⊎ Accepted d s waits
unfolding update_notimeout
update_off d s r = elim (Bool-cases (refuses d s)) [
  | inl h ↦ inl (rw (h) refl, h)
  | inr h ↦ elim (Bool-cases (is_post_supported d)) [
    | inl k ↦ inr (inr (rw (h, k, r) refl, refuses-unable d s h))
    | inr k ↦ inr (inl (rw (h, k) refl, refuses-unable d s h))
  ]
]

off-Guarded :
    (d : LhbmDesc) (s : LocalHbm) (p : Panel)
    → s.requested ≡ false
    → s.effective ≡ p.hbm.effective
    → s.current_mode ≡ p.hbm.current_mode
    → p.restores ≡ false
    → (is_disabled p.hbm.effective && p.waiting == 0 || d.has_set_local_hbm_mode) ≡ true
    → knows_mode p.hbm.current_mode ≡ true
    → Guarded d (proceed s (update_notimeout d s) p)
unfolding proceed settle
off-Guarded d s p r e m b a k = elim (update_off d s r) [
  | inl h ↦ rw (h.0) (let o = refuses_off d s r (rw (m) k) h.1 in ground arith)
  | inr (inl h) ↦ rw (h.0) (ground arith)
  | inr (inr h) ↦ rw (h.0) (ground arith)
]

pub turned_off-Guarded :
    (d : LhbmDesc) (p : Panel) → p.restores ≡ false → Guarded d p → Guarded d (request d false p)
unfolding update_local_hbm
turned_off-Guarded d p b g =
    off-Guarded d (record p.hbm { requested = false; timeout_queued = false })
      (record p { hbm = record p.hbm { requested = false } }) refl refl refl b g.able g.mode

pub fired-Guarded :
    (d : LhbmDesc) (p : Panel) → p.restores ≡ false → Guarded d p → Guarded d (timeout_work d p)
unfolding timeout_work
fired-Guarded d p b g =
    off-Guarded d (record p.hbm { requested = false }) (record p { firing = false }) refl refl refl
      b g.able g.mode

-- A request to turn LHBM on that is not refused turns it on, with a timeout.
record TurnedOn (d : LhbmDesc) (s t : LocalHbm) : Type 0 where
  lit : is_disabled t.effective ≡ false
  queued : t.timeout_queued ≡ true
  same_mode : t.current_mode ≡ s.current_mode
  can : d.has_set_local_hbm_mode ≡ true

update_on :
    (d : LhbmDesc) (s : LocalHbm)
    → s.requested ≡ true
    → ((arm_if_done s (update_notimeout d s) ≡ s) × (refuses d s ≡ true))
      ⊎ TurnedOn d s (arm_if_done s (update_notimeout d s))
unfolding update_notimeout arm_if_done settle
update_on d s r = elim (Bool-cases (refuses d s)) [
  | inl h ↦ inl (rw (h) refl, h)
  | inr h ↦ elim (Bool-cases (is_post_supported d)) [
    | inl k ↦ inr (
        rw (h, k, r)
          (record { lit = refl; queued = refl; same_mode = refl; can = refuses-unable d s h }))
    | inr k ↦ inr (
        rw (h, k, r)
          (record { lit = refl; queued = refl; same_mode = refl; can = refuses-unable d s h }))
  ]
]

pub turned_on-Guarded :
    (d : LhbmDesc) (p : Panel)
    → (p.waiting == 0
        || not (is_disabled p.hbm.effective)
        || not (refuses d (record p.hbm { requested = true })))
      ≡ true
    → Guarded d p
    → Guarded d (request d true p)
unfolding update_local_hbm turn_on
turned_on-Guarded d p h g =
    let s : LocalHbm = record p.hbm { requested = true } in
    elim (Bool-cases (is_disabled p.hbm.effective)) [
      | inr b ↦ rw (b) (ground arith)
      | inl b ↦ elim (update_on d s refl) [
        | inl u ↦ rw (b, u.0) (let v = u.1 in ground arith)
        | inr u ↦ rw (b) (ground (arith, u.lit, u.queued, u.same_mode, u.can))
      ]
    ]

pub resumed-Guarded :
    (d : LhbmDesc) (p : Panel) → 0 < p.waiting → Guarded d p → Guarded d (resume d p)
unfolding resume settle
resumed-Guarded d p w g = ground arith

pub worked-Guarded :
    (d : LhbmDesc) (p : Panel) → Guarded d p → Guarded d (record p { hbm = post_work d p.hbm })
unfolding post_work
worked-Guarded d p g = ground arith

pub feat_disabled-Guarded :
    (d : LhbmDesc) (p : Panel) → p.waiting ≡ 0 → Guarded d p → Guarded d (disable_feat d p)
unfolding disable_feat update_local_hbm restore proceed settle
feat_disabled-Guarded d p w g =
    let s : LocalHbm = record p.hbm { requested = false; timeout_queued = false } in
    elim (update_off d s refl) [
      | inl h ↦ rw (h.0) (let o = refuses_off d s refl g.mode h.1 in ground arith)
      | inr (inl h) ↦ rw (h.0) (ground arith)
      | inr (inr h) ↦ rw (h.0) (ground arith)
    ]
