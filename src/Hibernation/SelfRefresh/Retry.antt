-- ===== src/Hibernation/SelfRefresh/Retry.antt =====
-- The retry loop of exynos_crtc_self_refresh_update, against the try at which it stops.
use google_modules_display_s.Prelude.{
  Bool, true, false, ◌≡◌, refl, ◌⊎◌, inl, inr, none, some, arith, is_edeadlk, if◌then◌else◌,
  Bool-cases,
}
use google_modules_display_s.Hibernation.SelfRefresh.{
  Decon, Drm, Try, Tries, last, retry, all_aware, attempt, update_loop, self_refresh_update,
}

-- The first try that does not end in a deadlock, or the last one.
abbrev pub stopped : Bool → Tries → Try
stopped enable (last t) = t
stopped enable (retry t ts) = if is_edeadlk (attempt enable t).0 then stopped enable ts else t

update_loop-stopped :
    (enable : Bool) (ts : Tries)
    → let t = stopped enable ts in
      update_loop enable ts
      ≡ (if is_edeadlk (attempt enable t).0 then (some t.backoff, false) else attempt enable t)
unfolding update_loop
update_loop-stopped enable (last t) = ground arith
update_loop-stopped enable (retry t ts) = elim (Bool-cases (is_edeadlk (attempt enable t).0)) [
  | inl again ↦ rw again (update_loop-stopped enable ts)
  | inr stop ↦ rw stop (rw stop refl)
]

-- What has to hold of a try whose commit is accepted.
pub record Accepted (enable : Bool) (t : Try) : Type 0 where
  pub state_found : t.crtc_state ≡ none
  pub crtc_on : t.crtc_enable ≡ true
  pub differs : t.crtc_active ≡ enable
  pub connectors_added : t.add_connectors ≡ none
  pub aware : all_aware t.self_refresh_aware ≡ true
  pub committed : t.commit ≡ none

attempt-Accepted :
    (enable : Bool) (t : Try)
    → ((attempt enable t).1 ≡ false) ⊎ (Accepted enable t × (attempt enable t ≡ (none, true)))
unfolding attempt
attempt-Accepted true t = ground arith
attempt-Accepted false t = ground arith

-- A self refresh update either leaves the display as it was, or it returns 0 and has made one commit:
-- at the first try without a deadlock, whose controller is enabled and not yet in the state asked for,
-- and whose connectors are all aware of self refresh.
pub self_refresh_update_commits :
    (env : Drm) (enable nonblock : Bool) (d : Decon)
    → ((self_refresh_update env enable nonblock d).0 ≡ d)
      ⊎ (Accepted enable (stopped enable env.tries)
          × (self_refresh_update env enable nonblock d ≡ (env.committed enable nonblock d, none)))
unfolding self_refresh_update
self_refresh_update_commits env enable nonblock d =
    let t = stopped enable env.tries in
    ground (arith, update_loop-stopped enable env.tries, attempt-Accepted enable t)
