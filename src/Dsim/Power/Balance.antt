-- ===== src/Dsim/Power/Balance.antt =====
-- What each operation on the power of the DSI host keeps in balance.
use google_modules_display_s.Prelude.{
  ℕ, ◌+◌, ◌≡◌, Bool, true, false, not, ◌&&◌, ◌||◌, arith, ltb, ◌==◌, if◌then◌else◌,
}
use google_modules_display_s.Dsim.State.{DsimState}
use google_modules_display_s.Dsim.Power.{
  Host, is_hsclken, is_ulps, is_bypass, is_suspend, is_handover, Env, core_suspend, encoder_enable,
  encoder_disable, host_transfer, system_suspend, system_resume,
}

-- What DRM has made of the display.
pub data Phase : Type 0 where
  dark lit refreshing bypassed : Phase

abbrev pub count : Bool → ℕ
count b = if b then 1 else 0

abbrev pub is_lit : Phase → Bool
is_lit lit = true
is_lit _ = false

abbrev pub is_dark : Phase → Bool
is_dark dark = true
is_dark _ = false

-- Whether the CRTC is in self refresh, as it is in bypass too.
abbrev pub in_refresh : Phase → Bool
in_refresh dark = false
in_refresh lit = false
in_refresh _ = true

-- The states of the host in a phase.
abbrev pub fits : Phase → DsimState → Bool
fits dark s = is_suspend s || is_handover s
fits lit s = is_hsclken s
fits refreshing s = is_hsclken s || is_ulps s
fits bypassed s = is_bypass s

-- The PHY and the interrupt are on exactly in the state HSCLKEN, where the host has power; the
-- references to the power are that of the display and that of queued packets; and no count was ever
-- below 0, nor a register touched without power.
pub record Balanced (p : Phase) (h : Host) : Type 0 where
  pub state : fits p h.state ≡ true
  pub phy : h.phy ≡ count (is_hsclken h.state)
  pub irq : h.irq ≡ count (is_hsclken h.state)
  pub usage : h.usage ≡ count (is_lit p) + count (ltb 0 h.total_pend_ph)
  pub powered : (not (is_hsclken h.state) || h.active) ≡ true
  pub queued : (is_hsclken h.state || h.total_pend_ph == 0) ≡ true
  pub rests : (not (is_ulps h.state) || not h.active) ≡ true
  pub failed : (not h.error || is_bypass h.state && not h.active) ≡ true
  pub balanced : h.unbalanced ≡ false
  pub careful : h.unpowered ≡ false

pub idle-Balanced :
    (p : Phase) (h : Host)
    → h.usage ≡ 0
    → h.active ≡ true
    → Balanced p h
    → Balanced p (core_suspend h)
unfolding core_suspend
idle-Balanced p h u a b = ground arith

-- A display that is not lit is enabled.
pub enable-Balanced :
    (env : Env) (p : Phase) (old : Bool) (h : Host)
    → env.linked ≡ true
    → is_lit p ≡ false
    → (not (in_refresh p) || old) ≡ true
    → Balanced p h
    → Balanced lit (encoder_enable env old h)
unfolding encoder_enable
enable-Balanced env p old h l n o b = ground arith

pub refresh-Balanced :
    (env : Env) (p : Phase) (by : Bool) (h : Host)
    → is_lit p ≡ true
    → Balanced p h
    → Balanced (if by then bypassed else refreshing) (encoder_disable env false true by h)
unfolding encoder_disable
refresh-Balanced env lit by h n b = ground arith
refresh-Balanced env p by h n b = ground arith

-- A display that is not dark is disabled.
pub disable-Balanced :
    (env : Env) (p : Phase) (by : Bool) (h : Host)
    → is_dark p ≡ false
    → Balanced p h
    → Balanced dark (encoder_disable env (in_refresh p) false by h)
unfolding encoder_disable
disable-Balanced env dark by h n b = ground arith
disable-Balanced env lit by h n b = ground arith
disable-Balanced env refreshing by h n b = ground arith
disable-Balanced env bypassed by h n b = ground arith

pub transfer-Balanced :
    (p : Phase) (queued last : Bool) (h : Host)
    → Balanced p h
    → Balanced p (host_transfer queued last h)
unfolding host_transfer
transfer-Balanced p queued last h b = ground arith

pub sleep-Balanced :
    (p : Phase) (h : Host) → Balanced p h → Balanced p (system_resume (system_suspend h))
unfolding system_resume system_suspend
sleep-Balanced p h b = ground arith
