-- ===== src/Dsim/Power.antt =====
-- exynos_drm_dsim.c, the power of the DSI host: dsim_encoder_enable and dsim_encoder_disable with the
-- low power state (ULPS) and bypass, and the callbacks of power management. Runtime power management
-- is that of the kernel's documentation; a PHY is taken not to fail. A second host is not modelled.
pub mod Balance
pub mod Commits
mod Tests
use google_modules_display_s.Prelude.{
  ℕ, suc, ◌-◌, Bool, true, false, not, ◌&&◌, ◌||◌, Option, none, some, List, [], ◌∷◌, ◌++◌, ltb,
  ◌==◌, if◌then◌else◌,
}
use google_modules_display_s.Dsim.State.{
  DsimState, hsclken, ulps, suspend, bypass, handover, missing,
}

-- The calls of the register layer.
pub data PowerCall : Type 0 where
  reg_init : Bool → PowerCall
  exit_ulps_and_start reg_start reg_stop stop_and_enter_ulps packetgo_on packetgo_off : PowerCall

-- The part of `struct dsim_device` that is about power. `phy` and `irq` count how often the PHY and
-- the interrupt are on; `usage`, `active` and `error` are those of runtime power management. The
-- last two record what must not be: a count below 0, and a register of a host without power.
pub record Host : Type 0 where
  pub state : DsimState
  pub suspend_state : DsimState
  pub phy : ℕ
  pub irq : ℕ
  pub total_pend_ph : ℕ
  pub force_batching : Bool
  pub te_pin : Option Bool
  pub usage : ℕ
  pub active : Bool
  pub error : Bool
  pub calls : List PowerCall
  pub unbalanced : Bool
  pub unpowered : Bool

abbrev pub is_hsclken : DsimState → Bool
is_hsclken hsclken = true
is_hsclken _ = false

abbrev pub is_ulps : DsimState → Bool
is_ulps ulps = true
is_ulps _ = false

abbrev pub is_bypass : DsimState → Bool
is_bypass bypass = true
is_bypass _ = false

abbrev pub is_suspend : DsimState → Bool
is_suspend suspend = true
is_suspend _ = false

abbrev pub is_handover : DsimState → Bool
is_handover handover = true
is_handover _ = false

-- Calls on a host that has to have power.
unfoldable pub access : List PowerCall → Host → Host
access cs h = record h { calls = h.calls ++ cs; unpowered = h.unpowered || not h.active }

-- The PHY and the interrupt, on and off.
unfoldable pub lines_on : Host → Host
lines_on h = record h { phy = suc h.phy; irq = suc h.irq }

unfoldable pub lines_off : Host → Host
lines_off h = record h {
  phy = h.phy - 1;
  irq = h.irq - 1;
  unbalanced = h.unbalanced || h.phy == 0 || h.irq == 0;
}

-- `pm_runtime_put` and its kin: what is idle is suspended, now or at some later time, by `core_suspend`.
unfoldable pub put : Host → Host
put h = record h { usage = h.usage - 1; unbalanced = h.unbalanced || h.usage == 0 }

-- `_dsim_exit_ulps_locked`
unfoldable pub exit_ulps : Host → Host
unfolding lines_on
exit_ulps h =
    if is_ulps h.state
    then record (lines_on h) {
      calls = h.calls ++ (reg_init false ∷ exit_ulps_and_start ∷ []);
      state = hsclken;
    }
    else h

-- `__dsim_cmd_packetgo_enable_locked`, off.
unfoldable pub packetgo_disable : Host → Host
unfolding access put
packetgo_disable h = record (put (access (packetgo_off ∷ []) h)) { total_pend_ph = 0 }

-- `__dsim_check_pend_cmd_locked`
unfoldable pub check_pend_cmd : Host → Host
unfolding packetgo_disable
check_pend_cmd h = if ltb 0 h.total_pend_ph then packetgo_disable h else h

-- `_dsim_enter_ulps_locked`
unfoldable pub enter_ulps : Host → Host
unfolding lines_off check_pend_cmd access
enter_ulps h =
    access (stop_and_enter_ulps ∷ []) (lines_off (record (check_pend_cmd h) { state = ulps }))

-- `dsim_runtime_suspend` and `dsim_runtime_resume`, which refuses in bypass.
unfoldable pub runtime_suspend : Host → Host
unfolding enter_ulps
runtime_suspend h =
    let h' = if is_hsclken h.state then enter_ulps h else h in
    record h' { suspend_state = h'.state }

unfoldable pub runtime_resume : Host → Host × Bool
unfolding exit_ulps
runtime_resume h =
    let h' = exit_ulps h in
    if is_bypass h.state
    then (record h { suspend_state = h.state }, false)
    else (record h' { suspend_state = h'.state }, true)

-- The power management core resumes a host; after an error it does so no more.
unfoldable pub core_resume : Host → Host
unfolding runtime_resume
core_resume h =
    let (h', done) = runtime_resume h in
    if h.error || h.active
    then h
    else if done
    then record h' { active = true }
    else record h' { error = true }

-- It suspends one that is idle.
unfoldable pub core_suspend : Host → Host
unfolding runtime_suspend
core_suspend h = record (runtime_suspend h) { active = false }

-- `pm_runtime_get_sync`
unfoldable pub get_sync : Host → Host
unfolding core_resume
get_sync h = record (core_resume h) { usage = suc h.usage }

-- `pm_runtime_set_suspended`, which has an effect after an error only.
unfoldable pub set_suspended : Host → Host
set_suspended h = if h.error then record h { active = false; error = false } else h

-- The answers of the hardware and of the driver core: `dsim_reg_is_pll_stable`, whether the link to
-- the controller is made, and whether there are pins for TE.
pub record Env : Type 0 where
  pub pll_stable : Bool
  pub linked : Bool
  pub has_te_pins : Bool

-- `dsim_set_te_pinctrl`
unfoldable pub set_te_pins : Env → Bool → Host → Host
set_te_pins env on h = record h { te_pin = if env.has_te_pins then some on else h.te_pin }

-- `_dsim_enable`
unfoldable pub start : Env → Host → Host
unfolding access lines_on
start env h =
    let init = if is_handover h.state && env.pll_stable then [] else reg_init true ∷ [] in
    record (lines_on (access (init ++ (reg_start ∷ [])) h)) { state = hsclken }

unfoldable pub enable : Env → Host → Host
unfolding get_sync put start
enable env h = let h' = get_sync h in if is_hsclken h'.state then put h' else start env h'

-- `_dsim_disable`
unfoldable pub disable : Host → Host
unfolding access lines_off check_pend_cmd put
disable h =
    if is_suspend h.state
    then h
    else let h1 = check_pend_cmd (record (access (reg_stop ∷ []) h) { state = suspend }) in
      put (lines_off (record h1 { force_batching = false }))

-- Out of bypass, before the host is enabled or disabled.
unfoldable pub leave_bypass : Host → Host
unfolding set_suspended
leave_bypass h = record (set_suspended h) { state = suspend }

-- `dsim_encoder_enable` from where the link to the controller is made.
unfoldable pub encoder_enable : Env → Bool → Host → Host
unfolding enable set_te_pins leave_bypass get_sync
encoder_enable env old_self_refresh h =
    if not env.linked
    then h
    else if is_suspend h.state || is_handover h.state
    then set_te_pins env true (enable env h)
    else if is_bypass h.state
    then enable env (leave_bypass h)
    else if old_self_refresh
    then get_sync h
    else h

-- `dsim_encoder_disable` from the test of self refresh on, by the old and the new state of it.
unfoldable pub to_self_refresh : Bool → Bool → Host → Host
unfolding disable put
to_self_refresh was bypassed h =
    if was then h else if bypassed then record (disable h) { state = bypass } else put h

unfoldable pub to_off : Env → Bool → Host → Host
unfolding disable set_te_pins leave_bypass get_sync
to_off env was h =
    let h' = if is_bypass h.state then leave_bypass h else if was then get_sync h else h in
    set_te_pins env false (disable h')

unfoldable pub encoder_disable : Env → Bool → Bool → Bool → Host → Host
unfolding to_self_refresh to_off
encoder_disable env was self_refresh bypassed h =
    if self_refresh then to_self_refresh was bypassed h else to_off env was h

-- `dsim_cmd_packetgo_queue_locked`, as far as power goes. Whether a packet is queued, and is the last
-- one, which flushes, is an argument.
unfoldable pub queue_one : Bool → Host → Host
unfolding get_sync access
queue_one queued h =
    let h' = if h.total_pend_ph == 0 then access (packetgo_on ∷ []) (get_sync h) else h in
    if queued then record h' { total_pend_ph = suc h'.total_pend_ph } else h

-- `dsim_cmd_flush_locked`
unfoldable pub cmd_flush : Host → Host
unfolding packetgo_disable
cmd_flush h = if ltb 0 h.total_pend_ph then packetgo_disable h else h

unfoldable pub send : Bool → Bool → Host → Host
unfolding queue_one access cmd_flush
send queued last h = let h' = queue_one queued (access [] h) in if last then cmd_flush h' else h'

unfoldable pub host_transfer : Bool → Bool → Host → Host
unfolding core_resume put send
host_transfer queued last h =
    let h' = core_resume h in
    let held : Host = record h' { usage = suc h.usage } in
    if h'.active && not h'.error
    then put (if is_hsclken h'.state then send queued last held else held)
    else h'

-- `dsim_suspend` and `dsim_resume`, the system's sleep, but for `power.must_resume`, the core's own.
unfoldable pub system_suspend : Host → Host
unfolding enter_ulps
system_suspend h =
    let h' : Host = record h { suspend_state = h.state } in
    if is_hsclken h.state then enter_ulps h' else h'

unfoldable pub system_resume : Host → Host
unfolding exit_ulps
system_resume h = if is_hsclken h.suspend_state then exit_ulps h else h

-- The part of `dsim_host_detach` about power.
unfoldable pub host_detach : Host → Host
unfolding disable
host_detach h = if is_handover h.state then h else disable h
