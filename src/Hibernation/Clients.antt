-- ===== src/Hibernation/Clients.antt =====
-- The hibernation block as its clients share it: any interleaving of callers that take and give back
-- blocks, of commits by a caller that holds one, of the delayed work and of the sysfs switch
-- (`hibernation_store` of exynos_drm_debug.c), and of the system's sleep.
use google_modules_display_s.Prelude.{
  ℕ, suc, ◌+◌, not, ◌||◌, ◌&&◌, ◌-◌, ◌<◌, Bool, true, false, ◌≡◌, some, arith, ◌∙◌, if◌then◌else◌,
}
use google_modules_display_s.Hibernation.SelfRefresh.{Decon, Drm}
use google_modules_display_s.Hibernation.{
  Hiber, is_eagain, is_on, is_hibernation_enabled, is_hibernation_blocked, check, block, unblock,
  enter, run, suspend, cancel, block_sync, exit, block_exit_result, block_exit, unblock_enter,
  async_exit, handler, Node, register,
}

-- The switch, `hibernation_store` of exynos_drm_debug.c.
pub store : Drm → Bool → Hiber → Hiber
store env enable h =
    if enable
    then unblock_enter (block (record h { enabled = true })).0
    else unblock_enter (record (block_exit env h) { enabled = false })

-- The two halves of a run of the work that finds the display free: hibernation_block takes no lock, so
-- callers may come between the test and `funcs->enter`.
unfoldable pub begin : Hiber → Hiber
begin h = (block (record h { queued = false })).0

pub finish : Drm → Hiber → Hiber
finish env h =
    let (h', rc) = enter env true h in
    if is_eagain rc then record (unblock h') { queued = true } else unblock h'

-- Without a caller between them they are a run of the handler.
begin-finish :
    (env : Drm) (h : Hiber)
    → is_hibernation_blocked h ≡ false
    → check h ≡ true
    → handler env h ≡ finish env (begin h)
unfolding handler run begin finish is_hibernation_blocked check block enter unblock
begin-finish env h b c = ground (arith, b, c)

-- The block, how many blocks its callers have taken and not given back, whether the work is between
-- its test and the end of `funcs->enter`, and whether a suspend has come since a block was given back.
pub record World : Type 0 where
  pub hiber : Hiber
  pub holders : ℕ
  pub entering : Bool
  pub dropped : Bool

abbrev pub to : Hiber → ℕ → Bool → Bool → World
to h n e r = record { hiber = h; holders = n; entering = e; dropped = r }

-- Whoever cancels the work waits for one that is running; hibernation_block_sync cancels it where
-- hibernation is enabled.
abbrev pub must_wait : World → Bool
must_wait w = w.entering && is_hibernation_enabled w.hiber

-- A caller that cancels comes when no work is running, and the worker runs one work at a time.
pub data Step : World → World → Type 0 where
  hold : (w : World) → Step w (to (block w.hiber).0 (suc w.holders) w.entering w.dropped)
  acquire :
      (env : Drm) (w : World)
      → must_wait w ≡ false
      → Step w (to (block_exit env w.hiber) (suc w.holders) w.entering w.dropped)
  commit :
      (d : Decon) (w : World)
      → 0 < w.holders
      → Step w (to (record w.hiber { decon = d }) w.holders w.entering w.dropped)
  release :
      (w : World)
      → 0 < w.holders
      → Step w (to (unblock_enter w.hiber) (w.holders - 1) w.entering false)
  wake :
      (env : Drm) (w : World)
      → must_wait w ≡ false
      → Step w (to (async_exit env w.hiber).0 w.holders w.entering false)
  switch :
      (env : Drm) (enable : Bool) (w : World)
      → (enable || not (must_wait w)) ≡ true
      → Step w (to (store env enable w.hiber) w.holders w.entering false)
  fire :
      (env : Drm) (w : World)
      → w.hiber.queued ≡ true
      → w.entering ≡ false
      → (is_hibernation_blocked w.hiber || not (check w.hiber)) ≡ true
      → Step w (to (handler env w.hiber) w.holders false w.dropped)
  fire_begin :
      (w : World)
      → w.hiber.queued ≡ true
      → w.entering ≡ false
      → is_hibernation_blocked w.hiber ≡ false
      → check w.hiber ≡ true
      → Step w (to (begin w.hiber) w.holders true w.dropped)
  fire_finish :
      (env : Drm) (w : World)
      → w.entering ≡ true
      → Step w (to (finish env w.hiber) w.holders false w.dropped)
  suspended :
      (env : Drm) (flushed : Decon → Decon) (w : World)
      → w.entering ≡ false
      → Step w (to (suspend env flushed w.hiber).0 w.holders false true)

pub data Reach (v : World) : World → Type 0 where
  here : Reach v v
  next : {w u : World} → Reach v w → Step w u → Reach v u

abbrev pub own : Bool → ℕ
own e = if e then 1 else 0

-- The counter is the number of holders and the block of a running work, no unblock went below 0, and
-- an awake display that nobody blocks has its work pending, unless a suspend has come since a block
-- was given back.
pub record Inv (w : World) : Type 0 where
  pub counted : w.hiber.block_cnt ≡ w.holders + own w.entering
  pub quiet : w.hiber.warnings ≡ 0
  pub wired : w.hiber.has_decon ≡ true
  pub armed : (is_hibernation_blocked w.hiber || w.hiber.queued || w.dropped) ≡ true
  pub running : (not w.entering || w.hiber.queued) ≡ true

-- What a function does to the counter, for the steps that end with an `unblock_enter`.
pub record Takes (h h' : Hiber) : Type 0 where
  pub one : h'.block_cnt ≡ suc h.block_cnt
  pub quiet : h'.warnings ≡ h.warnings
  pub wired : h'.has_decon ≡ h.has_decon

block-Takes : (h : Hiber) → h.has_decon ≡ true → Takes h (block h).0
unfolding block
block-Takes h e = ground arith

block_exit_result-Takes :
    (env : Drm) (nonblock : Bool) (h : Hiber)
    → h.has_decon ≡ true
    → Takes h (block_exit_result env nonblock h).0
unfolding block_exit_result block_sync block cancel unblock exit
block_exit_result-Takes env nonblock h e = ground arith

block_exit-Takes : (env : Drm) (h : Hiber) → h.has_decon ≡ true → Takes h (block_exit env h)
unfolding block_exit
block_exit-Takes env h e = block_exit_result-Takes env false h e

-- A holder keeps the display blocked.
Takes-Inv :
    (w : World) (h' : Hiber)
    → (not w.entering || h'.queued) ≡ true
    → Inv w
    → Takes w.hiber h'
    → Inv (to h' (suc w.holders) w.entering w.dropped)
unfolding is_hibernation_blocked
Takes-Inv w h' q v t = ground arith

-- Giving back one block arms the work if it was the last one.
release-Inv :
    (n : ℕ) (e r : Bool) (h : Hiber)
    → h.block_cnt ≡ suc (n + own e)
    → h.warnings ≡ 0
    → h.has_decon ≡ true
    → (not e || h.queued) ≡ true
    → Inv (to (unblock_enter h) n e r)
unfolding unblock_enter is_hibernation_blocked unblock
release-Inv n e r h c q d u = ground arith

-- A caller that does not wait arms the work.
block_exit_queued :
    (env : Drm) (nonblock : Bool) (w : World)
    → must_wait w ≡ false
    → Inv w
    → (not w.entering || (block_exit_result env nonblock w.hiber).0.queued) ≡ true
unfolding block_exit_result block_sync block is_hibernation_enabled
block_exit_queued env nonblock w off v = ground (arith, off, v.wired)

async_exit-Inv :
    (env : Drm) (w : World)
    → must_wait w ≡ false
    → Inv w
    → Inv (to (async_exit env w.hiber).0 w.holders w.entering false)
unfolding async_exit
async_exit-Inv env w off v =
    let t = block_exit_result-Takes env true w.hiber v.wired in
    release-Inv w.holders w.entering false (block_exit_result env true w.hiber).0
      (omega (arith, v.counted, t.one)) (omega (arith, v.quiet, t.quiet)) (t.wired ∙ v.wired)
      (block_exit_queued env true w off v)

store-Inv :
    (env : Drm) (enable : Bool) (w : World)
    → (enable || not (must_wait w)) ≡ true
    → Inv w
    → Inv (to (store env enable w.hiber) w.holders w.entering false)
unfolding store block block_exit
store-Inv env true w off v =
    let h = record w.hiber { enabled = true } in
    let t = block-Takes h v.wired in
    release-Inv w.holders w.entering false (block h).0 (omega (arith, v.counted, t.one))
      (omega (arith, v.quiet, t.quiet)) (t.wired ∙ v.wired) (ground (arith, v.wired))
store-Inv env false w off v =
    let t = block_exit-Takes env w.hiber v.wired in
    release-Inv w.holders w.entering false (record (block_exit env w.hiber) { enabled = false })
      (omega (arith, v.counted, t.one)) (omega (arith, v.quiet, t.quiet)) (t.wired ∙ v.wired)
      (block_exit_queued env false w (ground (arith, off)) v)

handler-Inv :
    (env : Drm) (w : World)
    → w.entering ≡ false
    → (is_hibernation_blocked w.hiber || not (check w.hiber)) ≡ true
    → Inv w
    → Inv (to (handler env w.hiber) w.holders false w.dropped)
unfolding handler run is_hibernation_blocked
handler-Inv env w off idle v = ground arith

begin-Inv :
    (w : World) → w.entering ≡ false → Inv w → Inv (to (begin w.hiber) w.holders true w.dropped)
unfolding begin is_hibernation_blocked block
begin-Inv w off v = ground arith

finish-Inv :
    (env : Drm) (w : World)
    → w.entering ≡ true
    → Inv w
    → Inv (to (finish env w.hiber) w.holders false w.dropped)
unfolding finish is_hibernation_blocked enter unblock
finish-Inv env w on v = ground arith

suspend-Inv :
    (env : Drm) (flushed : Decon → Decon) (w : World)
    → w.entering ≡ false
    → Inv w
    → Inv (to (suspend env flushed w.hiber).0 w.holders false true)
unfolding suspend run block enter unblock
suspend-Inv env flushed w off v = ground arith

commit-Inv :
    (d : Decon) (w : World)
    → 0 < w.holders
    → Inv w
    → Inv (to (record w.hiber { decon = d }) w.holders w.entering w.dropped)
unfolding is_hibernation_blocked
commit-Inv d w held v = ground arith

register-Inv :
    (np : Node) (d : Decon) (h : Hiber)
    → register np d ≡ some h
    → is_on d.state ≡ false
    → Inv (to h 0 false false)
unfolding register is_hibernation_blocked
register-Inv np d h r off = ground arith

block_queued : (h : Hiber) → h.has_decon ≡ true → (block h).0.queued ≡ true
unfolding block
block_queued h e = ground arith

-- Each step of a caller, of the work, of the switch or of the system's sleep keeps the invariant.
pub Step-Inv : {w u : World} → Step w u → Inv w → Inv u
unfolding block_exit
Step-Inv (hold w) v =
    Takes-Inv w _ (ground (arith, block_queued w.hiber v.wired)) v (block-Takes w.hiber v.wired)
Step-Inv (acquire env w off) v =
    Takes-Inv w (block_exit env w.hiber) (block_exit_queued env false w off v) v
      (block_exit-Takes env w.hiber v.wired)
Step-Inv (commit d w held) v = commit-Inv d w held v
Step-Inv (release w held) v =
    release-Inv (w.holders - 1) w.entering false w.hiber (omega (arith, v.counted)) v.quiet v.wired
      v.running
Step-Inv (wake env w off) v = async_exit-Inv env w off v
Step-Inv (switch env enable w off) v = store-Inv env enable w off v
Step-Inv (fire env w queued off idle) v = handler-Inv env w off idle v
Step-Inv (fire_begin w queued off free yes_check) v = begin-Inv w off v
Step-Inv (fire_finish env w on) v = finish-Inv env w on v
Step-Inv (suspended env flushed w off) v = suspend-Inv env flushed w off v

-- Whatever its callers, its work, the sysfs switch and the system's sleep do, in any order, after the
-- registration of a display that is not on yet, where callers may come between the test of the work and
-- the end of its `funcs->enter`: the block counter is the number of blocks taken and not given back, and
-- one more while the work enters; no unblock ever went below 0; and a display that is on, enabled and
-- blocked by nobody has its hibernation work pending, unless a suspend has come since a block was last
-- given back.
pub Reach-Inv :
    (np : Node) (d : Decon) (h : Hiber) {w : World}
    → register np d ≡ some h
    → is_on d.state ≡ false
    → Reach (to h 0 false false) w
    → Inv w
Reach-Inv np d h r off here = register-Inv np d h r off
Reach-Inv np d h r off (next path step) = Step-Inv step (Reach-Inv np d h r off path)
