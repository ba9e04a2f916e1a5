-- ===== src/Hibernation.antt =====
-- exynos_drm_hibernation.c and exynos_drm_hibernation.h: the block counter that keeps the display
-- awake, and the delayed work that puts it into self refresh. A function that changes
-- `struct exynos_hibernation` returns the new record. `mutex lock` and the wait of
-- `kthread_cancel_delayed_work_sync` make a run of the work one step; trace calls are left out.
-- `block_cnt` is an `int` that counts callers, and is not modelled beyond 2 ^ 31.
mod SelfRefresh
mod Clients
mod Tests
pub use SelfRefresh.{Decon, Drm, DeconState}
use SelfRefresh.{self_refresh_update}
use Prim.Native.Nat.{bit_and}
use google_modules_display_s.Prelude.{
  ℕ, ◌+◌, ◌-◌, Bool, true, false, not, ◌&&◌, ◌||◌, Option, none, some, ltb, ◌==◌, if◌then◌else◌,
  Errno, Ret, is_ok, is_eagain,
}

-- `struct exynos_hibernation`. `cam_op_reg` holds what a read of the mapped register gives, `queued`
-- says whether `dwork` is pending, and `warnings` counts the hits of the `WARN_ON`.
pub record Hiber : Type 0 where
  pub block_cnt : ℕ
  pub cam_op_reg : Option ℕ
  pub queued : Bool
  pub has_decon : Bool
  pub decon : Decon
  pub has_funcs : Bool
  pub enabled : Bool
  pub warnings : ℕ

pub is_camera_operating : Hiber → Bool
is_camera_operating h = elim h.cam_op_reg [ none ↦ false | some v ↦ not (bit_and v 0xf == 0) ]

pub is_hibernation_enabled : Hiber → Bool
is_hibernation_enabled h = h.enabled && h.decon.command_mode

abbrev pub is_on : DeconState → Bool
is_on DeconState.on = true
is_on _ = false

abbrev pub is_hibernating : DeconState → Bool
is_hibernating DeconState.hibernation = true
is_hibernating _ = false

pub is_hibernation_blocked : Hiber → Bool
unfolding is_hibernation_enabled
is_hibernation_blocked h =
    not (is_hibernation_enabled h) || (ltb 0 h.block_cnt || not (is_on h.decon.state))

pub is_dqe_dimming_in_progress : Decon → Bool
is_dqe_dimming_in_progress d = elim d.dqe [ none ↦ false | some dimming ↦ dimming ]

pub check : Hiber → Bool
unfolding is_camera_operating is_dqe_dimming_in_progress
check h = not (is_camera_operating h) && not (is_dqe_dimming_in_progress h.decon)

-- The count is the result; the work is armed again for 50 ms later.
pub block : Hiber → Hiber × ℕ
block h =
    if h.has_decon
    then (record h { block_cnt = h.block_cnt + 1; queued = true }, h.block_cnt + 1)
    else (h, 0)

-- `atomic_add_unless(&block_cnt, -1, 0)`, with its warning.
pub unblock : Hiber → Hiber
unblock h =
    if h.has_decon
    then if ltb 0 h.block_cnt
      then record h { block_cnt = h.block_cnt - 1 }
      else record h { warnings = h.warnings + 1 }
    else h

pub enter : Drm → Bool → Hiber → Hiber × Ret
enter env nonblock h =
    let (d, ret) = self_refresh_update env true nonblock h.decon in (record h { decon = d }, ret)

pub exit : Drm → Bool → Hiber → Hiber × Ret
exit env nonblock h =
    let (d, ret) = self_refresh_update env false nonblock h.decon in (record h { decon = d }, ret)

-- `true` when the display is out of hibernation.
pub cancel : Hiber → Hiber × Bool
unfolding block unblock
cancel h =
    let h' = unblock (record (block h).0 { queued = false }) in
    (h', not (is_hibernating h'.decon.state))

pub block_sync : Hiber → Hiber × Bool
unfolding block cancel is_hibernation_enabled
block_sync h =
    let h' = (block h).0 in
    if is_hibernation_enabled h'
    then if h'.has_funcs then (let (h'', awake) = cancel h' in (h'', not awake)) else (h', true)
    else (h', false)

pub block_exit_result : Drm → Bool → Hiber → Hiber × Bool
unfolding block_sync exit
block_exit_result env nonblock h =
    let (h', hibernation_on) = block_sync h in
    if hibernation_on && h'.has_funcs
    then (let (h'', ret) = exit env nonblock h' in (h'', is_ok ret))
    else (h', hibernation_on)

pub block_exit : Drm → Hiber → Hiber
unfolding block_exit_result
block_exit env h = (block_exit_result env false h).0

pub unblock_enter : Hiber → Hiber
unfolding unblock is_hibernation_blocked
unblock_enter h =
    let h' = unblock h in if is_hibernation_blocked h' then h' else record h' { queued = true }

pub async_exit : Drm → Hiber → Hiber × Bool
unfolding block_exit_result unblock_enter
async_exit env h =
    let (h', hibernation_on) = block_exit_result env true h in (unblock_enter h', hibernation_on)

-- `_exynos_hibernation_run`, between the lock and the unlock.
pub run : Drm → Bool → Hiber → Hiber × Ret
unfolding is_hibernation_blocked check block unblock enter
run env nonblock h =
    if is_hibernation_blocked h
    then (h, if is_on h.decon.state then some Errno.ebusy else none)
    else if check h
    then (let (h', rc) = enter env nonblock (block h).0 in (unblock h', rc))
    else (h, some Errno.eagain)

-- The worker takes the work off its queue before it calls the handler.
pub handler : Drm → Hiber → Hiber
unfolding run
handler env h =
    let (h', rc) = run env true (record h { queued = false }) in
    if is_eagain rc then record h' { queued = true } else h'

-- `flushed` is what the commits still queued on the worker make of the display.
pub suspend : Drm → (Decon → Decon) → Hiber → Hiber × Ret
unfolding run
suspend env flushed h =
    let h' = record h { queued = false; decon = flushed h.decon } in
    if ltb 0 h'.block_cnt then (h', some Errno.ebusy) else run env false h'

-- What `exynos_hibernation_register` finds in the device tree: its two properties, the memory, and
-- for the camera node the mapping of its register, if it maps.
pub record Node : Type 0 where
  pub override_hibernation : Bool
  pub hibernation : Bool
  pub memory : Bool
  pub camera : Option (Option ℕ)

abbrev fresh : Decon → Option ℕ → Hiber
fresh d reg = record {
  block_cnt = 0;
  cam_op_reg = reg;
  queued = false;
  has_decon = true;
  decon = d;
  has_funcs = true;
  enabled = true;
  warnings = 0;
}

pub register : Node → Decon → Option Hiber
register np d =
    if np.override_hibernation
    then none
    else if np.hibernation
    then if np.memory
      then elim np.camera [
        | none ↦ some (fresh d none)
        | some mapped ↦ elim mapped [ none ↦ none | some v ↦ some (fresh d (some v)) ]
      ]
      else none
    else none
