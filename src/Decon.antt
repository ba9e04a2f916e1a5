-- ===== src/Decon.antt =====
-- exynos_drm_decon.c: the display controller as the CRTC turns it on, off and into hibernation. A
-- write of a register, or a call of the panel's other drivers, is an entry of a list of calls.
-- `drm_mode_vrefresh` and what decon_update_config computes are arguments; log output is left out.
pub mod Flip
pub mod Switch
use google_modules_display_s.Prelude.{
  ℕ, zero, suc, ◌+◌, ◌-◌, Bool, true, false, not, ◌&&◌, ◌||◌, Option, none, some, List, [], ◌∷◌,
  ◌++◌, map, min, ltb, ◌==◌, if◌then◌else◌,
}
use google_modules_display_s.Hibernation.{DeconState}

-- MAX_WIN_PER_DECON, as compiled for CONFIG_SOC_ZUMA.
abbrev pub max_win : ℕ
max_win = 14

-- The part of `struct decon_config` that the state machine reads.
pub record Config : Type 0 where
  pub command_mode : Bool
  pub hw_trig : Bool
  pub out_dp : Bool
  pub out_bpc : ℕ

-- The part of `struct dpp_device` that a controller writes. `decon_id` is `none` for a negative one.
pub record Dpp : Type 0 where
  pub id : ℕ
  pub handed_over : Bool
  pub decon_id : Option ℕ
  pub win_id : ℕ
  pub is_win_connected : Bool
  pub dbg_dma_addr : ℕ

-- Calls of the register layer and of the other parts of the display.
pub data HwCall : Type 0 where
  reg_init : HwCall
  set_interrupts : Bool → HwCall
  set_win_enable : ℕ → Bool → HwCall
  dpp_disable : ℕ → HwCall
  rcd_disable : HwCall
  reg_stop : Bool → ℕ → HwCall
  dqe_reset dqe_restore_lpd_data dqe_hibernation_enter partial_restore : HwCall

-- How often each interrupt line is enabled; `unbalanced` says that one was disabled once too often.
pub record Irqs : Type 0 where
  pub fd : ℕ
  pub ext : ℕ
  pub fs : ℕ
  pub ds : ℕ
  pub de : ℕ
  pub unbalanced : Bool

-- `struct decon_device`. `power` counts the references of runtime power management, and `bad_put`
-- says that one was given back which nobody held. `te` says whether the TE interrupt is requested.
pub record DeconDevice : Type 0 where
  pub id : ℕ
  pub state : DeconState
  pub config : Config
  pub power : ℕ
  pub bad_put : Bool
  pub irqs : Irqs
  pub has_ds : Bool
  pub has_de : Bool
  pub te : Bool
  pub te_ref : ℕ
  pub tout_gpio : ℕ
  pub frames_pending : ℕ
  pub frame_transfer_pending : Bool
  pub bts_fps : ℕ
  pub active_wins : List Bool
  pub dpps : List Dpp
  pub has_rcd : Bool
  pub has_dqe : Bool
  pub gray_level_callback : Bool
  pub has_partial : Bool
  pub calls : List HwCall

abbrev pub call : DeconDevice → List HwCall → DeconDevice
call d cs = record d { calls = d.calls ++ cs }

abbrev pub is_handover : DeconState → Bool
is_handover DeconState.handover = true
is_handover _ = false

-- `decon_is_te_enabled`
abbrev pub is_te_enabled : Config → Bool
is_te_enabled c = c.command_mode && c.hw_trig

-- `pm_runtime_get_sync` and `pm_runtime_put`, as the kernel documents the count.
unfoldable pub pm_get : DeconDevice → DeconDevice
pm_get d = record d { power = suc d.power }

unfoldable pub pm_put : DeconDevice → DeconDevice
pm_put d = record d { power = d.power - 1; bad_put = d.bad_put || d.power == 0 }

-- `enable_irq` and `disable_irq` of a line that is there.
abbrev pub up : Bool → ℕ → ℕ
up there n = if there then suc n else n

abbrev pub down : Bool → ℕ → ℕ
down there n = if there then n - 1 else n

abbrev pub at_zero : Bool → ℕ → Bool
at_zero there n = there && n == 0

unfoldable pub enable_irqs : DeconDevice → DeconDevice
enable_irqs d =
    let q = d.irqs in
    record d {
      calls = d.calls ++ (set_interrupts true ∷ []);
      irqs = record q {
        fd = suc q.fd;
        ext = suc q.ext;
        fs = up (is_te_enabled d.config) q.fs;
        ds = up d.has_ds q.ds;
        de = up d.has_de q.de;
      };
    }

unfoldable pub disable_irqs : DeconDevice → DeconDevice
disable_irqs d =
    let q = d.irqs in
    record d {
      calls = d.calls ++ (set_interrupts false ∷ []);
      irqs = record {
        fd = q.fd - 1;
        ext = q.ext - 1;
        fs = down (is_te_enabled d.config) q.fs;
        ds = down d.has_ds q.ds;
        de = down d.has_de q.de;
        unbalanced =
            q.unbalanced
            || at_zero true q.fd
            || at_zero true q.ext
            || at_zero (is_te_enabled d.config) q.fs
            || at_zero d.has_ds q.ds
            || at_zero d.has_de q.de;
      };
    }

-- `_decon_enable_locked`
unfoldable pub enable_locked : DeconDevice → DeconDevice
unfolding enable_irqs
enable_locked d = enable_irqs (call d (reg_init ∷ []))

-- The windows from a number on.
abbrev pub wins_off : ℕ → List HwCall
wins_off zero = []
wins_off (suc n) = wins_off n ++ (set_win_enable n false ∷ [])

abbrev pub same_decon : ℕ → Option ℕ → Bool
same_decon id none = true
same_decon id (some other) = other == id

-- Which DPPs the loop of `_decon_reinit_locked` disables.
abbrev pub takes : ℕ → Dpp → Bool
takes id p = not p.handed_over && same_decon id p.decon_id

unfoldable pub reinit_dpp : ℕ → Dpp → Dpp
reinit_dpp id p =
    let in_use = ltb p.win_id max_win in
    if takes id p
    then record p {
      is_win_connected = false;
      win_id = if in_use then 255 else p.win_id;
      dbg_dma_addr = if in_use then 0 else p.dbg_dma_addr;
    }
    else p

abbrev pub dpps_off : ℕ → List Dpp → List HwCall
dpps_off id [] = []
dpps_off id (p ∷ ps) = if takes id p then dpp_disable p.id ∷ dpps_off id ps else dpps_off id ps

unfoldable pub reinit_locked : DeconDevice → DeconDevice
reinit_locked d = record d {
  dpps = map (reinit_dpp d.id) d.dpps;
  calls =
      d.calls
      ++ wins_off max_win
      ++ dpps_off d.id d.dpps
      ++ (if d.has_rcd then rcd_disable ∷ [] else []);
}

abbrev pub fps_of : ℕ → ℕ
fps_of n = if n == 0 then 60 else n

unfoldable pub stop_locked : Bool → ℕ → DeconDevice → DeconDevice
stop_locked reset vrefresh d =
    let d' = reinit_locked (record d { active_wins = map (λ w. false) d.active_wins }) in
    call d' (
      reg_stop reset (fps_of (min d.bts_fps vrefresh))
      ∷ (if reset && d.has_dqe then dqe_reset ∷ [] else []))

-- `_decon_wait_for_framedone`: whether the frame was done in time, and if the mode is to be set.
unfoldable pub wait_for_framedone : Bool → Bool → Bool
wait_for_framedone in_time needs_modeset = if in_time then needs_modeset else true

unfoldable pub disable_locked : Bool → ℕ → DeconDevice → DeconDevice
disable_locked reset vrefresh d =
    let d' = disable_irqs d in
    stop_locked reset (fps_of (min d.bts_fps vrefresh))
      (record d' { frames_pending = 0; frame_transfer_pending = false })
