-- ===== src/Event/Kind.antt =====
-- exynos_drm_decon.h, the types of the events that the ring of a controller records.
use google_modules_display_s.Prelude.{ℕ}

-- `enum dpu_event_type`
pub data EventType : Type 0 where
  none_evt decon_enabled decon_disabled decon_framedone decon_framestart : EventType
  decon_rsc_occupancy decon_trig_mask decon_update_config dsim_enabled : EventType
  dsim_disabled dsim_command dsim_ulps_enter dsim_ulps_exit dsim_underrun : EventType
  dsim_framedone dsim_ph_fifo_timeout dsim_pl_fifo_timeout dpp_framedone : EventType
  dpp_set_protection dma_recovery idma_afbc_conflict idma_fbc_error : EventType
  idma_read_slave_error idma_deadlock idma_cfg_error atomic_commit : EventType
  te_interrupt decon_runtime_suspend decon_runtime_resume decon_suspend : EventType
  decon_resume dsim_runtime_suspend dsim_runtime_resume dsim_suspend : EventType
  dsim_resume enter_hibernation_in enter_hibernation_out : EventType
  exit_hibernation_in exit_hibernation_out atomic_begin atomic_flush : EventType
  wb_enable wb_disable wb_atomic_commit wb_framedone wb_enter_hibernation : EventType
  wb_exit_hibernation plane_prepare_fb plane_cleanup_fb plane_update : EventType
  plane_disable req_crtc_info_old req_crtc_info_new framestart_timeout : EventType
  bts_release_bw bts_calc_bw bts_update_bw partial_init partial_prepare : EventType
  partial_update partial_restore hist_collect_bins dsim_crc dsim_ecc : EventType
  vblank_enable vblank_disable dimming_start dimming_end cgc_framedone : EventType
  itmon_error sysmmu_fault : EventType

-- The number of a type in the enumeration, by which the source compares them.
unfoldable pub number : EventType → ℕ
number none_evt = 0
number decon_enabled = 1
number decon_disabled = 2
number decon_framedone = 3
number decon_framestart = 4
number decon_rsc_occupancy = 5
number decon_trig_mask = 6
number decon_update_config = 7
number dsim_enabled = 8
number dsim_disabled = 9
number dsim_command = 10
number dsim_ulps_enter = 11
number dsim_ulps_exit = 12
number dsim_underrun = 13
number dsim_framedone = 14
number dsim_ph_fifo_timeout = 15
number dsim_pl_fifo_timeout = 16
number dpp_framedone = 17
number dpp_set_protection = 18
number dma_recovery = 19
number idma_afbc_conflict = 20
number idma_fbc_error = 21
number idma_read_slave_error = 22
number idma_deadlock = 23
number idma_cfg_error = 24
number atomic_commit = 25
number te_interrupt = 26
number decon_runtime_suspend = 27
number decon_runtime_resume = 28
number decon_suspend = 29
number decon_resume = 30
number dsim_runtime_suspend = 31
number dsim_runtime_resume = 32
number dsim_suspend = 33
number dsim_resume = 34
number enter_hibernation_in = 35
number enter_hibernation_out = 36
number exit_hibernation_in = 37
number exit_hibernation_out = 38
number atomic_begin = 39
number atomic_flush = 40
number wb_enable = 41
number wb_disable = 42
number wb_atomic_commit = 43
number wb_framedone = 44
number wb_enter_hibernation = 45
number wb_exit_hibernation = 46
number plane_prepare_fb = 47
number plane_cleanup_fb = 48
number plane_update = 49
number plane_disable = 50
number req_crtc_info_old = 51
number req_crtc_info_new = 52
number framestart_timeout = 53
number bts_release_bw = 54
number bts_calc_bw = 55
number bts_update_bw = 56
number partial_init = 57
number partial_prepare = 58
number partial_update = 59
number partial_restore = 60
number hist_collect_bins = 61
number dsim_crc = 62
number dsim_ecc = 63
number vblank_enable = 64
number vblank_disable = 65
number dimming_start = 66
number dimming_end = 67
number cgc_framedone = 68
number itmon_error = 69
number sysmmu_fault = 70
