-- ===== src/Lib.antt =====
-- The display driver of Google's phones with Samsung's display controllers: a DRM driver in C.
--
-- The driver shows a frame by an atomic commit. The commit holds the display awake by the block
-- counter of hibernation (exynos_drm_hibernation.c). The bandwidth and clock control
-- (exynos_drm_bts.c) computes from the windows of the frame what the memory bus and the display
-- clock have to deliver, raises its votes with their drivers before the hardware takes the frame
-- over, and lowers them after. Each plane gets a window of the display controller
-- (exynos_drm_drv.c), and is checked against the restrictions of its hardware (exynos_drm_dpp.c),
-- and a frame may update a part of the panel only, to which its planes are then cut
-- (exynos_drm_partial.c). The controller (exynos_drm_decon.c) is turned on and off, shows the
-- frame, and sends the event that says so. The driver core of the panels (panel/panel-samsung-
-- drv.c) counts how long each state of the panel lasts, and turns its local high brightness on and
-- off. The frame goes to the panel over the lanes of the DSI host, whose clock may be changed at
-- run time (exynos_drm_dsim.c), or over DisplayPort to a monitor (exynos_drm_dp.c). What happens
-- is recorded in a ring of events (exynos_drm_debug.c). The formats of the windows come from the
-- table of exynos_drm_format.c.
--
-- Hibernation.antt models exynos_drm_hibernation.c: `struct exynos_hibernation` is the record
-- Hiber, and each function of the file has the name that it has there without its prefix (`block`,
-- `unblock`, `block_exit`, `unblock_enter`, `run`, `handler`, `suspend`, `register`).
-- Hibernation/SelfRefresh.antt models exynos_crtc_self_refresh_update, with the answers of DRM as
-- an argument; a finite row of tries stands for its retry loop, so it needs no fuel.
-- Hibernation/Clients.antt puts the functions together to a step relation: callers, commits, the
-- delayed work, hibernation_store of exynos_drm_debug.c and the system's sleep in any order. A run
-- of the work that finds the display free is two steps there, the test and funcs->enter, since
-- hibernation_block takes no lock; a caller that cancels the work waits until it has ended. A NULL
-- `hiber`, for which the functions return at once, is not modelled, nor are the mutex and the
-- moment at which the 50 ms of the delayed work are over.
--
-- Format.antt models the table of exynos_drm_format.c and dpu_find_fmt_info.
--
-- Bts.antt holds the data of exynos_drm_bts.c (`struct dpu_bts` as the records Params and Bts),
-- Bts/Clock.antt the clocks and latencies, and Bts/Vote.antt the updates and releases; a call of
-- the bus and clock drivers is an entry of a list of calls. Loops run over lists or count down a
-- level, so there is no fuel. Bts/Frame.antt models dpu_bts_calc_bw, which makes the bandwidths of
-- a frame from its windows, and Bts/Bandwidth.antt what it calls to find the load of a line and of
-- a port of the bus (dpu_bts_update_overlap_bw, dpu_bts_update_disp_ch_bw,
-- dpu_bts_sum_all_decon_bw, dpu_bts_find_max_disp_freq); the other controllers are an argument. A
-- loop that only sums or takes a maximum runs over its list from the end. Bts/Frame/Covered.antt
-- puts the frame and the votes together. `dpu_bts_init` is not modelled.
--
-- Dsim.antt is about exynos_drm_dsim.c: Dsim/Pll.antt models dsim_calc_pmsk, whose loop has fuel
-- for the 31 shifts of an `int` that C defines, Dsim/State.antt holds the data of the host,
-- Dsim/HsClock.antt models dsim_calc_underrun, dsim_set_hs_clock, dsim_update_clock_config,
-- dsim_get_clock_mode, dsim_set_clock_mode, and Dsim/HsClock/Store.antt hs_clock_store and what
-- dsim_encoder_disable does to a pending clock. The entries of the PLL table are shared: the
-- current one is an index into it. `kstrtobool` and `kstrtouint` are an argument, and the restart
-- of the link a flag.
--
-- Dsim/Command.antt models the writes of commands: dsim_write_data_locked and what it calls,
-- dsim_cmd_flush_locked and the part of dsim_host_transfer around them, with the writes of
-- registers as a list of effects; the packet that mipi_dsi_create_packet makes, the time since the
-- last frame and the result of the wait for an empty FIFO are arguments. Dsim/Command/Payload.antt
-- is about the words of a payload, and Dsim/Command/Occupancy.antt, Dsim/Command/Fifo.antt and
-- Dsim/Command/Transfers.antt about what waits in the FIFOs. The second interface of a dual link
-- and the failures of the waits are not modelled.
--
-- Dsim/Power.antt models the power of the host: dsim_encoder_enable from where its link to the
-- controller is made, dsim_encoder_disable but for the pending clock (which is in
-- Dsim/HsClock/Store.antt), _dsim_enable, _dsim_disable, the low power state (ULPS), the callbacks
-- of power management, and of dsim_host_transfer what changes the power. The counts of the PHY, of
-- the interrupt and of runtime power management are numbers, with flags for a count that would go
-- below 0 and for a register that is touched without power; runtime power management itself, which
-- is the kernel's, is written out as its documentation states it, and a PHY is taken not to fail.
-- Dsim/Power/Balance.antt is about each operation and Dsim/Power/Commits.antt about any row of
-- them.
--
-- Dp.antt, Dp/LinkUp.antt and Dp/Training.antt model the DisplayPort link of exynos_drm_dp.c:
-- dp_fill_host_caps, dp_link_up from the check of the sink's rate on and outside the emulation
-- mode, and the training (dp_do_full_link_training, dp_do_link_training_cr,
-- dp_do_link_training_eq, dp_validate_link_training). What the hardware and the sink answer is the
-- record Line, a function of the time at which they are asked; the kernel's conversion of rates is
-- the record Rates with its laws. The loop of the clock recovery has fuel for its 10 rounds, that
-- of the full training for the 12 links there are. Dp/Training/Ladder.antt states the row of
-- links.
--
-- Event.antt models the ring of the last events of exynos_drm_debug.c: its allocation in
-- dpu_init_debug, dpu_event_ignore, dpu_event_get_next, and DPU_EVENT_LOG,
-- DPU_EVENT_LOG_ATOMIC_COMMIT and DPU_EVENT_LOG_CMD up to the data of an event, for a controller
-- that is there. Event/Kind.antt holds the types of events, Event/History.antt the history that
-- the ring is to show. Event/Print.antt models dpu_event_log_print but for the text of a line; its
-- loop has fuel for the entries asked for, and the counter is below 2 ^ 31 there. The module
-- parameter dpu_event_log_max is an argument, and so are the time of an event, whether vzalloc
-- finds room, and the types that a print skips.
--
-- Windows.antt models which windows of the controllers a commit gives to which CRTC
-- (exynos_atomic_check_windows of exynos_drm_drv.c with find_set_bits_mask and
-- exynos_drm_crtc_get_win_cnt), and which of them a plane gets, and which are in use
-- (decon_get_win_id and decon_is_win_used of exynos_drm_decon.c). A mask is a function of its
-- bits. The loop over its bits has fuel for the 32 of a word. What a CRTC is to show, and which
-- flags DRM set for it, is an argument. A commit that is checked is taken to be made, as DRM does
-- it with the state lock held.
--
-- Decon.antt and its children are about the display controller of exynos_drm_decon.c.
-- Decon/Switch.antt models decon_enable, decon_disable and the hibernation between them, with
-- exynos_drm_crtc_atomic_enable and exynos_drm_crtc_atomic_disable of exynos_drm_crtc.c, which
-- call them, and Decon/Switch/Commits.antt puts them together to what exynos_disable_outputs of
-- exynos_drm_fb.c and the enables of DRM do in a commit with a modeset, and to a step relation of
-- such commits. The references of runtime power management and the depth of the interrupts are
-- counted; a write of a register is an entry of a list of calls. The configuration that
-- decon_update_config computes, the answers of the connector, and whether a frame is done in time
-- are arguments. The TE interrupt is only a flag that says whether it is requested.
-- Decon/Flip.antt models the flush of a frame (decon_atomic_flush), the interrupts
-- (decon_irq_handler, decon_fs_irq_handler, decon_te_irq_handler) and decon_wait_for_flip_done;
-- Decon/Flip/State.antt the events that they pass on. A handler and a flush are one step each, as
-- the spin lock makes their part that is about events. What decon_atomic_check does, the planes
-- and the registers of a window are not modelled.
--
-- Dqe.antt models the histogram of exynos_drm_dqe.c, as it is with CONFIG_SOC_ZUMA:
-- histogram_channel_request_ioctl, histogram_channel_cancel_ioctl, histogram_event_request_ioctl,
-- histogram_event_cancel_ioctl, handle_histogram_event, histogram_flip_done,
-- exynos_dqe_hibernation_enter, and what exynos_dqe_update and exynos_dqe_reset do about the
-- channels; Dqe/State.antt holds the channels and the events, and Dqe/Config.antt the update,
-- hibernation and the reset. What the registers of a channel hold is an argument of each call that
-- may read them, and so is whether a call finds its CRTC and room for an event; the node of the
-- list is taken to find memory. An event that was sent or freed goes to a list. Each call is one
-- step, as the spin lock makes it. The rest of color processing is not modelled.
--
-- Panel.antt and Panel/Stats.antt model the statistics of panel/panel-samsung-drv.c:
-- disp_stats_init, how long a panel was in each state at each resolution and rate
-- (disp_stats_update_state), and where that is counted (get_disp_stats_time_state_idx). A table is
-- the list of its entries in use. The clock, ktime_ms_delta and drm_mode_vrefresh are arguments,
-- and so is whether the counters are allocated. What the files of sysfs show of them is not
-- modelled. Panel/LocalHbm.antt models the local high brightness mode:
-- panel_update_local_hbm_locked and what it calls, local_hbm_timeout_work, local_hbm_post_work
-- without its waits, and what the disabling of a panel does about it. Where the driver lets go of
-- its lock to cancel a work, the update waits, and other steps may come between. The rest of the
-- panel driver is not modelled.
--
-- Partial.antt models exynos_drm_partial.c: exynos_partial_init, exynos_partial_adjust_region,
-- exynos_partial_check, exynos_partial_prepare, exynos_partial_set_size, exynos_partial_update and
-- exynos_partial_restore. The functions of the kernel's drm_rect.h are the record RectOps, whose
-- documented laws are RectLaws and SizeLaws. Commands to the panel and writes of registers are a
-- list of effects. exynos_partial_initialize and exynos_partial_reconfig_coords are not modelled.
--
-- Dpp.antt models dpp_check of exynos_drm_dpp.c and its parts, for a configuration that
-- dpp_convert_plane_state_to_config has made, and as compiled for CONFIG_SOC_ZUMA; Dpp/Align.antt
-- is about the mask of IS_ALIGNED. The conversion, and the checks of single chips, are not
-- modelled.
--
-- Words of 32 and 64 bits are native numbers with their wrap-around written out
-- (Prelude/Words.antt). Trace points, log output and locks are left out everywhere. Register
-- access, the drivers of single panels, the rest of DisplayPort, of the DSI host and of the DRM
-- glue are not modelled.
pub mod Prelude
pub mod Bts
pub mod Decon
pub mod Dp
pub mod Dpp
pub mod Dqe
pub mod Dsim
pub mod Event
pub mod Format
pub mod Hibernation
pub mod Panel
pub mod Partial
pub mod Windows
