-- ===== src/Dsim.antt =====
-- exynos_drm_dsim.c, the DSI host: the choice of its high speed clock, with the dividers of the PLL,
-- the time that a frame takes on the lanes, and the changes of the clock at run time.
pub mod Pll
pub mod State
pub mod HsClock
pub mod Command
pub mod Power
mod Tests
