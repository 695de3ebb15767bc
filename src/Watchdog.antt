-- ===== src/Watchdog.antt =====
-- lcnc-gateway/hal_watchdog.py, the process that drives the HAL pins of the heartbeat.
pub mod Loop
pub mod Events
mod Induction
pub mod Safe
pub mod Pulse
pub mod Buffer
pub mod Framed
mod Examples
