-- ===== src/Gateway.antt =====
-- The command dispatcher of lcnc-gateway/gateway.py.
mod Machine
mod World
mod Guards
mod Jog
mod Power
mod Program
mod Spindle
mod Wcs
mod Library
mod Tools
mod Vars
mod Dispatch
pub mod RunFromLine
mod Frame
pub mod Safety
pub mod Handlers
mod Samples
mod Examples
