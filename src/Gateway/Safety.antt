-- ===== src/Gateway/Safety.antt =====
-- Properties of the dispatcher as a whole: what a client may make the machine do.
mod Paths
pub mod Sent
pub mod Disarmed
pub mod Running
