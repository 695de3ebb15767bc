-- ===== src/Policy.antt =====
-- lcnc-gateway/command_policy.py, and `policy_state_from_payload` of status_runtime.py.
-- A requirement is the pair of a predicate and a message; a constructor stands for each `_R_*`.
mod Commands
mod State
pub mod Gates
pub mod Running
mod Examples
pub use Commands.*
unfoldable pub use State.*
