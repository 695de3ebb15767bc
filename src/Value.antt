-- ===== src/Value.antt =====
-- The values of a decoded message, and the numeric validators of lcnc-gateway/gateway_util.py.
mod Floats
mod Json
mod Numbers
pub mod Bounds
mod Dicts
mod Examples
unfoldable pub use Floats.*
unfoldable pub use Dicts.*
unfoldable pub use Json.*
unfoldable pub use Numbers.*
