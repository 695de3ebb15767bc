-- ===== src/Gateway/Handlers.antt =====
-- Properties of single handlers.
pub mod Stop
pub mod Sequence
pub mod Overrides
pub mod Chunks
pub mod Rows
pub mod Plain
pub mod Gives
pub mod Tables
pub mod VarJoin
pub mod VarFile
pub mod Files
mod Examples
