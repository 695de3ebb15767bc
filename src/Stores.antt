-- ===== src/Stores.antt =====
-- The files that keep the settings (lcnc-gateway/settings_store.py) and the metadata of the tools
-- (lcnc-gateway/tool_store.py), each with one entry per INI. What `json` writes and reads is a
-- parameter. An operation gives `none` where it raises.
pub mod Settings
pub mod Tools
mod Kept
mod Reread
mod Migrated
mod Examples
