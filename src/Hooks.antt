-- ===== src/Hooks.antt =====
-- src/hooks: what the host asks when an agent stops.
pub mod Json
pub mod Stop
