-- ===== src/Enforcement.antt =====
-- src/enforcement: the strict mode, smoke evidence and review provenance.
pub mod StrictMode
pub mod Smoke
pub mod Provenance
