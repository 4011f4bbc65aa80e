-- ===== src/Continuation.antt =====
-- src/continuation: the execution policy, its audit and the closure gate.
pub mod Labels
pub mod Policy
pub mod Store
pub mod Digests
pub mod Audit
pub mod Shadow
pub mod Closure
