-- ===== src/Workflow.antt =====
-- src/workflow: phase transitions, the next action, and the gates that close a phase.
pub mod Transitions
pub mod Records
pub mod NextAction
pub mod Gates
mod Tests
