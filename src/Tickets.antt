-- ===== src/Tickets.antt =====
-- src/tickets, and the ticket and verify commands of src/cli/commands.
pub mod Machine
pub mod Evidence
pub mod Provider
pub mod Shared
pub mod Commands
mod Tests
