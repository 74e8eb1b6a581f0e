-- ===== src/Machine.antt =====
-- internal/agoboardprotocol/state_machine.go: `Apply` and its handlers.
pub mod Work
pub mod Attempts
pub mod Graph
pub mod Leases
pub mod Execution
pub mod Review
pub mod Integration
pub mod Patch
pub mod Apply
pub mod History
pub mod Log
