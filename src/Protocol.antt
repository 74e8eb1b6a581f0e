-- ===== src/Protocol.antt =====
-- internal/agoboardprotocol/protocol.go: the data of the work graph and the rules on it.
pub mod States
pub mod Records
pub mod Commands
pub mod Errors
pub mod Retry
pub mod Rules
pub mod Acyclic
pub mod Validate
pub mod Completion
