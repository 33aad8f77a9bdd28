-- ===== src/Examples.antt =====
-- Concrete inputs: what the theorems say of them, and a few runs.
pub mod Hosts
pub mod Grants
pub mod Decisions
pub mod Tasks
pub mod Queues
pub mod Agents
pub mod Stores
pub mod Streams
pub mod Caches
pub mod Workflows
