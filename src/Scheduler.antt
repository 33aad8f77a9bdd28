-- ===== src/Scheduler.antt =====
-- The agent's scheduler: apps/desktop-agent/src/scheduler. Items and lanes (types.ts), the policies
-- for priority, retry and admission, and the execution queue, each in a child.
pub mod Items
pub mod Policies
pub mod Admission
pub mod Queue
