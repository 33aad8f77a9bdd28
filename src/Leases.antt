-- ===== src/Leases.antt =====
-- Execution leases: the header types of packages/contracts/src/permissions/index.ts, and their
-- issuing, delegation and validation in the child modules.
pub mod Types
pub mod Scopes
pub mod Signature
pub mod Issuer
pub mod Chains
pub mod Delegation
pub mod Boundary
