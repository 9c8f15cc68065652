-- ===== src/Policy.antt =====
-- companyos_runtime/policy.py.
pub mod Authority
pub mod Gates
pub mod Approvals
mod Samples
