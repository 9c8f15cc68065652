-- ===== src/Store.antt =====
-- companyos_runtime/store.py: the append-only, hash-chained event log. The command authorities are in
-- `Store.Authority`, the append in `Store.Append`, the chain check in `Store.Verify`; the modules
-- below them prove their properties.
pub mod Idempotency
pub mod Authority
pub mod Entry
pub mod Domain
pub mod Append
pub mod Verify
pub mod Log
mod Chain
mod Versions
mod Sessions
mod Tamper
mod Samples
