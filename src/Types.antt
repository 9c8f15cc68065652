-- ===== src/Types.antt =====
-- companyos_runtime/types.py: the enumerations of the runtime contracts, with the text of each
-- member (`.value`), and the parts of GoalSpec and TaskSpec that the runtime reads back.
pub mod Values
pub mod Equality
pub mod Specs
pub mod Authority
pub mod Documents
