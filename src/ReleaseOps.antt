-- ===== src/ReleaseOps.antt =====
-- lib/release-ops.js: the plan of a deploy or rollback, its steps, and how they are put together.
pub mod Patterns
pub mod Plan
pub mod Actions
pub mod Apply
pub mod Entrances
pub mod Sockets
pub mod Ends
