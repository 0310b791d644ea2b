-- ===== src/Examples.antt =====
-- The properties at concrete inputs: a small machine, and the runs of each part on it.
pub mod Machine
mod Runs
mod Waits
mod Deploys
mod Layouts
mod Packages
mod Crypto
pub mod Stamps
mod Tables
mod Backups
mod Bucket
mod Passes
