-- ===== src/Tests.antt =====
-- Runs of the model, and the theorems at concrete data.
mod Covering
mod Sharing
mod Walking
mod Ordering
mod Patching
mod Leasing
mod Attempting
mod Permitting
mod Aggregating
mod Resuming
mod Routing
