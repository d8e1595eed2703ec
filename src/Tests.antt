-- ===== src/Tests.antt =====
-- Runs of the model at concrete values.
mod Data
mod Server
mod Services
mod Status
mod Checks
mod Specs
mod Pools
mod Config
mod Runs
mod Whole
mod Revisions
mod Succeeding
mod Requests
mod Refusing
mod Reports
mod Listed
mod Admins
mod Programs
mod Operating
mod Copies
mod Populated
