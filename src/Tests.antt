-- ===== src/Tests.antt =====
-- Runs of the model at concrete inputs.
pub mod Data
pub mod Calls
mod Access
mod Writes
mod Updates
mod Deletes
mod Creates
mod Systems
mod Oauth
mod Jobs
mod Endpoints
mod Queries
