-- ===== src/Tests.antt =====
-- Concrete runs: a dispatcher over a server in memory, and the theorems at inputs that exercise the
-- program.
pub mod Setup
mod Rides
mod Searches
mod Lives
mod Services
mod Limits
mod Endings
mod Connections
mod Requests
