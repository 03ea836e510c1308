-- ===== src/Dispatcher.antt =====
-- internal/dispatch/dispatcher.go: Types holds the data, Assign the assignment of one driver, Search
-- the choice of a driver for a request, and Rides the other operations.
pub mod Types
pub mod Assign
pub mod Search
pub mod Rides
pub mod Wiring
pub mod Safety
pub mod Commands
pub mod Interleaving
pub mod Runs
pub mod Moves
pub mod Transitions
pub mod Settled
pub mod Endings
pub mod Reaching
pub mod Returning
pub mod Assigned
pub mod Nearest
pub mod Locating
pub mod Running
