-- ===== src/Dispatcher/Safety.antt =====
-- internal/dispatch/dispatcher.go: what keeps the rides exclusive, by operation.
pub mod Assign
pub mod Search
pub mod Rides
