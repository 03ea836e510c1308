-- ===== src/Lifecycle.antt =====
-- internal/dispatch/lifecycle.go: the life of an assignment, en_route and then arrived or cancelled.
-- Types holds the data and the keys, Scripts the Lua scripts, Manager the methods that call them.
pub mod Types
pub mod Scripts
pub mod Manager
pub mod Keys
pub mod Frames
pub mod Guards
pub mod Creating
pub mod Cancelling
pub mod Untouched
pub mod Arriving
pub mod Exclusive
pub mod Safety
pub mod Commands
pub mod Keeping
pub mod Resetting
pub mod Expiry
pub mod Records
pub mod Replies
pub mod Cancellation
pub mod Arrival
