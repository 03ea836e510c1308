-- ===== src/Realtime.antt =====
-- internal/realtime: the hub of the WebSocket connections and the connections themselves.
pub mod Messages
pub mod Clients
pub mod Registry
pub mod Systems
pub mod Hub
pub mod Handling
pub mod Running
pub mod Tame
pub mod Quiet
pub mod Reading
pub mod Sending
pub mod Naming
pub mod Sound
pub mod Steps
pub mod Bounds
pub mod Kept
pub mod Lasting
pub mod Broadcast
pub mod Replacing
pub mod Publishing
pub mod Book
