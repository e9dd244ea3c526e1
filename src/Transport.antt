-- ===== src/Transport.antt =====
-- qzmq.go: the transport, with the sockets that it makes. Whoever asked for a socket holds a pointer
-- to it, and so does the transport: both are addresses in one heap.
mod Types
mod Calls
pub mod Making
pub mod Settings
pub mod Shutdown
mod Tests
pub use Types.*
unfoldable pub use Calls.*
