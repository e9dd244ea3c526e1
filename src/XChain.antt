-- ===== src/XChain.antt =====
-- xchain.go: orders and blocks of the X-Chain exchange over one dealer socket.
mod Types
mod Calls
pub mod Exchange
mod Tests
pub use Types.*
unfoldable pub use Calls.*
