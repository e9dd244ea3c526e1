-- ===== src/Socket.antt =====
-- backend.go: the sockets over luxfi/zmq. A method is an `Action` over the socket, in one step; `Recv`
-- and `RecvMultipart` hold only the read lock, so that two of them may also overlap, which is left out.
mod Types
mod Calls
mod Settings
pub mod Requests
pub mod Closed
pub mod Counting
pub mod Accounting
pub mod Sample
pub mod Forgotten
mod Tests
pub use Types.*
unfoldable pub use Calls.*
unfoldable pub use Settings.*
