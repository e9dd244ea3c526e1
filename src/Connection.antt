-- ===== src/Connection.antt =====
-- connection.go: the client's side of the handshake, and key rotation. A method is an `Action` over
-- the connection; the mutex around each makes it one step.
mod State
mod Handshake
mod Rotation
mod Calls
pub mod Guards
pub mod Progress
pub mod Hello
pub mod Finished
pub mod ServerHello
pub mod Stuck
pub mod Renewal
mod Tests
pub use State.*
unfoldable pub use Handshake.*
unfoldable pub use Rotation.*
unfoldable pub use Calls.*
