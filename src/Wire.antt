-- ===== src/Wire.antt =====
-- connection.go: the messages of the handshake and the frame of the data phase, as they stand on
-- the wire. Ints are 64 bits wide, so that `int(payloadLen)` keeps its value.
mod Types
mod Encode
mod Decode
pub mod Layout
pub mod RoundTrip
pub mod Accepted
mod Tests
pub use Types.*
unfoldable pub use Encode.*
unfoldable pub use Decode.*
