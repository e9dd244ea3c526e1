-- ===== src/Options.antt =====
-- qzmq.go: the option types, the presets and `validateOptions`. An enum of Go is an `int` with named
-- values: `other n` is any value that has no name, and `code` the int behind a name (its `iota`).
mod Types
mod Presets
pub mod Names
pub mod Laws
mod Tests
pub use Types.*
unfoldable pub use Presets.*
