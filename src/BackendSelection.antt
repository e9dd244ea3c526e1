-- ===== src/BackendSelection.antt =====
-- backend_selection.go: the choice of a backend from the environment, which is a parameter: `getenv`
-- gives the value of a variable, and the empty text for one that is not set.
mod Detect
mod Validate
pub mod Agreement
pub mod Usable
mod Tests
unfoldable pub use Detect.*
unfoldable pub use Validate.*
