-- ===== src/Crypto.antt =====
-- crypto.go and mlkem_integration.go: signatures, key encapsulation, key derivation and AEAD.
-- The Go library, golang.org/x/crypto and luxfi/crypto enter as a `Host`; reads of crypto/rand are
-- numbered, and the state of a method that draws is the number of the next read.
pub mod Host
mod Keys
mod Sign
mod Parts
mod Sizes
mod Encapsulation
mod Derive
pub mod Agreement
pub mod Derivation
pub mod Advertised
pub mod Sample
mod Tests
unfoldable pub use Keys.*
unfoldable pub use Sign.*
unfoldable pub use Parts.*
unfoldable pub use Sizes.*
unfoldable pub use Encapsulation.*
unfoldable pub use Derive.*
