-- ===== src/Crypto/Derivation.antt =====
-- The keys of a connection as parts of one stream.
use qzmq.Crypto.Host.{Host}
