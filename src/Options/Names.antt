-- ===== src/Options/Names.antt =====
-- qzmq.go: the `String` methods of the enums.
use qzmq.Common.Text.{Text, text}
use qzmq.Options.Types.{
  SocketType, KemAlgorithm, SignatureAlgorithm, AeadAlgorithm, req, rep, dealer, router, pub_socket,
  sub, xpub, xsub, push, pull, pair, stream, x25519, mlkem768, mlkem1024, hybrid_x25519_mlkem768,
  hybrid_x25519_mlkem1024, ed25519, mldsa2, mldsa3, aes256_gcm, chacha20_poly1305,
}

unfoldable pub socket_type_string : SocketType → Text
socket_type_string req = text "REQ"
socket_type_string rep = text "REP"
socket_type_string dealer = text "DEALER"
socket_type_string router = text "ROUTER"
socket_type_string pub_socket = text "PUB"
socket_type_string sub = text "SUB"
socket_type_string xpub = text "XPUB"
socket_type_string xsub = text "XSUB"
socket_type_string push = text "PUSH"
socket_type_string pull = text "PULL"
socket_type_string pair = text "PAIR"
socket_type_string stream = text "STREAM"
socket_type_string (SocketType.other n) = text "UNKNOWN"

unfoldable pub kem_string : KemAlgorithm → Text
kem_string x25519 = text "X25519"
kem_string mlkem768 = text "MLKEM768"
kem_string mlkem1024 = text "MLKEM1024"
kem_string hybrid_x25519_mlkem768 = text "HybridX25519MLKEM768"
kem_string hybrid_x25519_mlkem1024 = text "HybridX25519MLKEM1024"
kem_string (KemAlgorithm.other n) = text "Unknown"

unfoldable pub signature_string : SignatureAlgorithm → Text
signature_string ed25519 = text "Ed25519"
signature_string mldsa2 = text "MLDSA2"
signature_string mldsa3 = text "MLDSA3"
signature_string (SignatureAlgorithm.other n) = text "Unknown"

unfoldable pub aead_string : AeadAlgorithm → Text
aead_string aes256_gcm = text "AES256GCM"
aead_string chacha20_poly1305 = text "ChaCha20Poly1305"
aead_string (AeadAlgorithm.other n) = text "Unknown"
