-- ===== src/Wire/Types.antt =====
-- connection.go: the structs of the messages, and the protocol's constants.
use qzmq.Common.{ℕ, List}
use qzmq.Options.{Suite}

pub record Extension : Type 0 where
  pub typ : ℕ
  pub content : List ℕ

pub record ClientHelloMsg : Type 0 where
  pub version : ℕ
  pub random : List ℕ
  pub suite : Suite
  pub session_id : List ℕ
  pub extensions : List Extension

pub record ServerHelloMsg : Type 0 where
  pub version : ℕ
  pub random : List ℕ
  pub suite : Suite
  pub session_id : List ℕ
  pub kem_public_key : List ℕ
  pub certificate : List ℕ
  pub signature : List ℕ
  pub cookie : List ℕ
  pub extensions : List Extension

pub record ClientKeyMsg : Type 0 where
  pub kem_ciphertext : List ℕ
  pub psk_binder : List ℕ
  pub client_sig : List ℕ

pub record MessageFrame : Type 0 where
  pub version : ℕ
  pub stream_id : ℕ
  pub sequence_no : ℕ
  pub flags : ℕ
  pub payload : List ℕ
  pub aad : List ℕ

-- `timestamp` is an int64, here as its 64 bits.
pub record KeyUpdateMessage : Type 0 where
  pub timestamp : ℕ
  pub new_key_id : ℕ

pub record CloseMessage : Type 0 where
  pub reason : List ℕ

abbrev pub protocol_version : ℕ
protocol_version = 1

abbrev pub nonce_size : ℕ
nonce_size = 12

abbrev pub default_stream_id : ℕ
default_stream_id = 1

abbrev pub ext_key_share : ℕ
ext_key_share = 0x0033

abbrev pub ext_pq_only : ℕ
ext_pq_only = 0xFF01
