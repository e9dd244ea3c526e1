-- ===== src/Transport/Types.antt =====
-- qzmq.go: the struct `transport`, its statistics, and the heap of sockets.
use qzmq.Common.{ℕ, List, Bool}
use qzmq.Common.Text.{Text}
use qzmq.Options.{Backend, Options}
use qzmq.Socket.{Value, ZmqSocket}

pub record Stats : Type 0 where
  pub handshakes_completed : ℕ
  pub handshakes_failed : ℕ
  pub messages_encrypted : ℕ
  pub messages_decrypted : ℕ
  pub bytes_sent : ℕ
  pub bytes_received : ℕ
  pub key_rotations : ℕ
  pub auth_failures : ℕ
  pub replay_attempts : ℕ

abbrev pub zero_stats : Stats
zero_stats = record {
  handshakes_completed = 0;
  handshakes_failed = 0;
  messages_encrypted = 0;
  messages_decrypted = 0;
  bytes_sent = 0;
  bytes_received = 0;
  key_rotations = 0;
  auth_failures = 0;
  replay_attempts = 0;
}

-- The keys of the map `sockets` are the sockets' addresses, each once; a nil map is the empty list.
-- `options` is an association list, the latest entry first.
pub record Transport : Type 0 where
  pub opts : Options
  pub backend : Backend
  pub sockets : List ℕ
  pub stats : Stats
  pub options : List (Text × Value)
  pub closed : Bool

-- The transport and the sockets; an address is a position in the heap.
pub record World (S : Type 0) : Type 0 where
  pub transport : Transport
  pub heap : List (ZmqSocket S)
