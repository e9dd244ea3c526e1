-- ===== src/Connection/State.antt =====
-- connection.go: the struct `connection`, and `newConnection`.
use qzmq.Common.{ℕ, List, [], Bool, Option, none, some, Outcome, ok, err, panic, Action}
use qzmq.Options.{Options}
use qzmq.Wire.{default_stream_id}
use qzmq.Crypto.{
  PublicKey, PrivateKey, Kem, nil_public, nil_private, nil_kem, KeySet, Signer, SigningKey,
  VerifyingKey, get_signer,
}
use qzmq.Crypto.Host.{Aead}

pub data ConnectionState : Type 0 where
  state_init state_client_hello state_server_hello state_client_key : ConnectionState
  state_established state_closed : ConnectionState

abbrev pub is_init : ConnectionState → Bool
is_init state_init = Bool.true
is_init _ = Bool.false

abbrev pub is_client_hello : ConnectionState → Bool
is_client_hello state_client_hello = Bool.true
is_client_hello _ = Bool.false

abbrev pub is_server_hello : ConnectionState → Bool
is_server_hello state_server_hello = Bool.true
is_server_hello _ = Bool.false

abbrev pub is_client_key : ConnectionState → Bool
is_client_key state_client_key = Bool.true
is_client_key _ = Bool.false

-- Times are nanoseconds on the monotonic clock. A nil slice is the empty list; a nil pointer or
-- interface is `none`, or the `nil` constructor of its type. `draws` is no field of the struct: it
-- counts the reads of crypto/rand so far.
pub record Connection : Type 0 where
  pub opts : Options
  pub is_server : Bool
  pub state : ConnectionState
  pub client_random : List ℕ
  pub server_random : List ℕ
  pub transcript : List ℕ
  pub session_id : List ℕ
  pub kem : Kem
  pub local_kem_sk : PrivateKey
  pub local_kem_pk : PublicKey
  pub remote_kem_pk : PublicKey
  pub client_aead : Option Aead
  pub server_aead : Option Aead
  pub keys : Option KeySet
  pub shared_secret : List ℕ
  pub psk : List ℕ
  pub early_data_key : List ℕ
  pub last_key_update : ℕ
  pub message_count : ℕ
  pub byte_count : ℕ
  pub cookie : List ℕ
  pub cookie_time : ℕ
  pub stream_id : ℕ
  pub signer : Option Signer
  pub local_sign_key : Option SigningKey
  pub remote_pub_key : Option VerifyingKey
  pub draws : ℕ

-- The value of a call whose error is dropped.
abbrev pub value_of {ℓ} : {A : Type ℓ} → Outcome A → Option A
value_of (ok a) = some a
value_of (err e) = none
value_of panic = none

unfoldable pub new_connection : Options → Bool → ℕ → Connection
new_connection opts is_server now = record {
  opts = opts;
  is_server = is_server;
  state = state_init;
  client_random = [];
  server_random = [];
  transcript = [];
  session_id = [];
  kem = nil_kem;
  local_kem_sk = nil_private;
  local_kem_pk = nil_public;
  remote_kem_pk = nil_public;
  client_aead = none;
  server_aead = none;
  keys = none;
  shared_secret = [];
  psk = [];
  early_data_key = [];
  last_key_update = now;
  message_count = 0;
  byte_count = 0;
  cookie = [];
  cookie_time = 0;
  stream_id = default_stream_id;
  signer = value_of (get_signer opts.suite.sign);
  local_sign_key = none;
  remote_pub_key = none;
  draws = 0;
}

-- A call that draws randomness.
abbrev pub drawing : {A : Type 0} → Action ℕ A → Action Connection A
drawing m c = let (r, n) = m c.draws in (r, record c { draws = n })

-- `x, err = f()` for a field `x`: the field is assigned also where an error came back, and then it
-- gets `f`'s zero value. A panic assigns nothing.
abbrev pub assign :
    {A : Type 0} → A → (A → Connection → Connection) → Outcome A → Action Connection A
assign zero_value write (ok a) c = (ok a, write a c)
assign zero_value write (err e) c = (err e, write zero_value c)
assign zero_value write panic c = (panic, c)

-- The outcome of a call as a value, with no early return.
abbrev pub attempt : {A : Type 0} → Action Connection A → Action Connection (Outcome A)
attempt m c = let (r, c') = m c in (ok r, c')
