-- ===== src/Connection/Renewal.antt =====
-- Key rotation.
use qzmq.Common.{◌≡◌, some, ◌+◌, ◌-◌, ◌≤◌, ◌<◌, ◌⊎◌, ◌↔◌, ℕ, true, false, ok, arith}
use qzmq.Common.Int.{pos}
use qzmq.Options.{Options, validate_options, fill_rotation}
use qzmq.Crypto.{KeySet, random_bytes}
use qzmq.Crypto.Host.{Host}
use qzmq.Connection.State.{Connection}
use qzmq.Connection.Rotation.{needs_key_update, update_keys}

-- One of the default limits is reached or passed: 2^32 messages, 2^40 bytes, or an age of more than
-- ten minutes.
abbrev pub IsWorn : ℕ → Connection → Type 0
IsWorn now c =
    (4294967296 ≤ c.message_count)
    ⊎ ((1099511627776 ≤ c.byte_count) ⊎ (600000000000 < now - c.last_key_update))

-- Options that set no rotation limit rotate at the default ones: where such options have passed the
-- validation of a transport, a connection that carries what the validation has made of them needs
-- new keys exactly after 2^32 messages, after 2^40 bytes, or at an age of more than ten minutes.
pub needs_key_update-validate_options :
    (o p : Options) (now : ℕ) (c : Connection)
    → o.key_rotation ≡ record { max_messages = 0; max_bytes = 0; max_age = pos 0 }
    → validate_options (some o) ≡ (ok tt, some p)
    → c.opts ≡ p
    → (needs_key_update now c ≡ true) ↔ IsWorn now c
unfolding validate_options fill_rotation needs_key_update
needs_key_update-validate_options o p now c unset passed carried =
    (λ h. ground arith, λ h. ground arith)

-- A rotation that succeeds is followed by a rest: until the age limit has passed again no further
-- rotation is due, since the counters are zero and the clock was read.
pub update_keys_rests :
    (host : Host) (c : Connection) (now later age : ℕ) {keys : KeySet} {c' : Connection}
    → update_keys host now c ≡ (ok keys, c')
    → c.opts.key_rotation.max_age ≡ pos age
    → later ≤ now + age
    → needs_key_update later c' ≡ false
unfolding update_keys needs_key_update random_bytes
update_keys_rests host c now later age h a l = ground arith
