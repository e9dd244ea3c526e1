-- ===== src/Connection/Rotation.antt =====
-- connection.go: `needsKeyUpdate` and `updateKeys`. `now` is what `time.Now` reads.
use qzmq.Common.{ℕ, ◌-◌, Bool, ltb, leb, ◌&&◌, ◌||◌, Action, ◌>>=◌, ◌>>◌, pure, gets, modify}
use qzmq.Common.Int.{is_positive, lt_elapsed}
use qzmq.Crypto.{KeySet, random_bytes, derive_keys}
use qzmq.Crypto.Host.{Host}
use qzmq.Connection.State.{Connection, drawing}

unfoldable pub needs_key_update : ℕ → Connection → Bool
needs_key_update now c =
    let limits = c.opts.key_rotation in
    (ltb 0 limits.max_messages && leb limits.max_messages c.message_count)
    || (ltb 0 limits.max_bytes && leb limits.max_bytes c.byte_count)
    || (is_positive limits.max_age && lt_elapsed limits.max_age (now - c.last_key_update))

module _ (host : Host) where
  -- The counters are reset and the clock is read; `keys` stays, the new keys are returned.
  unfoldable pub update_keys : ℕ → Action Connection KeySet
  update_keys now = do
    secret ← drawing (random_bytes host 32)
    c ← gets (λ c. c)
    modify (λ c. record c { message_count = 0; byte_count = 0; last_key_update = now })
    pure (derive_keys host secret c.shared_secret c.opts.suite.hash)
