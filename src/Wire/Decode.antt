-- ===== src/Wire/Decode.antt =====
-- connection.go: the `unmarshal` methods. A field that was read stays written when a later check
-- fails.
use qzmq.Common.{
  ℕ, ◌+◌, ltb, List, length, Action, ◌>>◌, ◌>>=◌, fail_if, modify, lift, server_hello_too_short,
  frame_too_short, invalid_frame_length, invalid_aad_length,
}
use qzmq.Common.Bytes.{read_uint, read_byte, copy_out}
use qzmq.Wire.Types.{ServerHelloMsg, MessageFrame}

-- The suite is stepped over, and nothing behind it is read.
unfoldable pub unmarshal_server_hello : List ℕ → Action ServerHelloMsg (Unit {0})
unmarshal_server_hello bs = do
  fail_if (ltb (length bs) 34) server_hello_too_short
  version ← lift (read_byte bs 0)
  modify (λ m. record m { version = version })
  random ← lift (copy_out 32 bs 1)
  modify (λ m. record m { random = random })

unfoldable pub unmarshal_frame : List ℕ → Action MessageFrame (Unit {0})
unmarshal_frame bs = do
  fail_if (ltb (length bs) 18) frame_too_short
  version ← lift (read_byte bs 0)
  modify (λ f. record f { version = version })
  stream_id ← lift (read_uint 4 bs 1)
  modify (λ f. record f { stream_id = stream_id })
  sequence_no ← lift (read_uint 8 bs 5)
  modify (λ f. record f { sequence_no = sequence_no })
  flags ← lift (read_byte bs 13)
  modify (λ f. record f { flags = flags })
  payload_len ← lift (read_uint 4 bs 14)
  fail_if (ltb (length bs) (18 + payload_len + 2)) invalid_frame_length
  payload ← lift (copy_out payload_len bs 18)
  modify (λ f. record f { payload = payload })
  aad_len ← lift (read_uint 2 bs (18 + payload_len))
  fail_if (ltb (length bs) (18 + payload_len + 2 + aad_len)) invalid_aad_length
  aad ← lift (copy_out aad_len bs (18 + payload_len + 2))
  modify (λ f. record f { aad = aad })
