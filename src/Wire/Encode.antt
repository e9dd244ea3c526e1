-- ===== src/Wire/Encode.antt =====
-- connection.go: the `marshal` methods. Each allocates a buffer of the computed size and writes at a
-- moving offset; a write outside of the buffer is a panic.
use qzmq.Common.{
  ℕ, ◌+◌, ◌%◌, ◌^◌, ltb, if◌then◌else◌, List, [], ◌∷◌, length, Outcome, Action, ◌>>◌, pure,
}
use qzmq.Common.Bytes.{be16, be32, be64}
use qzmq.Common.Cursor.{Cursor, start, store, copy_in, advance, whole_buffer, up_to_offset}
use qzmq.Wire.Types.{
  Extension, ClientHelloMsg, ClientKeyMsg, MessageFrame, KeyUpdateMessage, CloseMessage,
}

-- The sum of `4 + len(ext.data)` over the extensions.
unfoldable pub extensions_size : List Extension → ℕ
extensions_size [] = 0
extensions_size (e ∷ es) = 4 + length e.content + extensions_size es

unfoldable pub write_extensions : List Extension → Action Cursor (Unit {0})
write_extensions [] = pure tt
write_extensions (e ∷ es) = do
  store (be16 e.typ)
  advance 2
  store (be16 (length e.content % 2 ^ 16))
  advance 2
  copy_in e.content
  advance (length e.content)
  write_extensions es

-- The suite's four bytes are stepped over and stay zero.
unfoldable pub write_client_hello : ClientHelloMsg → Action Cursor (Unit {0})
write_client_hello m = do
  store (m.version ∷ [])
  advance 1
  copy_in m.random
  advance 32
  advance 4
  store ((length m.session_id % 256) ∷ [])
  advance 1
  copy_in m.session_id
  advance (length m.session_id)
  store (be16 (length m.extensions % 2 ^ 16))
  advance 2
  write_extensions m.extensions

unfoldable pub marshal_client_hello : ClientHelloMsg → Outcome (List ℕ)
marshal_client_hello m = up_to_offset (
    write_client_hello m
      (start (1 + 32 + 4 + 1 + length m.session_id + 2 + extensions_size m.extensions)))

-- `if len(bs) > 0 { size += 2 + len(bs) }`.
abbrev pub optional_size : List ℕ → ℕ
optional_size bs = if ltb 0 (length bs) then 2 + length bs else 0

unfoldable pub write_client_key : ClientKeyMsg → Action Cursor (Unit {0})
write_client_key m = do
  store (be16 (length m.kem_ciphertext % 2 ^ 16))
  advance 2
  copy_in m.kem_ciphertext

unfoldable pub marshal_client_key : ClientKeyMsg → Outcome (List ℕ)
marshal_client_key m = whole_buffer (
    write_client_key m (
      start
        (2 + length m.kem_ciphertext + optional_size m.psk_binder + optional_size m.client_sig)))

unfoldable pub write_frame : MessageFrame → Action Cursor (Unit {0})
write_frame f = do
  store (f.version ∷ [])
  advance 1
  store (be32 f.stream_id)
  advance 4
  store (be64 f.sequence_no)
  advance 8
  store (f.flags ∷ [])
  advance 1
  store (be32 (length f.payload % 2 ^ 32))
  advance 4
  copy_in f.payload
  advance (length f.payload)
  store (be16 (length f.aad % 2 ^ 16))
  advance 2
  copy_in f.aad

unfoldable pub marshal_frame : MessageFrame → Outcome (List ℕ)
marshal_frame f =
    whole_buffer (write_frame f (start (1 + 4 + 8 + 1 + 4 + length f.payload + 2 + length f.aad)))

unfoldable pub marshal_key_update : KeyUpdateMessage → Outcome (List ℕ)
marshal_key_update m =
    whole_buffer ((do store (be64 m.timestamp); advance 8; store (be64 m.new_key_id)) (start 16))

unfoldable pub marshal_close : CloseMessage → List ℕ
marshal_close m = m.reason
