-- ===== src/Wire/Layout.antt =====
-- What the marshallers write, as plain concatenations.
use qzmq.Common.{
  ℕ, ◌+◌, ◌%◌, ◌^◌, ◌≡◌, refl, List, [], ◌∷◌, ◌++◌, length, ok, Action, ◌>>◌, arith, replicate, ◌∙◌,
  append_assoc, append-nil, ap,
}
use qzmq.Common.Bytes.{be16, be32, be64, length-be16, length-be32, length-be64}
use qzmq.Common.Cursor.{
  Cursor, start, store, copy_in, advance, whole_buffer, up_to_offset, after, store_then, store_fits,
  copy_in_then, advance_then, copy_in_fits, up_to_offset-after,
}
use qzmq.Wire.Types.{Extension, ClientHelloMsg, ClientKeyMsg, MessageFrame, KeyUpdateMessage}
use native.Mathlib.Nat.{zero-add}
use qzmq.Wire.Encode.{
  marshal_frame, write_frame, extensions_size, write_extensions, write_client_hello,
  marshal_client_hello, optional_size, write_client_key, marshal_client_key, marshal_key_update,
}

-- The bytes of a frame: header, payload and additional data, each of the two behind its length.
abbrev pub frame_layout : MessageFrame → List ℕ
frame_layout f =
    f.version
    ∷ (be32 f.stream_id
        ++ (be64 f.sequence_no
            ++ (f.flags
                ∷ (be32 (length f.payload % 2 ^ 32)
                    ++ (f.payload ++ (be16 (length f.aad % 2 ^ 16) ++ f.aad))))))

write_frame-layout :
    (f : MessageFrame)
    → whole_buffer (
        write_frame f
          (after [] (1 + (4 + (8 + (1 + (4 + (length f.payload + (2 + (length f.aad + 0))))))))))
      ≡ ok (frame_layout f)
unfolding write_frame
write_frame-layout f =
    rw
      (
        store_then _ (f.version ∷ []) _ _ refl,
        store_then _ (be32 f.stream_id) _ _ (length-be32 _),
        store_then _ (be64 f.sequence_no) _ _ (length-be64 _),
        store_then _ (f.flags ∷ []) _ _ refl,
        store_then _ (be32 (length f.payload % 2 ^ 32)) _ _ (length-be32 _),
        copy_in_then _ f.payload _ _ refl,
        store_then _ (be16 (length f.aad % 2 ^ 16)) _ _ (length-be16 _),
        copy_in_fits _ f.aad,
      )
      (simp (append_assoc, append-nil))

-- `marshal` of a frame never panics, and the buffer that it allocates is filled exactly: it returns
-- the frame's layout. The lengths stand in it modulo 2^32 and 2^16.
pub marshal_frame-layout : (f : MessageFrame) → marshal_frame f ≡ ok (frame_layout f)
unfolding marshal_frame
marshal_frame-layout f =
    let size : 1 + 4 + 8 + 1 + 4 + length f.payload + 2 + length f.aad
        ≡ 1 + (4 + (8 + (1 + (4 + (length f.payload + (2 + (length f.aad + 0))))))) =
      omega arith in
    ap (λ n. whole_buffer (write_frame f (start n))) size ∙ write_frame-layout f

-- The bytes of one extension: type, length modulo 2^16, content.
abbrev pub extension_layout : Extension → List ℕ
extension_layout e = be16 e.typ ++ (be16 (length e.content % 2 ^ 16) ++ e.content)

abbrev pub extensions_layout : List Extension → List ℕ
extensions_layout [] = []
extensions_layout (e ∷ es) = extension_layout e ++ extensions_layout es

abbrev pub client_hello_layout : ClientHelloMsg → List ℕ
client_hello_layout m =
    m.version
    ∷ (m.random
        ++ (replicate 4 0
            ++ ((length m.session_id % 256)
                ∷ (m.session_id
                    ++ (be16 (length m.extensions % 2 ^ 16) ++ extensions_layout m.extensions)))))

write_extension-layout :
    (e : Extension) (p : List ℕ) (n : ℕ) (k : Action Cursor (Unit {0}))
    → (store (be16 e.typ)
          >> (advance 2
              >> (store (be16 (length e.content % 2 ^ 16))
                  >> (advance 2 >> (copy_in e.content >> (advance (length e.content) >> k))))))
        (after p (2 + (2 + (length e.content + n))))
      ≡ k (after (p ++ extension_layout e) n)
write_extension-layout e p n k =
    rw
      (
        store_then p (be16 e.typ) _ _ (length-be16 _),
        store_then _ (be16 (length e.content % 2 ^ 16)) _ _ (length-be16 _),
        copy_in_then _ e.content n k refl,
      )
      (simp append_assoc)

write_extensions-layout :
    (es : List Extension) (p : List ℕ) (n : ℕ)
    → write_extensions es (after p (extensions_size es + n))
      ≡ (ok tt, after (p ++ extensions_layout es) n)
unfolding write_extensions extensions_size
write_extensions-layout [] p n = rw (zero-add, append-nil)
write_extensions-layout (e ∷ es) p n =
    let size : 4 + length e.content + extensions_size es + n
        ≡ 2 + (2 + (length e.content + (extensions_size es + n))) =
      omega arith in
    ap (λ k. write_extensions (e ∷ es) (after p k)) size
    ∙ write_extension-layout e p (extensions_size es + n) (write_extensions es)
    ∙ write_extensions-layout es (p ++ extension_layout e) n
    ∙ rw (append_assoc p (extension_layout e) (extensions_layout es))

write_client_hello-layout :
    (m : ClientHelloMsg)
    → length m.random ≡ 32
    → write_client_hello m (
        after []
          (1 + (32 + (4 + (1 + (length m.session_id + (2 + (extensions_size m.extensions + 0))))))))
      ≡ (ok tt, after (client_hello_layout m) 0)
unfolding write_client_hello
write_client_hello-layout m h =
    rw
      (
        store_then _ (m.version ∷ []) _ _ refl,
        copy_in_then _ m.random _ _ h,
        advance_then _ 4,
        store_then _ ((length m.session_id % 256) ∷ []) _ _ refl,
        copy_in_then _ m.session_id _ _ refl,
        store_then _ (be16 (length m.extensions % 2 ^ 16)) _ _ (length-be16 _),
        write_extensions-layout m.extensions,
      )
      (simp (append_assoc, append-nil))

-- With 32 random bytes, as `clientHello` draws them, `marshal` of a ClientHello never panics and
-- returns the message's layout, in which the suite is four zero bytes whatever it is.
pub marshal_client_hello-layout :
    (m : ClientHelloMsg)
    → length m.random ≡ 32
    → marshal_client_hello m ≡ ok (client_hello_layout m)
unfolding marshal_client_hello
marshal_client_hello-layout m h =
    let size : 1 + 32 + 4 + 1 + length m.session_id + 2 + extensions_size m.extensions
        ≡ 1 + (32 + (4 + (1 + (length m.session_id + (2 + (extensions_size m.extensions + 0)))))) =
      omega arith in
    ap (λ n. up_to_offset (write_client_hello m (start n))) size
    ∙ ap up_to_offset (write_client_hello-layout m h)
    ∙ up_to_offset-after (client_hello_layout m) 0

abbrev pub client_key_layout : ClientKeyMsg → List ℕ
client_key_layout m =
    be16 (length m.kem_ciphertext % 2 ^ 16)
    ++ (m.kem_ciphertext ++ replicate (optional_size m.psk_binder + optional_size m.client_sig) 0)

-- `marshal` of a ClientKey never panics. It allocates room for the binder and the client's
-- signature and writes neither: behind the ciphertext stand zero bytes only.
pub marshal_client_key-layout : (m : ClientKeyMsg) → marshal_client_key m ≡ ok (client_key_layout m)
unfolding marshal_client_key write_client_key
marshal_client_key-layout m =
    let size : 2 + length m.kem_ciphertext + optional_size m.psk_binder + optional_size m.client_sig
        ≡ 2
          + (length m.kem_ciphertext + (optional_size m.psk_binder + optional_size m.client_sig)) =
      omega arith in
    ap (λ n. whole_buffer (write_client_key m (start n))) size
    ∙ rw
        (
          store_then [] (be16 (length m.kem_ciphertext % 2 ^ 16)) _ _ (length-be16 _),
          copy_in_fits _ m.kem_ciphertext,
        )
        (simp append_assoc)

-- A key update is its two numbers, eight bytes each.
pub marshal_key_update-layout :
    (m : KeyUpdateMessage) → marshal_key_update m ≡ ok (be64 m.timestamp ++ be64 m.new_key_id)
unfolding marshal_key_update be64
marshal_key_update-layout m = ap whole_buffer (
    store_then [] (be64 m.timestamp) 8 (store (be64 m.new_key_id)) refl
    ∙ store_fits (be64 m.timestamp) (be64 m.new_key_id) 0)
