-- ===== src/Wire/RoundTrip.antt =====
-- `unmarshal` of a frame against `marshal`, and on any input.
use qzmq.Common.{
  ℕ, ◌+◌, ◌%◌, ◌^◌, ◌<◌, ◌≡◌, ◌≢◌, refl, ◌∙◌, ap, List, [], ◌∷◌, ◌++◌, length, take, drop, ok,
  panic, arith, length-append, append_assoc,
}
use qzmq.Common.Bytes.{
  be16, be32, be64, be_value, read_uint, read_byte, copy_out, read_uint_ok, read_byte_ok,
  copy_out_ok, read_uint-append, copy_out-append, be_value-be16, be_value-be32, be_value-be64,
  length-be16,
}
use qzmq.Wire.Types.{MessageFrame}
use qzmq.Wire.Encode.{marshal_frame}
use qzmq.Wire.Decode.{unmarshal_frame}
use qzmq.Wire.Layout.{frame_layout, marshal_frame-layout}

-- Every field fits the width that the wire gives it.
pub record IsValid (f : MessageFrame) : Type 0 where
  pub version_fits : f.version < 2 ^ 8
  pub stream_fits : f.stream_id < 2 ^ 32
  pub sequence_fits : f.sequence_no < 2 ^ 64
  pub flags_fits : f.flags < 2 ^ 8
  pub payload_fits : length f.payload < 2 ^ 32
  pub aad_fits : length f.aad < 2 ^ 16

-- `unmarshal` indexes no byte outside of its input: on every input it returns or reports an error.
pub unmarshal_frame-ne-panic : (bs : List ℕ) (f : MessageFrame) → (unmarshal_frame bs f).0 ≢ panic
unfolding unmarshal_frame
unmarshal_frame-ne-panic bs f = ground (
  arith,
  read_byte_ok bs 0,
  read_uint_ok 4 bs 1,
  read_uint_ok 8 bs 5,
  read_byte_ok bs 13,
  read_uint_ok 4 bs 14,
  copy_out_ok (be_value 0 (take 4 (drop 14 bs))) bs 18,
  read_uint_ok 2 bs (18 + be_value 0 (take 4 (drop 14 bs))),
  copy_out_ok (be_value 0 (take 2 (drop (18 + be_value 0 (take 4 (drop 14 bs))) bs))) bs
      (18 + be_value 0 (take 4 (drop 14 bs)) + 2),
)

-- The first eighteen bytes, and the frame cut where each field begins.
abbrev header : MessageFrame → List ℕ
header f =
    f.version
    ∷ (be32 f.stream_id ++ (be64 f.sequence_no ++ (f.flags ∷ be32 (length f.payload % 2 ^ 32))))

module _ (f : MessageFrame) (valid : IsValid f) (rest : List ℕ) where
  -- The frame's bytes, with more of the stream behind them.
  abbrev stream : List ℕ
  stream = frame_layout f ++ rest

  read_stream_id : read_uint 4 stream 1 ≡ ok f.stream_id
  unfolding be32
  read_stream_id =
      read_uint-append (f.version ∷ []) (be32 f.stream_id) _
      ∙ ap ok (be_value-be32 f.stream_id ∙ omega arith)

  read_sequence_no : read_uint 8 stream 5 ≡ ok f.sequence_no
  unfolding be32 be64
  read_sequence_no =
      read_uint-append (f.version ∷ be32 f.stream_id) (be64 f.sequence_no) _
      ∙ ap ok (be_value-be64 f.sequence_no ∙ omega arith)

  read_flags : read_byte stream 13 ≡ ok f.flags
  unfolding be32 be64
  read_flags = read_byte_ok stream 13 (omega arith)

  read_payload_len : read_uint 4 stream 14 ≡ ok (length f.payload)
  unfolding be32 be64
  read_payload_len =
      read_uint-append (f.version ∷ (be32 f.stream_id ++ (be64 f.sequence_no ++ f.flags ∷ [])))
        (be32 (length f.payload % 2 ^ 32)) _
      ∙ ap ok (be_value-be32 (length f.payload % 2 ^ 32) ∙ omega arith)

  tail_split : stream ≡ header f ++ (f.payload ++ (be16 (length f.aad % 2 ^ 16) ++ (f.aad ++ rest)))
  tail_split = simp append_assoc

  length-header : length (header f) ≡ 18
  unfolding be32 be64
  length-header = refl

  read_payload : copy_out (length f.payload) stream 18 ≡ ok f.payload
  read_payload =
      rw (tail_split, ← length-header)
        (copy_out-append (header f) f.payload (be16 (length f.aad % 2 ^ 16) ++ (f.aad ++ rest)))

  length-front : length (header f ++ f.payload) ≡ 18 + length f.payload
  length-front = length-append (header f) f.payload ∙ ap (λ n. n + length f.payload) length-header

  read_aad_len : read_uint 2 stream (18 + length f.payload) ≡ ok (length f.aad)
  read_aad_len =
      rw (tail_split, ← append_assoc (header f) f.payload, ← length-front)
        (rw (← length-be16 (length f.aad % 2 ^ 16))
          (read_uint-append (header f ++ f.payload) (be16 (length f.aad % 2 ^ 16)) (f.aad ++ rest)))
      ∙ ap ok (be_value-be16 (length f.aad % 2 ^ 16) ∙ omega arith)

  front : List ℕ
  front = (header f ++ f.payload) ++ be16 (length f.aad % 2 ^ 16)

  read_aad : copy_out (length f.aad) stream (18 + length f.payload + 2) ≡ ok f.aad
  unfolding front
  read_aad =
      let whole : length front ≡ 18 + length f.payload + 2 = omega (
        arith,
        length-append (header f ++ f.payload) (be16 (length f.aad % 2 ^ 16)),
        length-front,
        length-be16 (length f.aad % 2 ^ 16),
      ) in
      rw (← whole) (
        rw (tail_split, ← append_assoc (header f) f.payload, ← append_assoc (header f ++ f.payload))
          (copy_out-append front f.aad rest))

  length-stream : length stream ≡ 20 + length f.payload + length f.aad + length rest
  length-stream =
      let behind : List ℕ = be16 (length f.aad % 2 ^ 16) ++ (f.aad ++ rest) in
      omega (
        arith,
        ap length tail_split,
        length-append (header f) (f.payload ++ behind),
        length-append f.payload behind,
        length-append (be16 (length f.aad % 2 ^ 16)) (f.aad ++ rest),
        length-append f.aad rest,
        length-be16 (length f.aad % 2 ^ 16),
        length-header,
      )

  read_version : read_byte stream 0 ≡ ok f.version
  read_version = read_byte_ok stream 0 (omega (arith, length-stream))

  unmarshal_stream : (g : MessageFrame) → unmarshal_frame stream g ≡ (ok tt, f)
  unfolding unmarshal_frame
  unmarshal_stream g = ground (
    arith, length-stream, read_version, read_stream_id, read_sequence_no, read_flags,
    read_payload_len, read_payload, read_aad_len, read_aad,
  )

-- A stream that begins with a marshalled frame of valid fields is read back as that frame, whatever
-- the receiver held and whatever follows.
pub unmarshal_frame-marshal_frame :
    (f g : MessageFrame) (rest : List ℕ) {bs : List ℕ}
    → IsValid f
    → marshal_frame f ≡ ok bs
    → unmarshal_frame (bs ++ rest) g ≡ (ok tt, f)
unmarshal_frame-marshal_frame f g rest {bs} valid m =
    let bytes : bs ≡ frame_layout f = cc (m, marshal_frame-layout f) in
    rw bytes (unmarshal_stream f valid rest g)
