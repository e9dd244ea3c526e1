-- ===== src/Wire/Tests.antt =====
-- Runs of the marshallers, and the theorems at concrete messages.
use qzmq.Common.{[], ◌∷◌, ◌++◌, ◌≡◌, ◌≢◌, refl, replicate, ok, panic, arith, All, List, ℕ}
use qzmq.Options.{zero_suite}
use qzmq.Wire.Types.{MessageFrame, ClientHelloMsg, ClientKeyMsg, ext_pq_only}
use qzmq.Wire.Encode.{marshal_frame, marshal_client_hello, marshal_client_key}
use qzmq.Wire.Decode.{unmarshal_frame}
use qzmq.Common.Bytes.{IsByte, be16, be32, be64}
use qzmq.Wire.Accepted.{unmarshal_frame_sound}
use qzmq.Wire.Layout.{
  frame_layout, client_hello_layout, client_key_layout, marshal_frame-layout,
  marshal_client_hello-layout, marshal_client_key-layout,
}
use qzmq.Wire.RoundTrip.{IsValid, unmarshal_frame-ne-panic, unmarshal_frame-marshal_frame}

abbrev empty_frame : MessageFrame
empty_frame = record {
  version = 0;
  stream_id = 0;
  sequence_no = 0;
  flags = 0;
  payload = [];
  aad = [];
}

abbrev sample_frame : MessageFrame
sample_frame = record {
  version = 1;
  stream_id = 7;
  sequence_no = 258;
  flags = 2;
  payload = 72 ∷ 105 ∷ [];
  aad = 9 ∷ [];
}

marshal_frame-layout_example : marshal_frame sample_frame ≡ ok (frame_layout sample_frame)
marshal_frame-layout_example = marshal_frame-layout sample_frame

sample_frame-IsValid : IsValid sample_frame
sample_frame-IsValid = record {
  version_fits = omega arith;
  stream_fits = omega arith;
  sequence_fits = omega arith;
  flags_fits = omega arith;
  payload_fits = omega arith;
  aad_fits = omega arith;
}

unmarshal_frame-marshal_frame_example :
    unmarshal_frame (frame_layout sample_frame ++ (1 ∷ 2 ∷ [])) empty_frame ≡ (ok tt, sample_frame)
unmarshal_frame-marshal_frame_example =
    unmarshal_frame-marshal_frame sample_frame empty_frame (1 ∷ 2 ∷ []) sample_frame-IsValid
      (marshal_frame-layout sample_frame)

unmarshal_frame-ne-panic_example : (unmarshal_frame (replicate 21 255) empty_frame).0 ≢ panic
unmarshal_frame-ne-panic_example = unmarshal_frame-ne-panic (replicate 21 255) empty_frame

abbrev sample_hello : ClientHelloMsg
sample_hello = record {
  version = 1;
  random = replicate 32 17;
  suite = zero_suite;
  session_id = 4 ∷ 5 ∷ [];
  extensions = record { typ = ext_pq_only; content = 1 ∷ [] } ∷ [];
}

marshal_client_hello-layout_example :
    marshal_client_hello sample_hello ≡ ok (client_hello_layout sample_hello)
marshal_client_hello-layout_example = marshal_client_hello-layout sample_hello refl

abbrev sample_key : ClientKeyMsg
sample_key = record { kem_ciphertext = 1 ∷ 2 ∷ 3 ∷ []; psk_binder = []; client_sig = 8 ∷ 9 ∷ [] }

marshal_client_key-layout_example :
    marshal_client_key sample_key ≡ ok (client_key_layout sample_key)
marshal_client_key-layout_example = marshal_client_key-layout sample_key

abbrev sample_stream : List ℕ
sample_stream = frame_layout sample_frame ++ (1 ∷ 2 ∷ [])

sample_stream-bytes : All IsByte sample_stream
unfolding be16 be32 be64
sample_stream-bytes = ground arith

sample_stream_read : unmarshal_frame sample_stream empty_frame ≡ (ok tt, sample_frame)
sample_stream_read =
    unmarshal_frame-marshal_frame sample_frame empty_frame (1 ∷ 2 ∷ []) sample_frame-IsValid
      (marshal_frame-layout sample_frame)

unmarshal_frame_sound_example :
    IsValid sample_frame
    × (rest : List ℕ) × (content : List ℕ) × (marshal_frame sample_frame ≡ ok content)
    × (sample_stream ≡ content ++ rest)
unmarshal_frame_sound_example =
    unmarshal_frame_sound sample_stream sample_stream-bytes sample_frame empty_frame
      sample_stream_read
