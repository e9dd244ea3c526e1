-- ===== src/Wire/Accepted.antt =====
-- What `unmarshal` of a frame has read where it succeeds.
use qzmq.Common.{
  ℕ, zero, suc, ◌+◌, ◌%◌, ◌^◌, ◌<◌, ◌≤◌, ◌≡◌, refl, sym, ap, ◌∙◌, List, [], ◌∷◌, ◌++◌, length, take,
  drop, get_or, ok, arith, All, append_assoc, length-take, length-drop,
}
use native.Mathlib.Nat.{zero-add, suc-add}
use qzmq.Common.Bytes.{IsByte, be16, be32, be64, be_value, read_uint_ok, read_byte_ok, copy_out_ok}
use qzmq.Wire.Types.{MessageFrame}
use qzmq.Wire.Decode.{unmarshal_frame}
use qzmq.Wire.Encode.{marshal_frame}
use qzmq.Wire.Layout.{frame_layout, marshal_frame-layout}
use qzmq.Wire.RoundTrip.{IsValid}

-- The bytes that spell a number are that number's bytes.
be16-be_value :
    (xs : List ℕ)
    → length xs ≡ 2
    → All IsByte xs
    → (be16 (be_value 0 xs) ≡ xs) × (be_value 0 xs < 2 ^ 16)
unfolding be16
be16-be_value (a ∷ b ∷ []) n h = ground arith
be16-be_value [] n h = absurd (omega arith)
be16-be_value (a ∷ []) n h = absurd (omega arith)
be16-be_value (a ∷ b ∷ c ∷ xs) n h = absurd (omega arith)

be32-be_value :
    (xs : List ℕ)
    → length xs ≡ 4
    → All IsByte xs
    → (be32 (be_value 0 xs) ≡ xs) × (be_value 0 xs < 2 ^ 32)
unfolding be32
be32-be_value (a ∷ b ∷ c ∷ d ∷ []) n h = ground arith
be32-be_value [] n h = absurd (omega arith)
be32-be_value (a ∷ []) n h = absurd (omega arith)
be32-be_value (a ∷ b ∷ []) n h = absurd (omega arith)
be32-be_value (a ∷ b ∷ c ∷ []) n h = absurd (omega arith)
be32-be_value (a ∷ b ∷ c ∷ d ∷ e ∷ xs) n h = absurd (omega arith)

be64-be_value :
    (xs : List ℕ)
    → length xs ≡ 8
    → All IsByte xs
    → (be64 (be_value 0 xs) ≡ xs) × (be_value 0 xs < 2 ^ 64)
unfolding be64
be64-be_value (a ∷ b ∷ c ∷ d ∷ e ∷ f ∷ g ∷ i ∷ []) n h = ground arith
be64-be_value [] n h = absurd (omega arith)
be64-be_value (a ∷ []) n h = absurd (omega arith)
be64-be_value (a ∷ b ∷ []) n h = absurd (omega arith)
be64-be_value (a ∷ b ∷ c ∷ []) n h = absurd (omega arith)
be64-be_value (a ∷ b ∷ c ∷ d ∷ []) n h = absurd (omega arith)
be64-be_value (a ∷ b ∷ c ∷ d ∷ e ∷ []) n h = absurd (omega arith)
be64-be_value (a ∷ b ∷ c ∷ d ∷ e ∷ f ∷ []) n h = absurd (omega arith)
be64-be_value (a ∷ b ∷ c ∷ d ∷ e ∷ f ∷ g ∷ []) n h = absurd (omega arith)
be64-be_value (a ∷ b ∷ c ∷ d ∷ e ∷ f ∷ g ∷ i ∷ j ∷ xs) n h = absurd (omega arith)

module _ {ℓ} {A : Type ℓ} where
  take-drop : (n : ℕ) (xs : List A) → take n xs ++ drop n xs ≡ xs
  take-drop zero xs = refl
  take-drop (suc n) [] = refl
  take-drop (suc n) (x ∷ xs) = ap (λ l. x ∷ l) (take-drop n xs)

  drop-nil : (n : ℕ) → drop {A = A} n [] ≡ []
  drop-nil zero = refl
  drop-nil (suc n) = refl

  drop-drop : (m n : ℕ) (xs : List A) → drop n (drop m xs) ≡ drop (m + n) xs
  drop-drop zero n xs = rw zero-add refl
  drop-drop (suc m) n [] = rw suc-add (drop-nil n)
  drop-drop (suc m) n (x ∷ xs) = rw suc-add (drop-drop m n xs)

  -- A slice cut into a part of `n` elements and what lies behind it.
  cut : (n i : ℕ) (xs : List A) → drop i xs ≡ take n (drop i xs) ++ drop (i + n) xs
  cut n i xs = sym (take-drop n (drop i xs)) ∙ rw (drop-drop i n xs) refl

All-take : (P : ℕ → Type 0) (n : ℕ) (xs : List ℕ) → All P xs → All P (take n xs)
All-take P zero xs h = tt
All-take P (suc n) [] h = tt
All-take P (suc n) (x ∷ xs) h = (h.0, All-take P n xs h.1)

All-drop : (P : ℕ → Type 0) (n : ℕ) (xs : List ℕ) → All P xs → All P (drop n xs)
All-drop P zero xs h = h
All-drop P (suc n) [] h = tt
All-drop P (suc n) (x ∷ xs) h = All-drop P n xs h.1

get_or-IsByte : (i : ℕ) (xs : List ℕ) → i < length xs → All IsByte xs → get_or xs i 0 < 256
get_or-IsByte i [] n h = absurd (omega arith)
get_or-IsByte zero (x ∷ xs) n h = h.0
get_or-IsByte (suc i) (x ∷ xs) n h = get_or-IsByte i xs (omega arith) h.1

drop_cons : (i : ℕ) (xs : List ℕ) → i < length xs → drop i xs ≡ get_or xs i 0 ∷ drop (i + 1) xs
drop_cons i [] n = absurd (omega arith)
drop_cons zero (x ∷ xs) n = refl
drop_cons (suc i) (x ∷ xs) n = rw suc-add (drop_cons i xs (omega arith))

module _ (bs : List ℕ) (bytes : All IsByte bs) where
  -- The number of `n` bytes at `i`, and the bytes there.
  abbrev number : ℕ → ℕ → ℕ
  number n i = be_value 0 (take n (drop i bs))

  length_at : (n i : ℕ) → i + n ≤ length bs → length (take n (drop i bs)) ≡ n
  length_at n i h = omega (arith, length-take n (drop i bs), length-drop i bs)

  bytes_at : (n i : ℕ) → All IsByte (take n (drop i bs))
  bytes_at n i = All-take IsByte n (drop i bs) (All-drop IsByte i bs bytes)

  cut16 :
      (i : ℕ)
      → i + 2 ≤ length bs
      → (drop i bs ≡ be16 (number 2 i) ++ drop (i + 2) bs) × (number 2 i < 2 ^ 16)
  cut16 i h =
      let (same, small) = be16-be_value (take 2 (drop i bs)) (length_at 2 i h) (bytes_at 2 i) in
      (cut 2 i bs ∙ ap (λ xs. xs ++ drop (i + 2) bs) (sym same), small)

  cut32 :
      (i : ℕ)
      → i + 4 ≤ length bs
      → (drop i bs ≡ be32 (number 4 i) ++ drop (i + 4) bs) × (number 4 i < 2 ^ 32)
  cut32 i h =
      let (same, small) = be32-be_value (take 4 (drop i bs)) (length_at 4 i h) (bytes_at 4 i) in
      (cut 4 i bs ∙ ap (λ xs. xs ++ drop (i + 4) bs) (sym same), small)

  cut64 :
      (i : ℕ)
      → i + 8 ≤ length bs
      → (drop i bs ≡ be64 (number 8 i) ++ drop (i + 8) bs) × (number 8 i < 2 ^ 64)
  cut64 i h =
      let (same, small) = be64-be_value (take 8 (drop i bs)) (length_at 8 i h) (bytes_at 8 i) in
      (cut 8 i bs ∙ ap (λ xs. xs ++ drop (i + 8) bs) (sym same), small)

  -- The frame that the bytes hold, by position.
  abbrev payload_size : ℕ
  payload_size = number 4 14

  abbrev aad_size : ℕ
  aad_size = number 2 (18 + payload_size)

  abbrev held : MessageFrame
  held = record {
    version = get_or bs 0 0;
    stream_id = number 4 1;
    sequence_no = number 8 5;
    flags = get_or bs 13 0;
    payload = take payload_size (drop 18 bs);
    aad = take aad_size (drop (18 + payload_size + 2) bs);
  }

  accepted_lem :
      (f g : MessageFrame)
      → unmarshal_frame bs g ≡ (ok tt, f)
      → (f ≡ held) × (18 + payload_size + 2 + aad_size ≤ length bs)
  unfolding unmarshal_frame
  accepted_lem f g h = ground (
    arith,
    read_byte_ok bs 0,
    read_uint_ok 4 bs 1,
    read_uint_ok 8 bs 5,
    read_byte_ok bs 13,
    read_uint_ok 4 bs 14,
    copy_out_ok payload_size bs 18,
    read_uint_ok 2 bs (18 + payload_size),
    copy_out_ok aad_size bs (18 + payload_size + 2),
  )

  module _ (fits : 18 + payload_size + 2 + aad_size ≤ length bs) where
    length-payload : length held.payload % 2 ^ 32 ≡ payload_size
    length-payload =
        let (same, small) = cut32 14 (omega arith) in
        omega (arith, length_at payload_size 18 (omega arith), small)

    length-aad : length held.aad % 2 ^ 16 ≡ aad_size
    length-aad =
        let (same, small) = cut16 (18 + payload_size) (omega arith) in
        omega (arith, length_at aad_size (18 + payload_size + 2) (omega arith), small)

    -- The bytes, field by field.
    fields :
        bs
        ≡ held.version
          ∷ (be32 held.stream_id
              ++ (be64 held.sequence_no
                  ++ (held.flags
                      ∷ (be32 payload_size
                          ++ (held.payload
                              ++ (be16 aad_size
                                  ++ (held.aad ++ drop (18 + payload_size + 2 + aad_size) bs)))))))
    fields =
        let aad = cut aad_size (18 + payload_size + 2) bs in
        let aad_len =
          (cut16 (18 + payload_size) (omega arith)).0 ∙ ap (λ l. be16 aad_size ++ l) aad in
        let payload = cut payload_size 18 bs ∙ ap (λ l. held.payload ++ l) aad_len in
        let payload_len = (cut32 14 (omega arith)).0 ∙ ap (λ l. be32 payload_size ++ l) payload in
        let flags = drop_cons 13 bs (omega arith) ∙ ap (λ l. held.flags ∷ l) payload_len in
        let sequence = (cut64 5 (omega arith)).0 ∙ ap (λ l. be64 held.sequence_no ++ l) flags in
        let stream = (cut32 1 (omega arith)).0 ∙ ap (λ l. be32 held.stream_id ++ l) sequence in
        drop_cons 0 bs (omega arith) ∙ ap (λ l. held.version ∷ l) stream

    held_layout : bs ≡ frame_layout held ++ drop (18 + payload_size + 2 + aad_size) bs
    held_layout = fields ∙ sym (rw (length-payload, length-aad) (simp append_assoc))

    held-IsValid : IsValid held
    held-IsValid = record {
      version_fits = omega (arith, get_or-IsByte 0 bs (omega arith) bytes);
      stream_fits = (cut32 1 (omega arith)).1;
      sequence_fits = (cut64 5 (omega arith)).1;
      flags_fits = omega (arith, get_or-IsByte 13 bs (omega arith) bytes);
      payload_fits =
          omega (arith, length_at payload_size 18 (omega arith), (cut32 14 (omega arith)).1);
      aad_fits = omega (
        arith,
        length_at aad_size (18 + payload_size + 2) (omega arith),
        (cut16 (18 + payload_size) (omega arith)).1,
      );
    }

  -- Where `unmarshal` of bytes succeeds, each field of the frame fits its width on the wire, and the
  -- bytes begin with what `marshal` makes of the frame: nothing else is accepted.
  pub unmarshal_frame_sound :
      (f g : MessageFrame)
      → unmarshal_frame bs g ≡ (ok tt, f)
      → IsValid f
        × (rest : List ℕ) × (content : List ℕ) × (marshal_frame f ≡ ok content)
        × (bs ≡ content ++ rest)
  unmarshal_frame_sound f g h =
      let (same, fits) = accepted_lem f g h in
      let rest = drop (18 + payload_size + 2 + aad_size) bs in
      (
        rw same (held-IsValid fits),
        rest,
        frame_layout f,
        marshal_frame-layout f,
        rw same (held_layout fits),
      )
