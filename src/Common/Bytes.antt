-- ===== src/Common/Bytes.antt =====
-- encoding/binary's big-endian integers, and reads from a byte slice.
use Prim.Native.Nat.{ℕ, zero, ◌+◌, ◌*◌, ◌/◌, ◌%◌, ◌^◌, ◌≤◌, ◌<◌}
use mathlib.Core.Path.{◌≡◌, refl, ◌∙◌}
use mathlib.Core.List.{List, [], ◌∷◌, ◌++◌}
use native.Mathlib.Omega.{arith}
use qzmq.Common.Tests.{leb, if◌then◌else◌}
use qzmq.Common.Lists.{
  length, take, drop, get_or, copy, replicate, length-drop, length-append, copy-replicate,
  drop-append, take-append,
}
use qzmq.Common.Outcomes.{Outcome, ok, panic}

abbrev pub IsByte : ℕ → Type 0
IsByte b = b < 256

-- `binary.BigEndian.PutUint16`, `PutUint32`, `PutUint64`: byte i is `byte(v >> (8 * i))`.
unfoldable pub be16 : ℕ → List ℕ
be16 v = (v / 2 ^ 8 % 256) ∷ (v % 256) ∷ []

unfoldable pub be32 : ℕ → List ℕ
be32 v = (v / 2 ^ 24 % 256) ∷ (v / 2 ^ 16 % 256) ∷ (v / 2 ^ 8 % 256) ∷ (v % 256) ∷ []

unfoldable pub be64 : ℕ → List ℕ
be64 v =
    (v / 2 ^ 56 % 256)
    ∷ (v / 2 ^ 48 % 256)
    ∷ (v / 2 ^ 40 % 256)
    ∷ (v / 2 ^ 32 % 256)
    ∷ (v / 2 ^ 24 % 256)
    ∷ (v / 2 ^ 16 % 256)
    ∷ (v / 2 ^ 8 % 256)
    ∷ (v % 256)
    ∷ []

-- The number that big-endian bytes spell, behind the digits read so far.
abbrev pub be_value : ℕ → List ℕ → ℕ
be_value acc [] = acc
be_value acc (b ∷ bs) = be_value (acc * 256 + b) bs

-- `binary.BigEndian.Uint16(data[offset:])` and its kin for `width` bytes: a panic where `data` is
-- too short.
unfoldable pub read_uint : ℕ → List ℕ → ℕ → Outcome ℕ
read_uint width bs offset =
    if leb (offset + width) (length bs)
    then ok (be_value 0 (take width (drop offset bs)))
    else panic

-- `data[offset]`.
unfoldable pub read_byte : List ℕ → ℕ → Outcome ℕ
read_byte bs offset = if leb (offset + 1) (length bs) then ok (get_or bs offset 0) else panic

-- `dst := make([]byte, n); copy(dst, data[offset:])`, a panic where `offset` lies behind the end.
unfoldable pub copy_out : ℕ → List ℕ → ℕ → Outcome (List ℕ)
copy_out n bs offset =
    if leb offset (length bs) then ok (copy (replicate n 0) (drop offset bs)) else panic

pub read_uint_ok :
    (width : ℕ) (bs : List ℕ) (offset : ℕ)
    → offset + width ≤ length bs
    → read_uint width bs offset ≡ ok (be_value 0 (take width (drop offset bs)))
unfolding read_uint
read_uint_ok width bs offset h = ground arith

pub read_byte_ok :
    (bs : List ℕ) (offset : ℕ) → offset < length bs → read_byte bs offset ≡ ok (get_or bs offset 0)
unfolding read_byte
read_byte_ok bs offset h = ground arith

pub copy_out_ok :
    (n : ℕ) (bs : List ℕ) (offset : ℕ)
    → offset + n ≤ length bs
    → copy_out n bs offset ≡ ok (take n (drop offset bs))
unfolding copy_out
copy_out_ok n bs offset h =
    ground (arith, length-drop offset bs, copy-replicate n zero (drop offset bs))

module _ (p x rest : List ℕ) where
  room : length p + length x ≤ length (p ++ (x ++ rest))
  room = omega (arith, length-append p (x ++ rest), length-append x rest)

  -- Reads where `p` ends, over what `x` holds.
  pub read_uint-append : read_uint (length x) (p ++ (x ++ rest)) (length p) ≡ ok (be_value 0 x)
  read_uint-append =
      read_uint_ok (length x) _ (length p) room ∙ rw (drop-append p (x ++ rest), take-append x rest)

  pub copy_out-append : copy_out (length x) (p ++ (x ++ rest)) (length p) ≡ ok x
  copy_out-append =
      copy_out_ok (length x) _ (length p) room ∙ rw (drop-append p (x ++ rest), take-append x rest)

pub be_value-be16 : (v : ℕ) → be_value 0 (be16 v) ≡ v % 2 ^ 16
unfolding be16
be_value-be16 v = omega arith

pub be_value-be32 : (v : ℕ) → be_value 0 (be32 v) ≡ v % 2 ^ 32
unfolding be32
be_value-be32 v = omega arith

pub be_value-be64 : (v : ℕ) → be_value 0 (be64 v) ≡ v % 2 ^ 64
unfolding be64
be_value-be64 v = omega arith

pub length-be16 : (v : ℕ) → length (be16 v) ≡ 2
unfolding be16
length-be16 v = refl

pub length-be32 : (v : ℕ) → length (be32 v) ≡ 4
unfolding be32
length-be32 v = refl

pub length-be64 : (v : ℕ) → length (be64 v) ≡ 8
unfolding be64
length-be64 v = refl
