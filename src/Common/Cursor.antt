-- ===== src/Common/Cursor.antt =====
-- Marshalling into a fresh buffer at a moving offset: `buf := make([]byte, size)`, writes at
-- `buf[offset:]`, and `offset += n`.
use Prim.Native.Nat.{ℕ, ◌+◌, ◌≤◌}
use mathlib.Core.Path.{◌≡◌, ◌∙◌, ap, sym}
use mathlib.Core.List.{List, ◌++◌, append_assoc}
use native.Mathlib.Omega.{arith}
use qzmq.Common.Tests.{leb, if◌then◌else◌}
use qzmq.Common.Lists.{
  length, take, drop, replicate, copy, length-append, length-replicate, take-append, drop-append,
  copy_fill, replicate-add,
}
use qzmq.Common.Outcomes.{Outcome, ok, err, panic}
use qzmq.Common.Methods.{Action, ◌>>◌, >>=-of_ok}

pub record Cursor : Type 0 where
  pub buf : List ℕ
  pub offset : ℕ

-- `make([]byte, size)`, with the offset at 0.
abbrev pub start : ℕ → Cursor
start size = record { buf = replicate size 0; offset = 0 }

-- `copy(buf[offset:], bs)`: what does not fit is dropped; a panic where `offset` lies outside.
pub copy_in : List ℕ → Action Cursor (Unit {0})
copy_in bs c =
    if leb c.offset (length c.buf)
    then (ok tt, record c { buf = take c.offset c.buf ++ copy (drop c.offset c.buf) bs })
    else (panic, c)

-- `offset += n`.
pub advance : ℕ → Action Cursor (Unit {0})
advance n c = (ok tt, record c { offset = c.offset + n })

-- `buf[offset] = b` or `binary.BigEndian.PutUintN(buf[offset:], v)`: a panic where the bytes have
-- no room.
pub store : List ℕ → Action Cursor (Unit {0})
store bs c =
    if leb (c.offset + length bs) (length c.buf)
    then (ok tt, record c { buf = take c.offset c.buf ++ copy (drop c.offset c.buf) bs })
    else (panic, c)

-- A buffer that holds `p`, with `n` bytes still zero behind it.
abbrev pub after : List ℕ → ℕ → Cursor
after p n = record { buf = p ++ replicate n 0; offset = length p }

-- What `p` and a stretch of zero bytes hold after `bs` is written where `p` ends.
overwrite :
    (p bs : List ℕ) (n : ℕ)
    → let buf = p ++ replicate (length bs + n) 0 in
      take (length p) buf ++ copy (drop (length p) buf) bs ≡ (p ++ bs) ++ replicate n 0
overwrite p bs n = rw (take-append, drop-append, copy_fill, append_assoc)

room : (p bs : List ℕ) (n : ℕ) → length p + length bs ≤ length (p ++ replicate (length bs + n) 0)
room p bs n = omega (
  arith,
  length-append p (replicate (length bs + n) 0),
  length-replicate {A = ℕ} (length bs + n) 0,
)

-- One write that fits, on its own.
pub store_fits :
    (p bs : List ℕ) (n : ℕ)
    → store bs (after p (length bs + n))
      ≡ (ok tt, record { buf = (p ++ bs) ++ replicate n 0; offset = length p })
unfolding store
store_fits p bs n = ground (arith, room p bs n, overwrite p bs n)

pub copy_in_fits :
    (p bs : List ℕ) (n : ℕ)
    → copy_in bs (after p (length bs + n))
      ≡ (ok tt, record { buf = (p ++ bs) ++ replicate n 0; offset = length p })
unfolding copy_in
copy_in_fits p bs n = ground (arith, room p bs n, overwrite p bs n)

module _ (p bs : List ℕ) (n : ℕ) {w : ℕ} (k : Action Cursor (Unit {0}))
    (width : length bs ≡ w) where
  -- A store of `w` bytes, the step over them, and the rest of the method.
  pub store_then : (store bs >> (advance w >> k)) (after p (w + n)) ≡ k (after (p ++ bs) n)
  unfolding advance
  store_then = rw (← width) (
      >>=-of_ok (store bs) _ _ (store_fits p bs n)
      ∙ ap (λ l. k (record { buf = (p ++ bs) ++ replicate n 0; offset = l }))
          (sym (length-append p bs)))

  pub copy_in_then : (copy_in bs >> (advance w >> k)) (after p (w + n)) ≡ k (after (p ++ bs) n)
  unfolding advance
  copy_in_then = rw (← width) (
      >>=-of_ok (copy_in bs) _ _ (copy_in_fits p bs n)
      ∙ ap (λ l. k (record { buf = (p ++ bs) ++ replicate n 0; offset = l }))
          (sym (length-append p bs)))

-- A step over `w` bytes that are left zero.
pub advance_then :
    (p : List ℕ) (w n : ℕ) (k : Action Cursor (Unit {0}))
    → (advance w >> k) (after p (w + n)) ≡ k (after (p ++ replicate w 0) n)
unfolding advance
advance_then p w n k = rw (replicate-add, length-append, length-replicate, append_assoc)

-- What a marshaller returns: `buf`, and `buf[:offset]`.
abbrev pub whole_buffer : Outcome (Unit {0}) × Cursor → Outcome (List ℕ)
whole_buffer (ok _, c) = ok c.buf
whole_buffer (err e, c) = err e
whole_buffer (panic, c) = panic

abbrev pub up_to_offset : Outcome (Unit {0}) × Cursor → Outcome (List ℕ)
up_to_offset (ok _, c) = if leb c.offset (length c.buf) then ok (take c.offset c.buf) else panic
up_to_offset (err e, c) = err e
up_to_offset (panic, c) = panic

pub up_to_offset-after : (p : List ℕ) (n : ℕ) → up_to_offset (ok tt, after p n) ≡ ok p
up_to_offset-after p n =
    ground (arith, take-append p (replicate n 0), length-append p (replicate n 0))
