-- ===== src/Wire/Cursor.antt =====
-- ByteReader as the class holds it, a span and an offset, and that it reads what the bytes that are
-- not read yet determine.
use cinder.Prelude.{
  ℕ, ◌+◌, ◌-◌, ◌≡◌, Bytes, length, take, drop, length-drop, drop-drop, leb, ltb, if◌then◌else◌,
  arith,
}
use cinder.Status.{Result, ok, err, invalid}
use cinder.Wire.{read_bytes, read, of_be}

pub record Cursor : Type 0 where
  pub bytes : Bytes
  pub off : ℕ

-- remaining()
unfoldable pub remaining : Cursor → ℕ
remaining c = if leb c.off (length c.bytes) then length c.bytes - c.off else 0

-- readBytes(n): the subspan, and the reader behind it.
unfoldable pub read_bytes_at : ℕ → Cursor → Result (Bytes × Cursor)
unfolding remaining
read_bytes_at n c =
    if ltb (remaining c) n
    then err (invalid "truncated")
    else ok (take n (drop c.off c.bytes), record c { off = c.off + n })

-- read<T>(), by the big-endian value of the sizeof(T) bytes at the offset.
unfoldable pub read_at : ℕ → Cursor → Result (ℕ × Cursor)
unfolding remaining
read_at width c =
    if ltb (remaining c) width
    then err (invalid "truncated")
    else ok (of_be 0 (take width (drop c.off c.bytes)), record c { off = c.off + width })

-- What is not read yet.
abbrev pub unread : Cursor → Bytes
unread c = drop c.off c.bytes

abbrev pub unread_rest {ℓ} : {A : Type ℓ} → Result (A × Cursor) → Result (A × Bytes)
unread_rest (ok (a, c)) = ok (a, unread c)
unread_rest (err e) = err e

pub remaining-unread : (c : Cursor) → remaining c ≡ length (unread c)
unfolding remaining
remaining-unread c = ground (arith, length-drop c.off c.bytes)

read_bytes_at-unread :
    (n : ℕ) (c : Cursor) → unread_rest (read_bytes_at n c) ≡ read_bytes n (unread c)
unfolding read_bytes_at read_bytes
read_bytes_at-unread n c = ground (arith, length-drop c.off c.bytes, drop-drop c.off n c.bytes)

read_at-unread : (n : ℕ) (c : Cursor) → unread_rest (read_at n c) ≡ read n (unread c)
unfolding read_at read read_bytes
read_at-unread n c = ground (arith, length-drop c.off c.bytes, drop-drop c.off n c.bytes)

-- A reader that holds a span and an offset answers, on success and on truncation, as the reader of
-- the unread bytes does, its unread bytes are the same afterwards, and remaining() is their number.
pub cursor_refines :
    (n : ℕ) (c : Cursor)
    → (unread_rest (read_bytes_at n c) ≡ read_bytes n (unread c))
      × (unread_rest (read_at n c) ≡ read n (unread c))
      × (remaining c ≡ length (unread c))
cursor_refines n c = (read_bytes_at-unread n c, read_at-unread n c, remaining-unread c)
