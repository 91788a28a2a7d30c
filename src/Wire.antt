-- ===== src/Wire.antt =====
-- include/cinder/net/byte_writer.hpp and byte_reader.hpp. What a ByteWriter has written is a byte
-- string; a ByteReader is the bytes that are not read yet (`Wire.Cursor` relates it to the span and
-- the offset that the class holds). Multi-byte integers are big-endian.
pub mod Laws
pub mod Cursor
use Prim.Native.String.{String}
use cinder.Prelude.{
  ℕ, zero, suc, ◌+◌, ◌*◌, ◌/◌, ◌%◌, List, [], ◌∷◌, ◌++◌, Bytes, length, take, drop, ltb,
  if◌then◌else◌,
}
use cinder.Status.{Result, ok, err, invalid}

-- The bytes that write<T> appends for an unsigned T of `width` bytes: the low bytes of the value,
-- highest first.
unfoldable pub be : ℕ → ℕ → Bytes
be zero v = []
be (suc width) v = be width (v / 256) ++ (v % 256 ∷ [])

-- The integer that a big-endian byte string stands for.
unfoldable pub of_be : ℕ → Bytes → ℕ
of_be acc [] = acc
of_be acc (b ∷ bs) = of_be (acc * 256 + b) bs

abbrev pub Parser {ℓ} : Type ℓ → Type ℓ
Parser A = Bytes → Result (A × Bytes)

abbrev pub pure {ℓ} : {A : Type ℓ} → A → Parser A
pure a r = ok (a, r)

abbrev continue {ℓ κ} :
    {A : Type ℓ} {B : Type κ} → Result (A × Bytes) → (A → Parser B) → Result (B × Bytes)
continue (ok (a, r)) f = f a r
continue (err e) f = err e

infixl 5 ◌>>=◌
abbrev pub ◌>>=◌ {ℓ κ} : {A : Type ℓ} {B : Type κ} → Parser A → (A → Parser B) → Parser B
◌>>=◌ m f r = continue (m r) f

-- readBytes, and readString, which copies its result.
unfoldable pub read_bytes : ℕ → Parser Bytes
read_bytes n r = if ltb (length r) n then err (invalid "truncated") else ok (take n r, drop n r)

abbrev pub valued : Result (Bytes × Bytes) → Result (ℕ × Bytes)
valued (ok (bytes, r)) = ok (of_be 0 bytes, r)
valued (err e) = err e

-- read<T> for an unsigned T of `width` bytes.
unfoldable pub read : ℕ → Parser ℕ
read width r = valued (read_bytes width r)
