-- ===== src/Buffer.antt =====
-- BufferWriter and BufferReader of include/cinder/store/detail/io_utils.hpp, which the log, the
-- snapshots and the anti-entropy messages use. Integers are in the machine's order, taken as
-- little-endian. What a writer has written is a byte string, and a reader is the bytes that are left.
pub mod Laws
pub mod Lists
use cinder.Prelude.{
  ℕ, zero, suc, ◌+◌, ◌*◌, ◌/◌, ◌%◌, Bool, true, false, Option, none, some, List, [], ◌∷◌, ◌++◌,
  Bytes, length, take, drop, ltb, if◌then◌else◌,
}

-- The bytes that write<T> appends for an unsigned T of `width` bytes.
unfoldable pub le : ℕ → ℕ → Bytes
le zero v = []
le (suc width) v = v % 256 ∷ le width (v / 256)

unfoldable pub of_le : Bytes → ℕ
of_le [] = 0
of_le (b ∷ bs) = b + 256 * of_le bs

-- What a chain of reads comes to: a value and the bytes behind it, or a stop in front of the bytes
-- that are left, at the end of the input (`torn`) or at bytes that the caller rejects (`bad`).
pub data Outcome {ℓ} (A : Type ℓ) : Type ℓ where
  got : A → Bytes → Outcome A
  torn : Bytes → Outcome A
  bad : Bytes → Outcome A

abbrev pub Parser {ℓ} : Type ℓ → Type ℓ
Parser A = Bytes → Outcome A

abbrev pub pure {ℓ} : {A : Type ℓ} → A → Parser A
pure a r = got a r

-- The caller's own rejection of what was read.
abbrev pub reject {ℓ} : {A : Type ℓ} → Parser A
reject r = bad r

abbrev pub continue {ℓ κ} : {A : Type ℓ} {B : Type κ} → Outcome A → (A → Parser B) → Outcome B
continue (got a r) f = f a r
continue (torn r) f = torn r
continue (bad r) f = bad r

infixl 5 ◌>>=◌
abbrev pub ◌>>=◌ {ℓ κ} : {A : Type ℓ} {B : Type κ} → Parser A → (A → Parser B) → Parser B
◌>>=◌ m f r = continue (m r) f

infixl 5 ◌>>◌
abbrev pub ◌>>◌ {ℓ κ} : {A : Type ℓ} {B : Type κ} → Parser A → Parser B → Parser B
◌>>◌ m k r = continue (m r) (λ a. k)

-- read<T>
unfoldable pub read : ℕ → Parser ℕ
read width r = if ltb (length r) width then torn r else got (of_le (take width r)) (drop width r)

-- readString and tryView
unfoldable pub read_string : ℕ → Parser Bytes
read_string len r = if ltb (length r) len then torn r else got (take len r) (drop len r)

-- remaining()
abbrev pub remaining : Parser ℕ
remaining r = got (length r) r

-- A condition that the caller puts on what it has read.
abbrev pub guard : Bool → Parser (Unit {0})
guard true = pure tt
guard false = reject

-- A loop of `n` reads into a vector.
abbrev pub read_list {ℓ} : {A : Type ℓ} → Parser A → ℕ → Parser (List A)
read_list p zero = pure []
read_list p (suc n) = p >>= (λ x. read_list p n >>= (λ xs. pure (x ∷ xs)))

-- A loop of writes over a vector.
abbrev pub write_list {ℓ} : {A : Type ℓ} → (A → Bytes) → List A → Bytes
write_list w [] = []
write_list w (x ∷ xs) = w x ++ write_list w xs

-- The value, where all bytes were read well.
abbrev pub value_of {ℓ} : {A : Type ℓ} → Outcome A → Option A
value_of (got a r) = some a
value_of (torn r) = none
value_of (bad r) = none
