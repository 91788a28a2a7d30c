-- ===== src/Protocol.antt =====
-- src/net/protocol.cpp and include/cinder/net/protocol.hpp: what both message kinds share.
pub mod Opcodes
pub mod Flags
pub mod Fields
pub mod Frame
pub mod Request
pub mod Response
use Prim.Native.Nat.{bit_and, bit_or}
use cinder.Prelude.{
  ℕ, ◌+◌, ◌-◌, ◌*◌, ◌/◌, ◌%◌, ◌^◌, Bool, true, false, not, ◌&&◌, ◌||◌, Option, none, some, List, [],
  ◌∷◌, ◌++◌, Bytes, length, take, drop, ltb, leb, ◌==◌, if◌then◌else◌,
}
use cinder.Status.{Result, ok, err, invalid, Error}
use cinder.Wire.{Parser, pure, ◌>>=◌, read, read_bytes, be}

abbrev pub k_magic : ℕ
k_magic = 0xC1

abbrev pub k_version : ℕ
k_version = 5

abbrev pub k_max_message_size : ℕ
k_max_message_size = 67_108_864

abbrev pub k_frame_header_size : ℕ
k_frame_header_size = 7

abbrev pub k_max_payload_size : ℕ
k_max_payload_size = k_max_message_size - k_frame_header_size

abbrev pub u32_max : ℕ
u32_max = 2 ^ 32 - 1

-- Bits 0 to 4 of the flags byte. In a response bit 0 marks version metadata.
abbrev pub k_flag_has_ttl : ℕ
k_flag_has_ttl = 1

abbrev pub k_flag_has_expires_at : ℕ
k_flag_has_expires_at = 2

abbrev pub k_flag_has_trace : ℕ
k_flag_has_trace = 4

abbrev pub k_flag_has_auth : ℕ
k_flag_has_auth = 8

abbrev pub k_flag_has_tombstone : ℕ
k_flag_has_tombstone = 16

-- if (b) flags |= flag;
abbrev pub or_flag : Bool → ℕ → ℕ → ℕ
or_flag true flag flags = bit_or flags flag
or_flag false flag flags = flags

-- (flags & flag) != 0
unfoldable pub has_flag : ℕ → ℕ → Bool
has_flag flags flag = not (bit_and flags flag == 0)

pub record FrameView : Type 0 where
  pub opcode : ℕ
  pub payload : Bytes

-- Big-endian assembly by shifts; the four bytes do not overlap, so `|` is a sum.
unfoldable pub read_be32 : ℕ → ℕ → ℕ → ℕ → ℕ
read_be32 a b c d = a * 2 ^ 24 + b * 2 ^ 16 + c * 2 ^ 8 + d

-- The checks of parseFrame on a frame of at least a header: its first three bytes, the declared
-- payload size, and what follows the header.
unfoldable pub check_frame : ℕ → ℕ → ℕ → ℕ → Bytes → Result FrameView
check_frame magic version opcode payload_size rest =
    if not (magic == k_magic)
    then err (invalid "bad magic")
    else if not (version == k_version)
    then err (invalid "bad version")
    else if ltb k_max_payload_size payload_size
    then err (invalid "payload too large")
    else if ltb (length rest) payload_size
    then err (invalid "truncated frame")
    else ok (record { opcode = opcode; payload = take payload_size rest })

unfoldable pub parse_frame : Bytes → Result FrameView
parse_frame (magic ∷ version ∷ opcode ∷ a ∷ b ∷ c ∷ d ∷ rest) =
    check_frame magic version opcode (read_be32 a b c d) rest
parse_frame _ = err (invalid "frame too small")

unfoldable pub frame_size_for_payload : ℕ → Result ℕ
frame_size_for_payload payload_size =
    if ltb k_max_payload_size payload_size
    then err (invalid "message too large")
    else ok (k_frame_header_size + payload_size)

-- `none` is the answer false; otherwise the new payload size.
unfoldable pub add_payload_size : ℕ → ℕ → Option ℕ
add_payload_size payload_size field_size =
    if ltb k_max_payload_size payload_size || ltb (k_max_payload_size - payload_size) field_size
    then none
    else some (payload_size + field_size)

-- A chain `add(a) && add(b) && …` of the encoders.
unfoldable pub add_sizes : ℕ → List ℕ → Option ℕ
unfolding add_payload_size
add_sizes n [] = some n
add_sizes n (size ∷ sizes) = elim (add_payload_size n size) [
  | none ↦ none
  | some m ↦ add_sizes m sizes
]

-- `x.has_value() && …`: the size of an optional field, as one more term of the chain.
abbrev pub size_if : Bool → ℕ → List ℕ → List ℕ
size_if true size sizes = size ∷ sizes
size_if false size sizes = sizes

-- An optional field of the wire image.
abbrev pub bytes_if : Bool → Bytes → Bytes
bytes_if true bytes = bytes
bytes_if false bytes = []

abbrev pub ns_per_ms : ℕ
ns_per_ms = 1_000_000

-- numeric_limits<int64_t>::max() / 1'000'000
abbrev pub k_max_ms : ℕ
k_max_ms = (2 ^ 63 - 1) / ns_per_ms

-- Expiries are nanoseconds since the epoch, as system_clock counts them; milliseconds on the wire.
abbrev pub expiry_bytes : Option ℕ → Bytes
expiry_bytes none = []
expiry_bytes (some at) = be 8 (at / ns_per_ms)

unfoldable pub read_expiry : Bool → Parser (Option ℕ)
read_expiry false = pure none
read_expiry true = do
  ms ← read 8
  (if ltb k_max_ms ms
      then (λ r. err (invalid "expires_at overflow"))
      else pure (some (ms * ns_per_ms)))

-- A field behind a length: if (n > 0) { readStringView(n) }.
unfoldable pub read_sized : ℕ → Parser Bytes
read_sized n = if ltb 0 n then read_bytes n else pure []

-- The second read of a trace context, and the values that are kept: both, or the defaults.
abbrev pub keep_trace : ℕ → Result (ℕ × Bytes) → Bytes → Result ((ℕ × ℕ) × Bytes)
keep_trace tid (ok (sid, r)) before = ok ((tid, if tid == 0 then 0 else sid), r)
keep_trace tid (err e) before = ok ((0, 0), before)

abbrev pub read_ids : Result (ℕ × Bytes) → Bytes → Result ((ℕ × ℕ) × Bytes)
read_ids (ok (tid, r)) before = keep_trace tid (read 8 r) r
read_ids (err e) before = ok ((0, 0), before)

-- The trailing trace context: read only if all of its 16 bytes are there.
unfoldable pub read_trace : ℕ → Parser (ℕ × ℕ)
read_trace flags r =
    if has_flag flags k_flag_has_trace && leb 16 (length r)
    then read_ids (read 8 r) r
    else ok ((0, 0), r)
