-- ===== src/Protocol/Frame.antt =====
-- The frame around a payload, and the size budget of the encoders.
use cinder.Prelude.{
  ℕ, ◌+◌, ◌/◌, ◌%◌, ◌^◌, ◌≤◌, ◌<◌, ◌≡◌, ◌∙◌, ap, none, some, List, [], ◌∷◌, ◌++◌, Bytes, length,
  length-append, take-append, leb, if◌then◌else◌, arith,
}
use cinder.Status.{ok}
use cinder.Wire.{be}
use cinder.Wire.Laws.{length-be}
use cinder.Protocol.{
  parse_frame, check_frame, read_be32, add_sizes, k_magic, k_version, k_max_payload_size,
  k_frame_header_size,
}

-- The header that the encoders write: magic, version, opcode and payload size.
abbrev pub header : ℕ → ℕ → Bytes
header opcode payload_size = k_magic ∷ k_version ∷ opcode ∷ be 4 payload_size

abbrev pub frame : ℕ → Bytes → Bytes
frame opcode payload = header opcode (length payload) ++ payload

read_be32-be :
    (n : ℕ)
    → n < 2 ^ 32
    → read_be32 (n / 256 / 256 / 256 % 256) (n / 256 / 256 % 256) (n / 256 % 256) (n % 256) ≡ n
unfolding read_be32
read_be32-be n h = omega arith

check_frame-whole :
    (opcode : ℕ) (payload more : Bytes)
    → length payload ≤ k_max_payload_size
    → check_frame k_magic k_version opcode (length payload) (payload ++ more)
      ≡ ok (record { opcode = opcode; payload = payload })
unfolding check_frame
check_frame-whole opcode payload more h =
    ground (arith, length-append payload more, take-append payload more)

-- A frame is parsed to its opcode and its payload, whatever bytes follow it in the buffer.
pub parse_frame-frame :
    (opcode : ℕ) (payload more : Bytes)
    → length payload ≤ k_max_payload_size
    → parse_frame (frame opcode payload ++ more)
      ≡ ok (record { opcode = opcode; payload = payload })
unfolding parse_frame be
parse_frame-frame opcode payload more h =
    ap (λ (n : ℕ). check_frame k_magic k_version opcode n (payload ++ more))
      (read_be32-be (length payload) (omega arith))
    ∙ check_frame-whole opcode payload more h

pub length-frame :
    (opcode : ℕ) (payload : Bytes)
    → length (frame opcode payload) ≡ k_frame_header_size + length payload
length-frame opcode payload =
    omega (arith, length-append (be 4 (length payload)) payload, length-be 4 (length payload))

abbrev pub sum : List ℕ → ℕ
sum [] = 0
sum (n ∷ ns) = n + sum ns

-- A chain of sizes stays within the budget, or is refused as a whole.
pub add_sizes-sum :
    (n : ℕ) (sizes : List ℕ)
    → n ≤ k_max_payload_size
    → add_sizes n sizes
      ≡ (if leb (n + sum sizes) k_max_payload_size then some (n + sum sizes) else none)
unfolding add_sizes
add_sizes-sum n [] h = ground arith
add_sizes-sum n (size ∷ sizes) h = ground (arith, add_sizes-sum (n + size) sizes)
