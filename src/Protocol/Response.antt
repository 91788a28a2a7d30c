-- ===== src/Protocol/Response.antt =====
-- Responses: encodeInto(Response, out) and decodeResponse of src/net/protocol.cpp.
pub mod Decode
pub mod Sizes
pub mod RoundTrip
use cinder.Prelude.{
  ℕ, ◌+◌, ◌<◌, ◌^◌, Bool, true, false, not, ◌&&◌, ◌||◌, Option, none, some, is_some, List, [], ◌∷◌,
  ◌++◌, Bytes, length, ltb, ◌==◌, if◌then◌else◌,
}
use cinder.Status.{Result, ok, err, invalid, require, ◌>>=◌}
use cinder.Wire.{be}
use cinder.Protocol.Flags.{request_flags}
use cinder.Protocol.Frame.{header}
use cinder.Protocol.{frame_size_for_payload, add_sizes, size_if, bytes_if, expiry_bytes, u32_max}

-- `status` is the byte of an Errc, since decodeResponse casts any byte to the enum.
pub record Response : Type 0 where
  pub status : ℕ
  pub value : Option Bytes
  pub version : ℕ
  pub writer_node_hash : ℕ
  pub expires_at : Option ℕ
  pub tombstone : Bool
  pub trace_id : ℕ
  pub span_id : ℕ

abbrev pub has_version_meta : Response → Bool
has_version_meta res = not (res.version == 0) || not (res.writer_node_hash == 0)

abbrev pub has_trace : Response → Bool
has_trace res = not (res.trace_id == 0)

abbrev pub value_or_empty : Option Bytes → Bytes
value_or_empty none = []
value_or_empty (some bytes) = bytes

-- The fields whose sizes encodeInto adds up, in its order.
abbrev pub body_sizes : Response → List ℕ
body_sizes res =
    6
    ∷ size_if (has_version_meta res) 16 (
        size_if (is_some res.expires_at) 8 (
          size_if (is_some res.value) (length (value_or_empty res.value))
            (size_if (has_trace res) 16 [])))

unfoldable pub payload_size : Response → Option ℕ
payload_size res =
    if ltb u32_max (length (value_or_empty res.value)) then none else add_sizes 0 (body_sizes res)

abbrev pub flags_of : Response → ℕ
flags_of res =
    request_flags (has_version_meta res) (is_some res.expires_at) res.tombstone (has_trace res)
      false

-- What follows the status and the flags byte, field after field.
unfoldable pub fields : Response → Bytes
fields res =
    bytes_if (has_version_meta res) (be 8 res.version ++ be 8 res.writer_node_hash)
    ++ (expiry_bytes res.expires_at
        ++ (be 4 (if is_some res.value then 1 else 0)
            ++ (value_or_empty res.value
                ++ bytes_if (has_trace res) (be 8 res.trace_id ++ be 8 res.span_id))))

unfoldable pub payload : Response → Bytes
unfolding fields
payload res = be 1 res.status ++ (be 1 (flags_of res) ++ fields res)

-- The frame of a payload whose size was computed as `size`, `none` if it is too large.
abbrev pub encode_sized : Bytes → Option ℕ → Result Bytes
encode_sized bytes sized = do
  size ← require sized "message too large"
  total ← frame_size_for_payload size
  ok (header 0 size ++ bytes)

-- The opcode byte of a response is 0.
unfoldable pub encode : Response → Result Bytes
encode res = encode_sized (payload res) (payload_size res)
