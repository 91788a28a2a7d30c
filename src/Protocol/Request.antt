-- ===== src/Protocol/Request.antt =====
-- Requests: encodeInto(Request, out, auth_token) and decode of src/net/protocol.cpp.
pub mod Sizes
pub mod Decode
pub mod RoundTrip
use cinder.Prelude.{
  ℕ, ◌+◌, ◌*◌, ◌/◌, ◌%◌, ◌^◌, Bool, true, false, not, ◌&&◌, ◌||◌, Option, none, some, is_some, List,
  [], ◌∷◌, ◌++◌, Bytes, length, ltb, leb, ◌==◌, if◌then◌else◌,
}
use cinder.Status
use cinder.Status.{Result, ok, err, invalid, require, ◌>>=◌}
use cinder.Wire.{be}
use cinder.Protocol.Opcodes.{Opcode, opcode_code, check_opcode}
use cinder.Protocol.Flags.{request_flags}
use cinder.Protocol.Frame.{header}
use cinder.Protocol.{
  FrameView, parse_frame, frame_size_for_payload, add_sizes, size_if, bytes_if, expiry_bytes,
  read_expiry, read_sized, read_trace, has_flag, u32_max, k_flag_has_ttl, k_flag_has_expires_at,
  k_flag_has_trace, k_flag_has_auth, k_flag_has_tombstone,
}

-- `ttl` is in milliseconds, `expires_at` in nanoseconds since the epoch; neither is negative here.
pub record Request : Type 0 where
  pub opcode : Opcode
  pub trace_id : ℕ
  pub span_id : ℕ
  pub key : Bytes
  pub value : Bytes
  pub version : ℕ
  pub writer_node_hash : ℕ
  pub ttl : Option ℕ
  pub expires_at : Option ℕ
  pub tombstone : Bool

pub record DecodedRequest : Type 0 where
  pub req : Request
  pub auth_token : Bytes

-- !auth_token.empty()
abbrev pub has_auth : Bytes → Bool
has_auth [] = false
has_auth (b ∷ bs) = true

abbrev pub has_trace : Request → Bool
has_trace req = not (req.trace_id == 0)

-- The terms of the first `||` chain of encodeInto.
abbrev pub body_sizes : Request → List ℕ
body_sizes req =
    4
    ∷ length req.key
    ∷ 4
    ∷ length req.value
    ∷ 16
    ∷ size_if (is_some req.ttl) 4 (1 ∷ size_if (is_some req.expires_at) 8 [])

unfoldable pub body_size : Request → Option ℕ
body_size req =
    if ltb u32_max (length req.key) || ltb u32_max (length req.value)
    then none
    else add_sizes 0 (body_sizes req)

-- The payload size, checked field by field.
unfoldable pub payload_size : Request → Bytes → Result ℕ
payload_size req auth_token = do
  body ← require (body_size req) "message too large"
  traced ← require (add_sizes body (size_if (has_trace req) 16 [])) "message too large"
  (if has_auth auth_token && not (length auth_token == 32)
      then err (invalid "auth token must be 32 bytes")
      else require (add_sizes traced (size_if (has_auth auth_token) 32 [])) "message too large")

-- static_cast<uint32_t>(req.ttl->count()): the low 32 bits.
abbrev pub ttl_bytes : Option ℕ → Bytes
ttl_bytes none = []
ttl_bytes (some ms) = be 4 ms

-- What follows the flags byte, field after field.
unfoldable pub fields : Request → Bytes → Bytes
fields req auth_token =
    ttl_bytes req.ttl
    ++ (expiry_bytes req.expires_at
        ++ (be 8 req.version
            ++ (be 8 req.writer_node_hash
                ++ (be 4 (length req.key)
                    ++ (req.key
                        ++ (be 4 (length req.value)
                            ++ (req.value
                                ++ (bytes_if (has_trace req) (be 8 req.trace_id ++ be 8 req.span_id)
                                    ++ auth_token))))))))

unfoldable pub flags_of : Request → Bytes → ℕ
flags_of req auth_token =
    request_flags (is_some req.ttl) (is_some req.expires_at) req.tombstone (has_trace req)
      (has_auth auth_token)

-- The payload behind the frame header.
unfoldable pub payload : Request → Bytes → Bytes
unfolding fields flags_of
payload req auth_token = be 1 (flags_of req auth_token) ++ fields req auth_token

-- encode and encodeInto: the frame, or the error that leaves the buffer alone.
unfoldable pub encode : Request → Bytes → Result Bytes
encode req auth_token = do
  size ← payload_size req auth_token
  total ← frame_size_for_payload size
  ok (header (opcode_code req.opcode) size ++ payload req auth_token)
