-- ===== src/Protocol/Response/Decode.antt =====
-- decodeResponse of src/net/protocol.cpp.
use cinder.Prelude.{
  ℕ, ◌-◌, ◌==◌, not, Bool, true, false, Option, none, some, Bytes, length, ltb, if◌then◌else◌,
}
use cinder.Status.{Result, ok, err}
use cinder.Wire.{Parser, pure, ◌>>=◌, read, read_bytes}
use cinder.Protocol.{
  parse_frame, read_expiry, read_trace, has_flag, k_flag_has_expires_at, k_flag_has_trace,
  k_flag_has_tombstone,
}
use cinder.Protocol.Request.Decode.{answer}
use cinder.Protocol.Response.{Response}

-- The flags byte, 0 if the payload ends before it.
unfoldable pub read_flags : Parser ℕ
read_flags r = if ltb 0 (length r) then read 1 r else ok (0, r)

-- The version and the writer's hash, present if bit 0 is set.
unfoldable pub read_meta : Bool → Parser (ℕ × ℕ)
read_meta false = pure (0, 0)
read_meta true = do version ← read 8; writer ← read 8; pure (version, writer)

-- The value is what remains but for a trace context; nothing, if less than that remains.
unfoldable pub read_value : Bool → ℕ → Parser (Option Bytes)
read_value false flags r = ok (none, r)
read_value true flags r =
    let trace_size : ℕ = if has_flag flags k_flag_has_trace then 16 else 0 in
    let val_len : ℕ = if ltb trace_size (length r) then length r - trace_size else 0 in
    (read_bytes val_len >>= λ bytes. pure (some bytes)) r

unfoldable pub decode_payload : Parser Response
decode_payload = do
  status ← read 1
  flags ← read_flags
  version_meta ← read_meta (has_flag flags 1)
  expires_at ← read_expiry (has_flag flags k_flag_has_expires_at)
  has_val ← read 4
  value ← read_value (not (has_val == 0)) flags
  trace ← read_trace flags
  pure (record {
    status = status;
    value = value;
    version = version_meta.0;
    writer_node_hash = version_meta.1;
    expires_at = expires_at;
    tombstone = has_flag flags k_flag_has_tombstone;
    trace_id = trace.0;
    span_id = trace.1;
  })

unfoldable pub decode_response : Bytes → Result Response
decode_response frame = elim (parse_frame frame) [
  | err e ↦ err e
  | ok view ↦ answer (decode_payload view.payload)
]
