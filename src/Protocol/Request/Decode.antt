-- ===== src/Protocol/Request/Decode.antt =====
-- decode of src/net/protocol.cpp.
use cinder.Prelude.{
  ℕ, ◌&&◌, Bool, true, false, Option, none, some, [], Bytes, length, leb, if◌then◌else◌,
}
use cinder.Status.{Result, ok, err, invalid}
use cinder.Wire.{Parser, pure, ◌>>=◌, read, read_bytes}
use cinder.Protocol.Opcodes.{Opcode, check_opcode}
use cinder.Protocol.{
  FrameView, parse_frame, read_expiry, read_sized, read_trace, has_flag, k_flag_has_ttl,
  k_flag_has_expires_at, k_flag_has_auth, k_flag_has_tombstone,
}
use cinder.Protocol.Request.{DecodedRequest}

unfoldable pub read_ttl : Bool → Parser (Option ℕ)
read_ttl false = pure none
read_ttl true = do ms ← read 4; pure (some ms)

abbrev pub token_or_none : Result (Bytes × Bytes) → Parser Bytes
token_or_none (ok (token, r)) before = ok (token, r)
token_or_none (err e) before = ok ([], before)

-- The trailing auth token: read only if all of its 32 bytes are there.
unfoldable pub read_auth : ℕ → Parser Bytes
read_auth flags r =
    if has_flag flags k_flag_has_auth && leb 32 (length r)
    then token_or_none (read_bytes 32 r) r
    else ok ([], r)

unfoldable pub decode_payload : Opcode → Parser DecodedRequest
decode_payload opcode = do
  flags ← read 1
  ttl ← read_ttl (has_flag flags k_flag_has_ttl)
  expires_at ← read_expiry (has_flag flags k_flag_has_expires_at)
  version ← read 8
  writer_node_hash ← read 8
  key_len ← read 4
  key ← read_sized key_len
  val_len ← read 4
  value ← read_sized val_len
  trace ← read_trace flags
  auth_token ← read_auth flags
  pure (record {
    req = record {
      opcode = opcode;
      trace_id = trace.0;
      span_id = trace.1;
      key = key;
      value = value;
      version = version;
      writer_node_hash = writer_node_hash;
      ttl = ttl;
      expires_at = expires_at;
      tombstone = has_flag flags k_flag_has_tombstone;
    };
    auth_token = auth_token;
  })

-- What follows the last field is not looked at.
abbrev pub answer {ℓ} : {A : Type ℓ} → Result (A × Bytes) → Result A
answer (ok (a, r)) = ok a
answer (err e) = err e

unfoldable pub decode_view : FrameView → Result DecodedRequest
decode_view view = elim (check_opcode view.opcode) [
  | none ↦ err (invalid "unknown opcode")
  | some opcode ↦ answer (decode_payload opcode view.payload)
]

unfoldable pub decode : Bytes → Result DecodedRequest
unfolding decode_view
decode frame = elim (parse_frame frame) [ err e ↦ err e | ok view ↦ decode_view view ]
