-- ===== src/Tests/Wire.antt =====
-- The protocol on a Set request and a response.
use cinder.Prelude.{◌≡◌, refl, false, none, some, [], ◌∷◌, ◌++◌, Bytes, arith}
use cinder.Status.{ok, err, invalid}
use cinder.Wire.{be}
use cinder.Wire.Cursor.{Cursor}
use cinder.Protocol.{frame_size_for_payload, add_sizes, add_payload_size}
use cinder.Protocol.Opcodes
use cinder.Protocol.Opcodes.{opcode_code}
use cinder.Protocol.Frame.{frame}
use cinder.Protocol.Request.{Request, encode, payload, fields, body_size, payload_size, flags_of}
use cinder.Protocol.Request.Decode.{decode}
use cinder.Protocol.Request.Sizes.{encode_request_exact}
use cinder.Protocol.Request.RoundTrip.{received, decode-encode}
use cinder.Protocol.Response
use cinder.Protocol.Response.Decode
use cinder.Protocol.Response.RoundTrip.{decode_response-encode}

abbrev set_request : Request
set_request = record {
  opcode = Opcodes.Opcode.set;
  trace_id = 0;
  span_id = 9;
  key = 107 ∷ [];
  value = 118 ∷ 119 ∷ [];
  version = 5;
  writer_node_hash = 7;
  ttl = some 1_500;
  expires_at = none;
  tombstone = false;
}

abbrev set_payload : Bytes
set_payload =
    be 1 1
    ++ (be 4 1500
        ++ (be 8 5 ++ (be 8 7 ++ (be 4 1 ++ ((107 ∷ []) ++ (be 4 2 ++ (118 ∷ 119 ∷ [])))))))

abbrev set_frame : Bytes
set_frame = frame (opcode_code Opcodes.Opcode.set) (payload set_request [])

encoded : encode set_request [] ≡ ok set_frame
unfolding encode payload_size body_size frame_size_for_payload add_sizes add_payload_size payload
    fields flags_of be opcode_code
encoded = refl

decode-encode_example :
    decode (set_frame ++ (255 ∷ [])) ≡ ok (record { req = received set_request; auth_token = [] })
decode-encode_example =
    decode-encode set_request [] set_frame (255 ∷ [])
      (record {
        trace_id = omega arith;
        span_id = omega arith;
        version = omega arith;
        writer_node_hash = omega arith;
        expires_at = tt;
      })
      encoded

-- The frame's bytes.
encoded_bytes : set_frame ≡ 193 ∷ 5 ∷ 2 ∷ 0 ∷ 0 ∷ 0 ∷ 32 ∷ set_payload
unfolding payload fields flags_of be opcode_code
encoded_bytes = refl

abbrev found : Response.Response
found = record {
  status = 0;
  value = some [];
  version = 3;
  writer_node_hash = 4;
  expires_at = some 2_500_000;
  tombstone = false;
  trace_id = 11;
  span_id = 12;
}

abbrev found_frame : Bytes
found_frame = frame 0 (Response.payload found)

found_encoded : Response.encode found ≡ ok found_frame
unfolding Response.encode Response.payload_size frame_size_for_payload add_sizes add_payload_size
    Response.payload Response.fields be
found_encoded = refl

decode_response-encode_example :
    Response.Decode.decode_response (found_frame ++ []) ≡ ok (Response.RoundTrip.received found)
decode_response-encode_example =
    decode_response-encode found found_frame []
      (record {
        status = omega arith;
        trace_id = omega arith;
        span_id = omega arith;
        version = omega arith;
        writer_node_hash = omega arith;
        expires_at = omega arith;
      })
      found_encoded

encode_request_exact_example :
    encode set_request (1 ∷ []) ≡ err (invalid "auth token must be 32 bytes")
unfolding payload fields flags_of be
encode_request_exact_example = encode_request_exact set_request (1 ∷ [])

abbrev half_read : Cursor
half_read = record { bytes = 1 ∷ 2 ∷ 3 ∷ []; off = 1 }
