-- ===== src/Protocol/Request/RoundTrip.antt =====
-- decode reads what encode wrote.
use cinder.Prelude.{
  ℕ, ◌%◌, ◌^◌, ◌≤◌, ◌<◌, ◌≡◌, refl, ap, false, not, ◌&&◌, Option, none, some, is_some, [], ◌∷◌,
  ◌++◌, Bytes, length, ◌==◌, if◌then◌else◌, arith,
}
use mathlib.Core.List.{append-nil}
use cinder.Status.{ok}
use cinder.Wire.{be}
use cinder.Wire.Laws.{read-be, read_bytes-append}
use cinder.Protocol.Opcodes.{opcode_code, opcode_range}
use cinder.Protocol.Flags.{request_flags-ReadsFlags, ReadsFlags}
use cinder.Protocol.Frame.{frame, parse_frame-frame}
use cinder.Protocol.Fields.{
  whole_ms, IsClockTime, read_expiry-bytes, read_sized-append, read_trace-bytes,
}
use cinder.Protocol.{has_flag, k_max_payload_size, k_flag_has_auth}
use cinder.Protocol.Request.{
  Request, ttl_bytes, has_auth, has_trace, fields, flags_of, payload, encode,
}
use cinder.Protocol.Request.Decode.{
  read_ttl, read_auth, decode_payload, answer, decode_view, decode,
}
use cinder.Protocol.Request.Sizes.{encode-length, length-key_value}

-- The low 32 bits of a time to live.
abbrev pub low_ttl : Option ℕ → Option ℕ
low_ttl none = none
low_ttl (some ms) = some (ms % 2 ^ 32)

be4_mod : (v : ℕ) → be 4 v ≡ be 4 (v % 2 ^ 32)
unfolding be
be4_mod v = ground arith

read_ttl-bytes :
    (o : Option ℕ) (rest : Bytes)
    → read_ttl (is_some o) (ttl_bytes o ++ rest) ≡ ok (low_ttl o, rest)
unfolding read_ttl
read_ttl-bytes none rest = refl
read_ttl-bytes (some ms) rest = rw (be4_mod ms, read-be 4 (ms % 2 ^ 32) rest (omega arith)) refl

read_auth-token :
    (flags : ℕ) (token : Bytes)
    → has_flag flags k_flag_has_auth ≡ has_auth token
    → (has_auth token && not (length token == 32)) ≡ false
    → read_auth flags token ≡ ok (token, [])
unfolding read_auth
read_auth-token flags [] f g = ground (arith, f)
read_auth-token flags (b ∷ bs) f g =
    ground (arith, f, read_bytes-append (b ∷ bs) [], append-nil (b ∷ bs))

-- The fields are in the ranges of their types: uint64_t, and system_clock's nanoseconds.
pub record IsTyped (req : Request) : Type 0 where
  pub trace_id : req.trace_id < 2 ^ 64
  pub span_id : req.span_id < 2 ^ 64
  pub version : req.version < 2 ^ 64
  pub writer_node_hash : req.writer_node_hash < 2 ^ 64
  pub expires_at : IsClockTime req.expires_at

-- What the wire keeps of a request.
abbrev pub received : Request → Request
received req = record req {
  ttl = low_ttl req.ttl;
  expires_at = whole_ms req.expires_at;
  span_id = if req.trace_id == 0 then 0 else req.span_id;
}

decode_payload-fields :
    (req : Request) (token : Bytes) (flags : ℕ)
    → IsTyped req
    → length req.key < 2 ^ 32
    → length req.value < 2 ^ 32
    → ReadsFlags flags
        (is_some req.ttl)
        (is_some req.expires_at)
        req.tombstone
        (has_trace req)
        (has_auth token)
    → (has_auth token && not (length token == 32)) ≡ false
    → decode_payload req.opcode (be 1 flags ++ fields req token)
      ≡ ok (record { req = received req; auth_token = token }, [])
unfolding decode_payload fields
decode_payload-fields req token flags h hk hv f g = simp (
  λ (rest : Bytes). read-be 1 flags rest f.is_byte,
  f.ttl_flag,
  read_ttl-bytes,
  f.expires_at_flag,
  λ (rest : Bytes). read_expiry-bytes req.expires_at rest h.expires_at,
  λ (rest : Bytes). read-be 8 req.version rest h.version,
  λ (rest : Bytes). read-be 8 req.writer_node_hash rest h.writer_node_hash,
  λ (rest : Bytes). read-be 4 (length req.key) rest hk,
  λ (rest : Bytes). read-be 4 (length req.value) rest hv,
  read_sized-append,
  read_trace-bytes flags req.trace_id req.span_id token f.trace_flag h.trace_id h.span_id,
  read_auth-token flags token f.auth_flag g,
  f.tombstone_flag,
)

decode_payload-payload :
    (req : Request) (token : Bytes)
    → IsTyped req
    → length (payload req token) ≤ k_max_payload_size
    → (has_auth token && not (length token == 32)) ≡ false
    → decode_payload req.opcode (payload req token)
      ≡ ok (record { req = received req; auth_token = token }, [])
decode_payload-payload req token h small g =
    unfold payload flags_of in
    decode_payload-fields req token (flags_of req token) h
      (omega (arith, length-key_value req token)) (omega (arith, length-key_value req token))
      (request_flags-ReadsFlags _ _ _ _ _) g

decode-frame :
    (req : Request) (token more : Bytes)
    → IsTyped req
    → length (payload req token) ≤ k_max_payload_size
    → (has_auth token && not (length token == 32)) ≡ false
    → decode (frame (opcode_code req.opcode) (payload req token) ++ more)
      ≡ ok (record { req = received req; auth_token = token })
unfolding decode
decode-frame req token more h small g =
    rw (parse_frame-frame (opcode_code req.opcode) (payload req token) more small, decode)
      (rw (opcode_range.0 req.opcode, decode_view)
        (ap answer (decode_payload-payload req token h small g)))

-- Whatever encode answers for a request whose fields are in the ranges of their types, decode reads
-- back from it, also when more bytes follow in the buffer: the token, and the request with its time to live cut to its low 32 bits, its expiry cut to whole
-- milliseconds, and its span id dropped if the trace id is 0. All other fields are equal.
pub decode-encode :
    (req : Request) (token out more : Bytes)
    → IsTyped req
    → encode req token ≡ ok out
    → decode (out ++ more) ≡ ok (record { req = received req; auth_token = token })
decode-encode req token out more h e =
    let (whole, small, good) = encode-length req token out e in
    rw whole (decode-frame req token more h small good)
