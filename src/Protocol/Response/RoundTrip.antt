-- ===== src/Protocol/Response/RoundTrip.antt =====
-- decodeResponse reads what encode wrote.
use cinder.Prelude.{
  ℕ, ◌^◌, ◌≤◌, ◌<◌, ◌≡◌, refl, ap, Bool, true, false, not, ◌||◌, Option, none, some, is_some, [],
  ◌++◌, Bytes, length, length-append, ◌==◌, if◌then◌else◌, arith,
}
use mathlib.Core.List.{append-nil, append_assoc}
use cinder.Status.{ok}
use cinder.Wire.{be, read}
use cinder.Wire.Laws.{length-be, read-be, read_bytes-append}
use cinder.Protocol.Flags.{request_flags-ReadsFlags, ReadsFlags}
use cinder.Protocol.Frame.{frame, parse_frame-frame}
use cinder.Protocol.Fields.{
  whole_ms, IsClockTime, read_expiry-bytes, read_trace-bytes, length-trace,
}
use cinder.Protocol.{has_flag, bytes_if, k_max_payload_size, k_flag_has_trace, read_trace}
use cinder.Protocol.Response.{
  Response, has_version_meta, has_trace, value_or_empty, flags_of, fields, payload, encode,
}
use cinder.Protocol.Request.Decode.{answer}
use cinder.Protocol.Response.Decode.{
  read_flags, read_meta, read_value, decode_payload, decode_response,
}
use cinder.Protocol.Response.Sizes.{encode_response_exact}

read_flags-be :
    (flags : ℕ) (rest : Bytes) → flags < 256 → read_flags (be 1 flags ++ rest) ≡ ok (flags, rest)
unfolding read_flags
read_flags-be flags rest h =
    ground (arith, length-append (be 1 flags) rest, length-be 1 flags, read-be 1 flags rest)

read_meta-bytes :
    (version writer : ℕ) (rest : Bytes)
    → version < 2 ^ 64
    → writer < 2 ^ 64
    → read_meta
        (not (version == 0) || not (writer == 0))
        (bytes_if (not (version == 0) || not (writer == 0)) (be 8 version ++ be 8 writer) ++ rest)
      ≡ ok ((version, writer), rest)
unfolding read_meta
read_meta-bytes version writer rest hv hw = ground (
  arith,
  append_assoc (be 8 version) (be 8 writer) rest,
  read-be 8 version (be 8 writer ++ rest) hv,
  read-be 8 writer rest hw,
)

read_value-bytes :
    (flags : ℕ) (b : Bool) (o : Option Bytes) (t s : ℕ)
    → has_flag flags k_flag_has_trace ≡ b
    → read_value (is_some o) flags (value_or_empty o ++ bytes_if b (be 8 t ++ be 8 s))
      ≡ ok (o, bytes_if b (be 8 t ++ be 8 s))
unfolding read_value
read_value-bytes flags b none t s f = refl
read_value-bytes flags true (some v) t s f = ground (
  arith,
  f,
  length-append v (be 8 t ++ be 8 s),
  length-trace true t s,
  read_bytes-append v (be 8 t ++ be 8 s),
)
read_value-bytes flags false (some v) t s f =
    ground (arith, f, append-nil v, read_bytes-append v [])

-- The fields are in the ranges of their types.
pub record IsTyped (res : Response) : Type 0 where
  pub status : res.status < 256
  pub trace_id : res.trace_id < 2 ^ 64
  pub span_id : res.span_id < 2 ^ 64
  pub version : res.version < 2 ^ 64
  pub writer_node_hash : res.writer_node_hash < 2 ^ 64
  pub expires_at : IsClockTime res.expires_at

-- What the wire keeps of a response.
abbrev pub received : Response → Response
received res = record res {
  expires_at = whole_ms res.expires_at;
  span_id = if res.trace_id == 0 then 0 else res.span_id;
}

has_val_be : (b : Bool) → not ((if b then 1 else 0) == 0) ≡ b
has_val_be b = ground arith

read_has_val :
    (b : Bool) (rest : Bytes)
    → read 4 (be 4 (if b then 1 else 0) ++ rest) ≡ ok (if b then 1 else 0, rest)
read_has_val b rest = read-be 4 (if b then 1 else 0) rest (ground arith)

read_trace-last :
    (flags t s : ℕ)
    → has_flag flags k_flag_has_trace ≡ not (t == 0)
    → t < 2 ^ 64
    → s < 2 ^ 64
    → read_trace flags (bytes_if (not (t == 0)) (be 8 t ++ be 8 s))
      ≡ ok ((t, if t == 0 then 0 else s), [])
read_trace-last flags t s f ht hs = rw append-nil at (read_trace-bytes flags t s [] f ht hs)

encode-frame :
    (res : Response) (out : Bytes)
    → encode res ≡ ok out
    → (out ≡ frame 0 (payload res)) × (length (payload res) ≤ k_max_payload_size)
encode-frame res out e =
    let exact = encode_response_exact res in (ground (arith, exact), ground (arith, exact))

decode_payload-fields :
    (res : Response) (flags : ℕ)
    → IsTyped res
    → ReadsFlags flags
        (has_version_meta res)
        (is_some res.expires_at)
        res.tombstone
        (has_trace res)
        false
    → decode_payload (be 1 res.status ++ (be 1 flags ++ fields res)) ≡ ok (received res, [])
unfolding decode_payload fields
decode_payload-fields res flags h f = simp (
  λ (rest : Bytes). read-be 1 res.status rest h.status,
  λ (rest : Bytes). read_flags-be flags rest f.is_byte,
  f.ttl_flag,
  λ (rest : Bytes).
      read_meta-bytes res.version res.writer_node_hash rest h.version h.writer_node_hash,
  f.expires_at_flag,
  λ (rest : Bytes). read_expiry-bytes res.expires_at rest h.expires_at,
  read_has_val,
  has_val_be,
  read_value-bytes flags (has_trace res) res.value res.trace_id res.span_id f.trace_flag,
  read_trace-last flags res.trace_id res.span_id f.trace_flag h.trace_id h.span_id,
  f.tombstone_flag,
)

-- Whatever encode answers for a response whose fields are in the ranges of their types, decodeResponse reads back from it, also when more bytes
-- follow in the buffer: the same response with its expiry cut to whole milliseconds, and its span id
-- dropped if the trace id is 0. A value that is present and empty stays present.
pub decode_response-encode :
    (res : Response) (out more : Bytes)
    → IsTyped res
    → encode res ≡ ok out
    → decode_response (out ++ more) ≡ ok (received res)
unfolding decode_response
decode_response-encode res out more h e =
    let (whole, small) = encode-frame res out e in
    rw whole (
      rw (parse_frame-frame 0 (payload res) more small, decode_response)
        (unfold payload in
          ap answer
            (decode_payload-fields res (flags_of res) h (request_flags-ReadsFlags _ _ _ _ _))))
