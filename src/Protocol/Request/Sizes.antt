-- ===== src/Protocol/Request/Sizes.antt =====
-- The size that encodeInto computes is the number of bytes that it writes, and when it refuses.
use cinder.Prelude.{
  ℕ, ◌+◌, ◌≤◌, ◌≡◌, refl, ◌∙◌, Bool, false, not, ◌&&◌, Option, none, some, is_some, [], ◌∷◌, ◌++◌,
  Bytes, length, length-append, leb, ◌==◌, if◌then◌else◌, arith,
}
use cinder.Status.{ok, err, invalid}
use cinder.Wire.Laws.{length-be}
use cinder.Protocol.Opcodes.{opcode_code}
use cinder.Protocol.Fields.{length-expiry_bytes, length-trace}
use cinder.Protocol.Frame.{frame, header, sum, add_sizes-sum}
use cinder.Protocol.{add_sizes, size_if, frame_size_for_payload, k_max_payload_size}
use cinder.Protocol.Request.{
  Request, ttl_bytes, has_auth, has_trace, body_sizes, body_size, payload_size, payload, encode,
}

length-ttl_bytes : (o : Option ℕ) → length (ttl_bytes o) ≡ sum (size_if (is_some o) 4 [])
length-ttl_bytes none = refl
length-ttl_bytes (some ms) = length-be 4 ms ∙ omega arith

ruleset lengths = (length-append, length-be, length-ttl_bytes, length-expiry_bytes, length-trace)

-- The payload without its auth token.
abbrev unsigned_size : Request → ℕ
unsigned_size req = sum (body_sizes req) + sum (size_if (has_trace req) 16 [])

length-payload :
    (req : Request) (token : Bytes) → length (payload req token) ≡ unsigned_size req + length token
unfolding payload
length-payload req token = simp lengths (ground arith)

-- The key and the value are parts of the payload.
pub length-key_value :
    (req : Request) (token : Bytes) → length req.key + length req.value ≤ length (payload req token)
length-key_value req token = omega (arith, length-payload req token)

body_size-sum :
    (req : Request)
    → body_size req ≡ (
        if leb (sum (body_sizes req)) k_max_payload_size then some (sum (body_sizes req)) else none)
unfolding body_size
body_size-sum req = ground (arith, add_sizes-sum 0 (body_sizes req))

abbrev bad_token : Bytes → Bool
bad_token token = has_auth token && not (length token == 32)

trace_size :
    (b : Bool) (n : ℕ)
    → n ≤ k_max_payload_size
    → add_sizes n (size_if b 16 []) ≡ (
        if leb (n + sum (size_if b 16 [])) k_max_payload_size
        then some (n + sum (size_if b 16 []))
        else none)
trace_size b n h = add_sizes-sum n (size_if b 16 []) h

token_size :
    (token : Bytes) (n : ℕ)
    → n ≤ k_max_payload_size
    → bad_token token ≡ false
    → add_sizes n (size_if (has_auth token) 32 [])
      ≡ (if leb (n + length token) k_max_payload_size then some (n + length token) else none)
token_size [] n h g = add_sizes-sum n [] h ∙ refl
token_size (b ∷ bs) n h g = add_sizes-sum n (32 ∷ []) h ∙ ground arith

payload_size-unsigned :
    (req : Request) (token : Bytes)
    → payload_size req token ≡ (
        if leb (unsigned_size req) k_max_payload_size
        then (if bad_token token
            then err (invalid "auth token must be 32 bytes")
            else if leb (unsigned_size req + length token) k_max_payload_size
            then ok (unsigned_size req + length token)
            else err (invalid "message too large"))
        else err (invalid "message too large"))
unfolding payload_size
payload_size-unsigned req token = ground (
  arith,
  body_size-sum req,
  trace_size (has_trace req) (sum (body_sizes req)),
  token_size token (unsigned_size req),
)

encode-unsigned :
    (req : Request) (token : Bytes)
    → encode req token ≡ (
        if leb (unsigned_size req) k_max_payload_size
        then (if bad_token token
            then err (invalid "auth token must be 32 bytes")
            else if leb (unsigned_size req + length token) k_max_payload_size
            then ok (
                header (opcode_code req.opcode) (unsigned_size req + length token)
                ++ payload req token)
            else err (invalid "message too large"))
        else err (invalid "message too large"))
unfolding encode frame_size_for_payload
encode-unsigned req token = rw (payload_size-unsigned req token, encode) (ground arith)

-- On every request and token: encode answers "message too large" if the payload without the token is
-- over the limit; otherwise the token error if the token is neither empty nor 32 bytes long;
-- otherwise "message too large" if the whole payload is over the limit; otherwise the frame of the
-- payload, whose size field is the exact number of bytes written behind the header.
pub encode_request_exact :
    (req : Request) (token : Bytes)
    → encode req token ≡ (
        if leb (length (payload req [])) k_max_payload_size
        then (if has_auth token && not (length token == 32)
            then err (invalid "auth token must be 32 bytes")
            else if leb (length (payload req token)) k_max_payload_size
            then ok (frame (opcode_code req.opcode) (payload req token))
            else err (invalid "message too large"))
        else err (invalid "message too large"))
encode_request_exact req token =
    let plain : length (payload req []) ≡ unsigned_size req = length-payload req [] ∙ omega arith in
    rw (plain, length-payload req token) (encode-unsigned req token)

pub encode-length :
    (req : Request) (token out : Bytes)
    → encode req token ≡ ok out
    → (out ≡ frame (opcode_code req.opcode) (payload req token))
      × (length (payload req token) ≤ k_max_payload_size)
      × ((has_auth token && not (length token == 32)) ≡ false)
encode-length req token out h =
    let e = encode_request_exact req token in
    (ground (arith, e), ground (arith, e), ground (arith, e))
