-- ===== src/Protocol/Response/Sizes.antt =====
-- The size that encodeInto computes for a response, and when it refuses.
use cinder.Prelude.{
  ℕ, ◌+◌, ◌≤◌, ◌≡◌, ◌∙◌, ap, Bool, Option, none, some, is_some, List, [], ◌∷◌, ◌++◌, Bytes, length,
  length-append, leb, ltb, if◌then◌else◌, arith,
}
use cinder.Status.{ok, err, invalid}
use cinder.Wire.Laws.{length-be}
use cinder.Protocol.Frame.{frame, header, sum, add_sizes-sum}
use cinder.Protocol.Fields.{length-expiry_bytes, length-trace}
use cinder.Protocol.{add_sizes, size_if, frame_size_for_payload, u32_max, k_max_payload_size}
use cinder.Protocol.Response.{
  Response, has_version_meta, has_trace, value_or_empty, body_sizes, payload_size, payload, encode,
  encode_sized,
}

ruleset lengths = (length-append, length-be, length-expiry_bytes, length-trace)

pub length-payload : (res : Response) → length (payload res) ≡ sum (body_sizes res)
unfolding payload
length-payload res = simp lengths (ground arith)

value-le :
    (o : Option Bytes) (a b : Bool) (sizes : List ℕ)
    → length (value_or_empty o)
      ≤ sum (6 ∷ size_if a 16 (size_if b 8 (size_if (is_some o) (length (value_or_empty o)) sizes)))
value-le o a b sizes = ground arith

payload_size-sum :
    (res : Response)
    → payload_size res ≡ (
        if leb (sum (body_sizes res)) k_max_payload_size then some (sum (body_sizes res)) else none)
unfolding payload_size
payload_size-sum res =
    fits (length (value_or_empty res.value)) (body_sizes res)
      (add_sizes-sum 0 (body_sizes res) (omega arith))
      (value-le res.value (has_version_meta res) (is_some res.expires_at)
        (size_if (has_trace res) 16 []))
  where
    fits :
        (value : ℕ) (sizes : List ℕ)
        → add_sizes 0 sizes
          ≡ (if leb (0 + sum sizes) k_max_payload_size then some (0 + sum sizes) else none)
        → value ≤ sum sizes
        → (if ltb u32_max value then none else add_sizes 0 sizes)
          ≡ (if leb (sum sizes) k_max_payload_size then some (sum sizes) else none)
    fits value sizes e h = ground (arith, e)

encode_sized-sum :
    (bytes : Bytes) (n : ℕ)
    → encode_sized bytes (if leb n k_max_payload_size then some n else none) ≡ (
        if leb n k_max_payload_size
        then ok (header 0 n ++ bytes)
        else err (invalid "message too large"))
unfolding frame_size_for_payload
encode_sized-sum bytes n = ground arith

-- On every response: encode answers the frame of the payload if the payload is within the limit,
-- with a size field that is the number of bytes written behind the header, and "message too large"
-- otherwise.
pub encode_response_exact :
    (res : Response)
    → encode res ≡ (
        if leb (length (payload res)) k_max_payload_size
        then ok (frame 0 (payload res))
        else err (invalid "message too large"))
unfolding encode
encode_response_exact res = rw (length-payload res) (
    ap (encode_sized (payload res)) (payload_size-sum res)
    ∙ encode_sized-sum (payload res) (sum (body_sizes res)))
