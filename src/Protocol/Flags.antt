-- ===== src/Protocol/Flags.antt =====
-- The flags byte: what the encoders set, the decoders test.
use cinder.Prelude.{◌≡◌, Bool, ℕ, ◌<◌, arith}
use cinder.Protocol.{
  or_flag, has_flag, k_flag_has_ttl, k_flag_has_expires_at, k_flag_has_trace, k_flag_has_auth,
  k_flag_has_tombstone,
}

-- The flags of a request, in the order in which encodeInto sets them.
abbrev pub request_flags : Bool → Bool → Bool → Bool → Bool → ℕ
request_flags ttl expires_at tombstone trace auth = or_flag auth k_flag_has_auth (
    or_flag trace k_flag_has_trace (
      or_flag tombstone k_flag_has_tombstone
        (or_flag expires_at k_flag_has_expires_at (or_flag ttl k_flag_has_ttl 0))))

pub record ReadsFlags (flags : ℕ) (ttl expires_at tombstone trace auth : Bool) : Type 0 where
  pub ttl_flag : has_flag flags k_flag_has_ttl ≡ ttl
  pub expires_at_flag : has_flag flags k_flag_has_expires_at ≡ expires_at
  pub tombstone_flag : has_flag flags k_flag_has_tombstone ≡ tombstone
  pub trace_flag : has_flag flags k_flag_has_trace ≡ trace
  pub auth_flag : has_flag flags k_flag_has_auth ≡ auth
  pub is_byte : flags < 256

pub request_flags-ReadsFlags : (a b c d e : Bool) → ReadsFlags (request_flags a b c d e) a b c d e
unfolding has_flag
request_flags-ReadsFlags a b c d e = record {
  ttl_flag = ground arith;
  expires_at_flag = ground arith;
  tombstone_flag = ground arith;
  trace_flag = ground arith;
  auth_flag = ground arith;
  is_byte = ground arith;
}
