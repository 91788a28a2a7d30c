-- ===== src/Lww/Packing.antt =====
-- The bit fields of VersionedEntry.version_and_ttl.
use cinder.Prelude.{ℕ, ◌%◌, ◌^◌, ◌≡◌, Bool, false, arith}
use cinder.Lww.{
  VersionedEntry, version, has_ttl, is_tombstone, set_version, set_has_ttl, set_version_and_ttl,
  set_tombstone,
}

-- How each setter changes each field.
pub record Independent (e : VersionedEntry) (v : ℕ) (b : Bool) : Type 0 where
  pub set_version_version : version (set_version e v) ≡ v % 2 ^ 62
  pub set_version_has_ttl : has_ttl (set_version e v) ≡ has_ttl e
  pub set_version_is_tombstone : is_tombstone (set_version e v) ≡ is_tombstone e
  pub set_has_ttl_version : version (set_has_ttl e b) ≡ version e
  pub set_has_ttl_has_ttl : has_ttl (set_has_ttl e b) ≡ b
  pub set_has_ttl_is_tombstone : is_tombstone (set_has_ttl e b) ≡ is_tombstone e
  pub set_tombstone_version : version (set_tombstone e b) ≡ version e
  pub set_tombstone_has_ttl : has_ttl (set_tombstone e b) ≡ has_ttl e
  pub set_tombstone_is_tombstone : is_tombstone (set_tombstone e b) ≡ b
  pub set_both_version : version (set_version_and_ttl e v b) ≡ v % 2 ^ 62
  pub set_both_has_ttl : has_ttl (set_version_and_ttl e v b) ≡ b
  pub set_both_is_tombstone : is_tombstone (set_version_and_ttl e v b) ≡ false

-- Each setter changes its own field alone, but for the one that writes a version and the has-TTL bit,
-- which clears the tombstone bit; a version keeps its low 62 bits.
pub setters-Independent : (e : VersionedEntry) (v : ℕ) (b : Bool) → Independent e v b
unfolding version has_ttl is_tombstone set_version set_has_ttl set_version_and_ttl set_tombstone
setters-Independent e v b = record {
  set_version_version = ground arith;
  set_version_has_ttl = ground arith;
  set_version_is_tombstone = ground arith;
  set_has_ttl_version = ground arith;
  set_has_ttl_has_ttl = ground arith;
  set_has_ttl_is_tombstone = ground arith;
  set_tombstone_version = ground arith;
  set_tombstone_has_ttl = ground arith;
  set_tombstone_is_tombstone = ground arith;
  set_both_version = ground arith;
  set_both_has_ttl = ground arith;
  set_both_is_tombstone = ground arith;
}
