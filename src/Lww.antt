-- ===== src/Lww.antt =====
-- include/cinder/common/types.hpp: versioned entries and the last-writer-wins order.
pub mod Packing
pub mod Order
use cinder.Prelude.{
  [], ℕ, ◌+◌, ◌-◌, ◌*◌, ◌/◌, ◌%◌, ◌^◌, Bool, true, false, not, Bytes, ltb, ◌==◌, if◌then◌else◌,
}

-- A bool as the bit that the C++ conditional `b ? 1U : 0` writes.
abbrev pub bit : Bool → ℕ
bit true = 1
bit false = 0

-- `expires_at` is a count of ticks of the steady clock.
pub record VersionedEntry : Type 0 where
  pub version_and_ttl : ℕ
  pub expires_at : ℕ
  pub writer_node_hash : ℕ
  pub value : Bytes

-- The default member initializers.
abbrev pub fresh_entry : VersionedEntry
fresh_entry = record { version_and_ttl = 0; expires_at = 0; writer_node_hash = 0; value = [] }

-- x >> 2, x & 1 and x & 2 of a uint64_t.
unfoldable pub version : VersionedEntry → ℕ
version e = e.version_and_ttl / 4

unfoldable pub has_ttl : VersionedEntry → Bool
has_ttl e = e.version_and_ttl % 2 == 1

unfoldable pub is_tombstone : VersionedEntry → Bool
is_tombstone e = e.version_and_ttl / 2 % 2 == 1

-- (v << 2) | (x & 3)
unfoldable pub set_version : VersionedEntry → ℕ → VersionedEntry
set_version e v = record e { version_and_ttl = v * 4 % 2 ^ 64 + e.version_and_ttl % 4 }

-- (x & ~1) | ttl
unfoldable pub set_has_ttl : VersionedEntry → Bool → VersionedEntry
set_has_ttl e ttl = record e { version_and_ttl = e.version_and_ttl / 2 * 2 + bit ttl }

-- (v << 2) | ttl
unfoldable pub set_version_and_ttl : VersionedEntry → ℕ → Bool → VersionedEntry
set_version_and_ttl e v ttl = record e { version_and_ttl = v * 4 % 2 ^ 64 + bit ttl }

-- (x & ~2) | (tombstone ? 2 : 0)
unfoldable pub set_tombstone : VersionedEntry → Bool → VersionedEntry
set_tombstone e dead = record e {
  version_and_ttl = e.version_and_ttl / 4 * 4 + bit dead * 2 + e.version_and_ttl % 2;
}

pub record LwwStamp : Type 0 where
  pub version : ℕ
  pub writer : ℕ
  pub tombstone : Bool

pub data LwwOrder : Type 0 where
  less equal greater : LwwOrder

abbrev less_if : Bool → LwwOrder
less_if b = if b then less else greater

-- operator!= of bool.
abbrev pub differ : Bool → Bool → Bool
differ true b = not b
differ false b = b

unfoldable pub compare_lww : LwwStamp → LwwStamp → LwwOrder
compare_lww a b =
    if not (a.version == b.version)
    then less_if (ltb a.version b.version)
    else if not (a.writer == b.writer)
    then less_if (ltb a.writer b.writer)
    else if differ a.tombstone b.tombstone
    then (if a.tombstone then greater else less)
    else equal

unfoldable pub lww_wins_over : LwwStamp → LwwStamp → Bool
unfolding compare_lww
lww_wins_over incoming resident = elim (compare_lww incoming resident) [
  | greater ↦ true
  | _ ↦ false
]

unfoldable pub lww_covers : LwwStamp → LwwStamp → Bool
unfolding compare_lww
lww_covers incoming resident = elim (compare_lww incoming resident) [ less ↦ false | _ ↦ true ]

unfoldable pub stamp_of : VersionedEntry → LwwStamp
unfolding version is_tombstone
stamp_of e = record { version = version e; writer = e.writer_node_hash; tombstone = is_tombstone e }
