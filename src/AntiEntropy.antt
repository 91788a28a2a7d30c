-- ===== src/AntiEntropy.antt =====
-- node/anti_entropy/codec.cpp and include/cinder/node/anti_entropy.hpp: the messages that replicas
-- exchange to find and repair differences. Masks are written as arithmetic: x & 1 is x % 2, x & ~1 is
-- zero where x / 2 is. XXH3 is a parameter.
pub mod Diff
pub mod Digests
pub mod Sync
use cinder.Prelude.{
  ℕ, zero, suc, ◌+◌, ◌-◌, ◌*◌, ◌/◌, ◌%◌, Bool, true, false, not, Option, none, some, List, [], ◌∷◌,
  ◌++◌, map, Bytes, length, take, drop, ltb, ◌==◌, if◌then◌else◌,
}
use cinder.Lww.{bit}
use cinder.Buffer.{
  le, Parser, pure, reject, guard, remaining, read, read_list, write_list, value_of, ◌>>=◌, ◌>>◌,
}

abbrev pub k_digest_magic : ℕ
k_digest_magic = 0x41454D32

abbrev pub k_group_digest_magic : ℕ
k_group_digest_magic = 0x41454D33

abbrev pub k_bucket_refinement_magic : ℕ
k_bucket_refinement_magic = 0x41454235

abbrev pub k_sync_magic : ℕ
k_sync_magic = 0x41454D53

abbrev pub k_buckets_per_group : ℕ
k_buckets_per_group = 16

abbrev pub k_meta_row_bytes : ℕ
k_meta_row_bytes = 29

pub record MetaRow : Type 0 where
  pub bucket : ℕ
  pub tombstone : Bool
  pub key_hash : ℕ
  pub version : ℕ
  pub writer : ℕ

pub record BucketRefinement : Type 0 where
  pub bucket_hashes : List (ℕ × ℕ)
  pub force_metadata : Bool

unfoldable pub encode_digest : List ℕ → Bytes
encode_digest digest = le 4 k_digest_magic ++ (le 4 (length digest) ++ write_list (le 8) digest)

abbrev pub parse_digest : ℕ → Parser (List ℕ)
parse_digest expected_buckets = do
  magic ← read 4
  guard (magic == k_digest_magic)
  n ← read 4
  guard (n == expected_buckets)
  left ← remaining
  guard (left == n * 8)
  read_list (read 8) n

unfoldable pub decode_digest : Bytes → ℕ → Option (List ℕ)
decode_digest bytes expected_buckets = value_of (parse_digest expected_buckets bytes)

unfoldable pub encode_group_digest : List ℕ → Bytes
encode_group_digest groups =
    le 4 k_group_digest_magic ++ (le 4 (length groups) ++ write_list (le 8) groups)

abbrev pub parse_group_digest : ℕ → Parser (List ℕ)
parse_group_digest expected_groups = do
  magic ← read 4
  guard (magic == k_group_digest_magic)
  count ← read 4
  guard (count == expected_groups)
  left ← remaining
  guard (left == count * 8)
  read_list (read 8) count

unfoldable pub decode_group_digest : Bytes → ℕ → Option (List ℕ)
decode_group_digest bytes expected_groups = value_of (parse_group_digest expected_groups bytes)

abbrev pub write_bucket_hash : ℕ × ℕ → Bytes
write_bucket_hash (bucket, hash) = le 4 bucket ++ le 8 hash

unfoldable pub encode_bucket_refinement : BucketRefinement → Bytes
encode_bucket_refinement request =
    le 4 k_bucket_refinement_magic
    ++ (le 4 (bit request.force_metadata)
        ++ (le 4 (length request.bucket_hashes)
            ++ write_list write_bucket_hash request.bucket_hashes))

abbrev pub read_bucket_hash : ℕ → Parser (ℕ × ℕ)
read_bucket_hash expected_groups = do
  bucket ← read 4
  guard (ltb bucket expected_groups)
  hash ← read 8
  pure (bucket, hash)

abbrev pub parse_bucket_refinement : ℕ → Parser BucketRefinement
parse_bucket_refinement expected_groups = do
  magic ← read 4
  guard (magic == k_bucket_refinement_magic)
  flags ← read 4
  guard (flags / 2 == 0)
  bucket_count ← read 4
  left ← remaining
  guard (left == bucket_count * 12)
  bucket_hashes ← read_list (read_bucket_hash expected_groups) bucket_count
  pure (record { bucket_hashes = bucket_hashes; force_metadata = not (flags % 2 == 0) })

unfoldable pub decode_bucket_refinement : Bytes → ℕ → Option BucketRefinement
decode_bucket_refinement bytes expected_groups =
    value_of (parse_bucket_refinement expected_groups bytes)

abbrev pub write_row : MetaRow → Bytes
write_row r =
    le 4 r.bucket
    ++ (le 8 r.key_hash ++ (le 8 r.version ++ (le 8 r.writer ++ le 1 (bit r.tombstone))))

unfoldable pub encode_meta_rows : List MetaRow → Bytes
encode_meta_rows rows = le 4 (length rows) ++ write_list write_row rows

abbrev pub read_row : Parser MetaRow
read_row = do
  bucket ← read 4
  key_hash ← read 8
  version ← read 8
  writer ← read 8
  tombstone ← read 1
  guard (not (ltb 1 tombstone))
  pure (record {
    bucket = bucket;
    tombstone = not (tombstone == 0);
    key_hash = key_hash;
    version = version;
    writer = writer;
  })

abbrev pub parse_meta_rows : Parser (List MetaRow)
parse_meta_rows = do
  n ← read 4
  left ← remaining
  guard (left == n * k_meta_row_bytes)
  read_list read_row n

unfoldable pub decode_meta_rows : Bytes → Option (List MetaRow)
decode_meta_rows bytes = value_of (parse_meta_rows bytes)

-- The bytes that groupDigests hashes for one group: its buckets with their indices, from `bucket` on.
abbrev pub material : ℕ → List ℕ → Bytes
material bucket [] = []
material bucket (h ∷ hs) = le 4 bucket ++ (le 8 h ++ material (suc bucket) hs)

module _ (xxh3 : Bytes → ℕ) where
  -- The groups from `group` on; `count` of them.
  abbrev pub groups_from : List ℕ → ℕ → ℕ → List ℕ
  groups_from bucket_hashes zero group = []
  groups_from bucket_hashes (suc count) group =
      let begin = group * k_buckets_per_group in
      xxh3 (material begin (take k_buckets_per_group (drop begin bucket_hashes)))
      ∷ groups_from bucket_hashes count (suc group)

  unfoldable pub group_digests : List ℕ → List ℕ
  group_digests bucket_hashes =
      groups_from bucket_hashes
        ((length bucket_hashes + k_buckets_per_group - 1) / k_buckets_per_group) 0
