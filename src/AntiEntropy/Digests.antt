-- ===== src/AntiEntropy/Digests.antt =====
-- Digests, refinements and metadata rows: what is encoded is decoded again.
use cinder.Prelude.{
  ℕ, ◌*◌, ◌/◌, ◌%◌, ◌^◌, ◌<◌, ◌≤◌, ◌≡◌, refl, ap, ◌∙◌, Bool, true, false, not, some, List, [],
  Bytes, length, length-append, ltb, ◌==◌, arith,
}
use cinder.Lww.{bit}
use cinder.Buffer.{le, got, continue, pure, guard, read, write_list, value_of, ◌>>◌}
use cinder.Buffer.Laws.{Reads, read-Reads, bind-Reads, last-Reads, after-Reads, length-le}
use cinder.Buffer.Lists.{
  Each, whole_list, pass, IsU64, same, exact_size, elements, hashes-Reads, guard-Reads,
}
use cinder.AntiEntropy.{
  MetaRow, BucketRefinement, k_digest_magic, k_group_digest_magic, k_bucket_refinement_magic,
  encode_digest, decode_digest, encode_group_digest, decode_group_digest, write_bucket_hash,
  read_bucket_hash, encode_bucket_refinement, decode_bucket_refinement, write_row, read_row,
  encode_meta_rows, decode_meta_rows,
}

pub decode-encode_digest :
    (digest : List ℕ)
    → length digest < 2 ^ 32
    → Each IsU64 digest
    → decode_digest (encode_digest digest) (length digest) ≡ some digest
unfolding decode_digest encode_digest
decode-encode_digest digest n t = ap value_of (
    after-Reads (read 4) _ k_digest_magic (le 4 k_digest_magic) _ (got digest [])
      (read-Reads 4 k_digest_magic (omega arith))
      (after-Reads (read 4) _ (length digest) (le 4 (length digest)) _ (got digest [])
        (read-Reads 4 (length digest) n)
        (pass (length digest == length digest) _ (write_list (le 8) digest) (got digest [])
          (same (length digest))
          (elements IsU64 (read 8) (le 8) 8 (λ h. length-le 8 h) hashes-Reads digest t))))

pub decode-encode_group_digest :
    (groups : List ℕ)
    → length groups < 2 ^ 32
    → Each IsU64 groups
    → decode_group_digest (encode_group_digest groups) (length groups) ≡ some groups
unfolding decode_group_digest encode_group_digest
decode-encode_group_digest groups n t = ap value_of (
    after-Reads (read 4) _ k_group_digest_magic (le 4 k_group_digest_magic) _ (got groups [])
      (read-Reads 4 k_group_digest_magic (omega arith))
      (after-Reads (read 4) _ (length groups) (le 4 (length groups)) _ (got groups [])
        (read-Reads 4 (length groups) n)
        (pass (length groups == length groups) _ (write_list (le 8) groups) (got groups [])
          (same (length groups))
          (elements IsU64 (read 8) (le 8) 8 (λ h. length-le 8 h) hashes-Reads groups t))))

bit_byte : (b : Bool) → bit b < 256
bit_byte true = omega arith
bit_byte false = omega arith

bit_small : (b : Bool) → bit b < 2 ^ 32
bit_small b = omega (arith, bit_byte b)

flag_fits : (b : Bool) → (bit b / 2 == 0) ≡ true
flag_fits true = refl
flag_fits false = refl

flag_back : (b : Bool) → not (bit b % 2 == 0) ≡ b
flag_back true = refl
flag_back false = refl

tombstone_back :
    (r : MetaRow) (rest : Bytes)
    → (guard (not (ltb 1 (bit r.tombstone)))
          >> pure (record {
            bucket = r.bucket;
            tombstone = not (bit r.tombstone == 0);
            key_hash = r.key_hash;
            version = r.version;
            writer = r.writer;
          }))
        rest
      ≡ got r rest
tombstone_back r rest = ground arith

-- A bucket of the receiver's and a hash of 64 bits.
abbrev pub IsBucketHash : ℕ → ℕ × ℕ → Type 0
IsBucketHash expected (bucket, hash) = (bucket < expected) × (hash < 2 ^ 64)

bucket_hash-Reads :
    (expected : ℕ)
    → expected ≤ 2 ^ 32
    → (a : ℕ × ℕ) → IsBucketHash expected a
    → Reads (read_bucket_hash expected) a (write_bucket_hash a)
bucket_hash-Reads expected small (bucket, hash) (t, u) =
    bind-Reads (read 4) _ bucket _ _ _ (read-Reads 4 bucket (omega (arith, t, small))) (
      guard-Reads (ltb bucket expected) _ (bucket, hash) (le 8 hash) (ground (arith, t))
        (last-Reads (read 8) _ hash _ _ (read-Reads 8 hash u) (λ r. refl)))

length-write_bucket_hash : (a : ℕ × ℕ) → length (write_bucket_hash a) ≡ 12
length-write_bucket_hash (bucket, hash) =
    omega (arith, length-append (le 4 bucket) (le 8 hash), length-le 4 bucket, length-le 8 hash)

-- A refinement with fewer than 2^32 buckets, each below the number of the receiver's groups (at most
-- 2^32), and with hashes of 64 bits is decoded to itself, its flag included.
pub decode-encode_bucket_refinement :
    (request : BucketRefinement) (expected : ℕ)
    → expected ≤ 2 ^ 32
    → length request.bucket_hashes < 2 ^ 32
    → Each (IsBucketHash expected) request.bucket_hashes
    → decode_bucket_refinement (encode_bucket_refinement request) expected ≡ some request
unfolding decode_bucket_refinement encode_bucket_refinement
decode-encode_bucket_refinement request expected small n t =
    let hashes = request.bucket_hashes in
    let count = length hashes in
    let flags = bit request.force_metadata in
    ap value_of (
      after-Reads (read 4) _ k_bucket_refinement_magic (le 4 k_bucket_refinement_magic) _
        (got request []) (read-Reads 4 k_bucket_refinement_magic (omega arith))
        (after-Reads (read 4) _ flags (le 4 flags) _ (got request [])
          (read-Reads 4 flags (bit_small request.force_metadata))
          (pass (flags / 2 == 0) _ _ (got request []) (flag_fits request.force_metadata) (
            after-Reads (read 4) _ count (le 4 count) _ (got request []) (read-Reads 4 count n) (
              pass (length (write_list write_bucket_hash hashes) == count * 12) _
                (write_list write_bucket_hash hashes) (got request [])
                (exact_size write_bucket_hash 12 length-write_bucket_hash hashes)
                (ap
                    (λ o. continue o (λ xs.
                      pure (record { bucket_hashes = xs; force_metadata = not (flags % 2 == 0) })))
                    (whole_list (IsBucketHash expected) (read_bucket_hash expected)
                      write_bucket_hash (bucket_hash-Reads expected small) hashes t)
                  ∙ ap (λ b. got (record { bucket_hashes = hashes; force_metadata = b }) [])
                      (flag_back request.force_metadata)))))))

-- The fields of a row are in the ranges of their types.
abbrev pub IsRow : MetaRow → Type 0
IsRow r = (r.bucket < 2 ^ 32) × (r.key_hash < 2 ^ 64) × (r.version < 2 ^ 64) × (r.writer < 2 ^ 64)

length-write_row : (r : MetaRow) → length (write_row r) ≡ 29
length-write_row r = simp (length-append, length-le) (omega arith)

row-Reads : (r : MetaRow) → IsRow r → Reads read_row r (write_row r)
row-Reads r t = bind-Reads (read 4) _ r.bucket _ _ _ (read-Reads 4 r.bucket t.0) (
    bind-Reads (read 8) _ r.key_hash _ _ _ (read-Reads 8 r.key_hash t.1) (
      bind-Reads (read 8) _ r.version _ _ _ (read-Reads 8 r.version t.2) (
        bind-Reads (read 8) _ r.writer _ _ _ (read-Reads 8 r.writer t.3) (
          last-Reads (read 1) _ (bit r.tombstone) _ _
            (read-Reads 1 (bit r.tombstone) (bit_byte r.tombstone)) (tombstone_back r)))))

-- Fewer than 2^32 metadata rows, with fields in the ranges of their types, are decoded to themselves.
pub decode-encode_meta_rows :
    (rows : List MetaRow)
    → length rows < 2 ^ 32
    → Each IsRow rows
    → decode_meta_rows (encode_meta_rows rows) ≡ some rows
unfolding decode_meta_rows encode_meta_rows
decode-encode_meta_rows rows n t = ap value_of (
    after-Reads (read 4) _ (length rows) (le 4 (length rows)) _ (got rows [])
      (read-Reads 4 (length rows) n)
      (elements IsRow read_row write_row 29 length-write_row row-Reads rows t))
