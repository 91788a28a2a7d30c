-- ===== src/Wal/Records.antt =====
-- One record: written and read back, cut short, and with a digest that does not fit.
use cinder.Prelude.{
  ℕ, ◌^◌, ◌<◌, ◌≡◌, refl, ap, Bool, true, false, [], ◌++◌, Bytes, length, length-append, ◌==◌,
  ==_iff, arith,
}
use cinder.Lww.{bit}
use cinder.Buffer.{le, got, bad, read, read_string}
use cinder.Buffer.Laws.{
  Reads, read-Reads, read_string-Reads, bind-Reads, last-Reads, after-Reads, pure-Reads, length-le,
}
use cinder.Wal.{
  v2, Op, set, del, op_code, check_op, WalEntry, ParsedEntry, read_entry_fields, read_tombstone,
  checksum_bytes, record_bytes, to_wal_entry, encode_record, read_record, encoded_record_size,
}

-- The fields are in the ranges of their types, and the lengths are below 2^32.
pub record IsTyped (e : WalEntry) : Type 0 where
  pub key : length e.key < 2 ^ 32
  pub value : length e.value < 2 ^ 32
  pub version : e.version < 2 ^ 64
  pub writer_node_hash : e.writer_node_hash < 2 ^ 64
  pub expires_at_ms : e.expires_at_ms < 2 ^ 64

abbrev pub parsed : WalEntry → ParsedEntry
parsed e = record {
  op = e.op;
  key_len = length e.key;
  key = e.key;
  val_len = length e.value;
  value = e.value;
  version = e.version;
  writer_node_hash = e.writer_node_hash;
  expires_ms = e.expires_at_ms;
  has_ttl = bit e.has_ttl;
  tombstone = bit e.is_tombstone;
}

check_op-op_code : (op : Op) → Reads (check_op (op_code op)) op []
check_op-op_code set = pure-Reads set
check_op-op_code del = pure-Reads del

tombstone-Reads : (b : Bool) → Reads (read_tombstone v2) (bit b) (le 1 (bit b))
tombstone-Reads true = last-Reads (read 1) _ 1 1 (le 1 1) (read-Reads 1 1 (omega arith)) (λ r. refl)
tombstone-Reads false =
    last-Reads (read 1) _ 0 0 (le 1 0) (read-Reads 1 0 (omega arith)) (λ r. refl)

bit-Reads : (b : Bool) → Reads (read 1) (bit b) (le 1 (bit b))
bit-Reads true = read-Reads 1 1 (omega arith)
bit-Reads false = read-Reads 1 0 (omega arith)

op-Reads : (op : Op) → Reads (read 1) (op_code op) (le 1 (op_code op))
op-Reads set = read-Reads 1 1 (omega arith)
op-Reads del = read-Reads 1 2 (omega arith)

fields-Reads : (e : WalEntry) → IsTyped e → Reads (read_entry_fields v2) (parsed e) (record_bytes e)
unfolding read_entry_fields record_bytes
fields-Reads e t = bind-Reads (read 1) _ (op_code e.op) _ _ _ (op-Reads e.op) (
    bind-Reads (check_op (op_code e.op)) _ e.op _ [] _ (check_op-op_code e.op) (
      bind-Reads (read 4) _ (length e.key) _ _ _ (read-Reads 4 (length e.key) t.key) (
        bind-Reads (read_string (length e.key)) _ e.key _ _ _ (read_string-Reads e.key) (
          bind-Reads (read 4) _ (length e.value) _ _ _ (read-Reads 4 (length e.value) t.value) (
            bind-Reads (read_string (length e.value)) _ e.value _ _ _ (read_string-Reads e.value) (
              bind-Reads (read 8) _ e.version _ _ _ (read-Reads 8 e.version t.version) (
                bind-Reads (read 8) _ e.writer_node_hash _ _ _
                  (read-Reads 8 e.writer_node_hash t.writer_node_hash)
                  (bind-Reads (read 8) _ e.expires_at_ms _ _ _
                    (read-Reads 8 e.expires_at_ms t.expires_at_ms)
                    (bind-Reads (read 1) _ (bit e.has_ttl) _ _ _ (bit-Reads e.has_ttl) (
                      last-Reads (read_tombstone v2) _ (bit e.is_tombstone) _ _
                        (tombstone-Reads e.is_tombstone) (λ r. refl)))))))))))

checksum_bytes-parsed : (e : WalEntry) → checksum_bytes (parsed e) v2 ≡ record_bytes e
unfolding checksum_bytes record_bytes
checksum_bytes-parsed e = refl

to_wal_entry-parsed : (e : WalEntry) → to_wal_entry (parsed e) ≡ e
unfolding to_wal_entry
to_wal_entry-parsed e = ground arith

module _ (xxh3 : Bytes → ℕ) where
  pub record-Reads :
      (e : WalEntry)
      → IsTyped e
      → xxh3 (record_bytes e) < 2 ^ 64
      → Reads (read_record xxh3 v2) e (encode_record xxh3 e)
  unfolding read_record encode_record
  record-Reads e t h =
      bind-Reads (read_entry_fields v2) _ (parsed e) e (record_bytes e)
        (le 8 (xxh3 (record_bytes e))) (fields-Reads e t)
        (last-Reads (read 8) _ (xxh3 (record_bytes e)) e (le 8 (xxh3 (record_bytes e)))
          (read-Reads 8 (xxh3 (record_bytes e)) h)
          (λ r. rw (checksum_bytes-parsed e) (
            rw ((==_iff (xxh3 (record_bytes e)) (xxh3 (record_bytes e))).1 refl)
              (ap (λ x. got x r) (to_wal_entry-parsed e)))))

  -- A record whose digest is another number than its bytes' is rejected, and the reader is behind it.
  pub wrong_digest :
      (e : WalEntry) (digest : ℕ) (rest : Bytes)
      → IsTyped e
      → digest < 2 ^ 64
      → (xxh3 (record_bytes e) == digest) ≡ false
      → read_record xxh3 v2 (record_bytes e ++ (le 8 digest ++ rest)) ≡ bad rest
  unfolding read_record
  wrong_digest e digest rest t h w =
      after-Reads (read_entry_fields v2) _ (parsed e) (record_bytes e) (le 8 digest ++ rest)
        (bad rest) (fields-Reads e t)
        (after-Reads (read 8) _ digest (le 8 digest) rest (bad rest) (read-Reads 8 digest h)
          (rw (checksum_bytes-parsed e) (rw w refl)))

  pub length-encode_record : (e : WalEntry) → length (encode_record xxh3 e) ≡ encoded_record_size e
  unfolding encode_record record_bytes encoded_record_size
  length-encode_record e = simp (length-append, length-le) (omega arith)
