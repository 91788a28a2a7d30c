-- ===== src/Snapshot/RoundTrip.antt =====
-- A snapshot that was written is read back; one that was cut short is an error.
use mathlib.Core.List.{append-nil}
use cinder.Prelude.{
  ℕ, ◌^◌, ◌<◌, ◌≡◌, refl, sym, subst, ap, ◌∙◌, Bool, true, false, not, [], ◌++◌, Bytes, length,
  length-append, ◌==◌, arith,
}
use cinder.Status.{ok}
use cinder.Lww.{bit}
use cinder.Buffer.{le, read, read_string}
use cinder.Buffer.Laws.{read-Reads, read_string-Reads, length-le}
use cinder.Buffer.Lists.{IsU64}
use cinder.Snapshot.{
  SnapshotEntry, format_v2, Tail, field, check, within, read_fixed, read_tombstone_byte, tail_size,
  read_snapshot_entry, encode_snapshot_entry,
}
use cinder.Snapshot.Parses.{Parses, field-Parses, bind-Parses, last-Parses}

-- The fields are in the ranges of their types, and the lengths are below 2^32.
pub record IsTypedEntry (e : SnapshotEntry) : Type 0 where
  pub key : length e.key < 2 ^ 32
  pub value : length e.value < 2 ^ 32
  pub version : IsU64 e.version
  pub writer_node_hash : IsU64 e.writer_node_hash
  pub expires_at_ms : IsU64 e.expires_at_ms
  pub freq : IsU64 e.freq

abbrev fixed_bytes : SnapshotEntry → Bytes
fixed_bytes e =
    le 8 e.version
    ++ (le 8 e.writer_node_hash
        ++ (le 8 e.expires_at_ms
            ++ (le 1 (bit e.has_ttl) ++ (le 8 e.freq ++ le 1 (bit e.tombstone)))))

abbrev tail_of : SnapshotEntry → Tail
tail_of e = record {
  version = e.version;
  writer_hash = e.writer_node_hash;
  expires_ms = e.expires_at_ms;
  has_ttl = bit e.has_ttl;
  freq = e.freq;
  tombstone = bit e.tombstone;
}

tombstone-Parses : (b : Bool) → Parses (read_tombstone_byte format_v2) (bit b) (le 1 (bit b))
unfolding read_tombstone_byte check
tombstone-Parses true =
    last-Parses (field (read 1) "truncated snapshot tombstone") _ 1 1 (le 1 1)
      (field-Parses (read 1) "truncated snapshot tombstone" 1 (le 1 1)
        (read-Reads 1 1 (omega arith)))
      (λ r. refl)
tombstone-Parses false =
    last-Parses (field (read 1) "truncated snapshot tombstone") _ 0 0 (le 1 0)
      (field-Parses (read 1) "truncated snapshot tombstone" 0 (le 1 0)
        (read-Reads 1 0 (omega arith)))
      (λ r. refl)

bit-Parses : (message : _) (b : Bool) → Parses (field (read 1) message) (bit b) (le 1 (bit b))
bit-Parses message true = field-Parses (read 1) message 1 (le 1 1) (read-Reads 1 1 (omega arith))
bit-Parses message false = field-Parses (read 1) message 0 (le 1 0) (read-Reads 1 0 (omega arith))

u64-Parses : (message : _) (n : ℕ) → IsU64 n → Parses (field (read 8) message) n (le 8 n)
u64-Parses message n h = field-Parses (read 8) message n (le 8 n) (read-Reads 8 n h)

fixed-Parses :
    (e : SnapshotEntry) → IsTypedEntry e → Parses (read_fixed format_v2) (tail_of e) (fixed_bytes e)
unfolding read_fixed
fixed-Parses e t = bind-Parses _ _ e.version _ _ _ (u64-Parses _ e.version t.version) (
    bind-Parses _ _ e.writer_node_hash _ _ _ (u64-Parses _ e.writer_node_hash t.writer_node_hash) (
      bind-Parses _ _ e.expires_at_ms _ _ _ (u64-Parses _ e.expires_at_ms t.expires_at_ms) (
        bind-Parses _ _ (bit e.has_ttl) _ _ _ (bit-Parses _ e.has_ttl) (
          bind-Parses _ _ e.freq _ _ _ (u64-Parses _ e.freq t.freq) (
            last-Parses (read_tombstone_byte format_v2) _ (bit e.tombstone) _ _
              (tombstone-Parses e.tombstone) (λ r. refl))))))

length-fixed_bytes : (e : SnapshotEntry) → length (fixed_bytes e) ≡ 34
length-fixed_bytes e = simp (length-append, length-le) (omega arith)

fixed_whole :
    (e : SnapshotEntry) → IsTypedEntry e → read_fixed format_v2 (fixed_bytes e) ≡ ok (tail_of e, [])
fixed_whole e t =
    ap (read_fixed format_v2) (sym (append-nil (fixed_bytes e))) ∙ (fixed-Parses e t).whole []

of_bit : (b : Bool) → not (bit b == 0) ≡ b
of_bit true = refl
of_bit false = refl

-- The block that ends an entry, read as bytes and then field by field.
block-Parses :
    (e : SnapshotEntry)
    → Parses
        (field (read_string (tail_size format_v2)) "truncated snapshot entry")
        (fixed_bytes e)
        (fixed_bytes e)
block-Parses e =
    subst
      (λ (n : ℕ).
        Parses (field (read_string n) "truncated snapshot entry") (fixed_bytes e) (fixed_bytes e))
      (length-fixed_bytes e)
      (field-Parses (read_string (length (fixed_bytes e))) "truncated snapshot entry"
        (fixed_bytes e) (fixed_bytes e) (read_string-Reads (fixed_bytes e)))

pub entry-Parses :
    (e : SnapshotEntry)
    → IsTypedEntry e
    → Parses (read_snapshot_entry format_v2) e (encode_snapshot_entry e)
unfolding read_snapshot_entry encode_snapshot_entry
entry-Parses e t =
    bind-Parses _ _ (length e.key) _ _ _
      (field-Parses (read 4) "truncated snapshot key" (length e.key) _
        (read-Reads 4 (length e.key) t.key))
      (bind-Parses _ _ e.key _ _ _
        (field-Parses (read_string (length e.key)) "truncated snapshot key data" e.key _
          (read_string-Reads e.key))
        (bind-Parses _ _ (length e.value) _ _ _
          (field-Parses (read 4) "truncated snapshot value" (length e.value) _
            (read-Reads 4 (length e.value) t.value))
          (bind-Parses _ _ e.value _ _ _
            (field-Parses (read_string (length e.value)) "truncated snapshot value data" e.value _
              (read_string-Reads e.value))
            (last-Parses _ _ (fixed_bytes e) _ _ (block-Parses e) (λ r.
              rw (fixed_whole e t, within) (rw (of_bit e.has_ttl, of_bit e.tombstone) refl))))))
