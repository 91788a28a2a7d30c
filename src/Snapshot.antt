-- ===== src/Snapshot.antt =====
-- src/store/snapshot.cpp and include/cinder/store/snapshot.hpp: writing a snapshot in chunks, where
-- every file operation succeeds, and reading one from its bytes. The reader's counter of the bytes that
-- are left is the length of what is behind the position: it starts so, and each read takes the same off
-- both. Spans are left out.
pub mod Chunks
pub mod Files
pub mod Parses
pub mod RoundTrip
use cinder.Prelude.{
  ℕ, zero, suc, ◌+◌, ◌-◌, ◌*◌, ◌/◌, ◌^◌, Bool, true, false, not, ◌||◌, Option, none, some, List, [],
  ◌∷◌, ◌++◌, Bytes, length, ltb, ◌==◌, if◌then◌else◌,
}
use cinder.Status.{Result, Errc, ok, err, invalid}
use cinder.Lww.{bit}
use cinder.Buffer.{le, got, torn, bad, Parser, read, read_string}
use Prim.Native.String.{String}

abbrev pub k_snapshot_magic : ℕ
k_snapshot_magic = 0x43534E50

abbrev pub k_snapshot_format_version : ℕ
k_snapshot_format_version = 2

pub data SnapshotFormat : Type 0 where
  format_v1 format_v2 : SnapshotFormat

unfoldable pub parse_snapshot_format : ℕ → Option SnapshotFormat
parse_snapshot_format v = if v == 1 then some format_v1 else if v == 2 then some format_v2 else none

abbrev pub snapshot_has_tombstone : SnapshotFormat → Bool
snapshot_has_tombstone format_v1 = false
snapshot_has_tombstone format_v2 = true

pub record SnapshotEntry : Type 0 where
  pub key : Bytes
  pub value : Bytes
  pub version : ℕ
  pub writer_node_hash : ℕ
  pub expires_at_ms : ℕ
  pub has_ttl : Bool
  pub tombstone : Bool
  pub freq : ℕ

pub record SnapshotData : Type 0 where
  pub next_version : ℕ
  pub entries : List SnapshotEntry

-- encodeSnapshotEntry
unfoldable pub encode_snapshot_entry : SnapshotEntry → Bytes
encode_snapshot_entry e =
    le 4 (length e.key)
    ++ (e.key
        ++ (le 4 (length e.value)
            ++ (e.value
                ++ (le 8 e.version
                    ++ (le 8 e.writer_node_hash
                        ++ (le 8 e.expires_at_ms
                            ++ (le 1 (bit e.has_ttl)
                                ++ (le 8 e.freq ++ le 1 (bit e.tombstone)))))))))

abbrev pub k_chunk_bytes : ℕ
k_chunk_bytes = 262_144

-- The stream and the chunk that is not yet in it.
pub record ChunkWriter : Type 0 where
  pub out : Bytes
  pub chunk : Bytes

unfoldable pub flush_chunk : ChunkWriter → ChunkWriter
flush_chunk w = record { out = w.out ++ w.chunk; chunk = [] }

unfoldable pub entry_size : SnapshotEntry → ℕ
entry_size e = 4 + length e.key + 4 + length e.value + 8 * 4 + 1 + 1

unfoldable pub entry_too_large : SnapshotEntry → Bool
entry_too_large e = ltb (2 ^ 32 - 1) (length e.key) || ltb (2 ^ 32 - 1) (length e.value)

-- One round of the loop over the entries.
unfoldable pub write_entry : ChunkWriter → SnapshotEntry → ChunkWriter
unfolding flush_chunk encode_snapshot_entry entry_size
write_entry w e =
    let flushed = flush_chunk w in
    if ltb k_chunk_bytes (entry_size e)
    then record flushed { out = flushed.out ++ encode_snapshot_entry e }
    else if ltb k_chunk_bytes (length w.chunk + entry_size e)
    then record flushed { chunk = encode_snapshot_entry e }
    else record w { chunk = w.chunk ++ encode_snapshot_entry e }

unfoldable pub write_entries : ChunkWriter → List SnapshotEntry → Result ChunkWriter
unfolding entry_too_large write_entry
write_entries w [] = ok w
write_entries w (e ∷ es) =
    let rest = write_entries (write_entry w e) es in
    if entry_too_large e then err (invalid "snapshot entry too large") else rest

unfoldable pub snapshot_header : ℕ → ℕ → Bytes
snapshot_header next_version count =
    le 4 k_snapshot_magic ++ (le 4 k_snapshot_format_version ++ (le 8 next_version ++ le 4 count))

-- SnapshotWriter::write: the bytes of the file that is published.
unfoldable pub write_snapshot : ℕ → List SnapshotEntry → Result Bytes
unfolding snapshot_header write_entries flush_chunk
write_snapshot next_version entries =
    elim (write_entries (record { out = snapshot_header next_version (length entries); chunk = [] })
      entries) [ err e ↦ err e | ok w ↦ ok (flush_chunk w).out ]

-- A read that may fail with an error: the value and the bytes behind it.
abbrev pub Step {ℓ} : Type ℓ → Type ℓ
Step A = Bytes → Result (A × Bytes)

abbrev pub done {ℓ} : {A : Type ℓ} → A → Step A
done a r = ok (a, r)

abbrev pub then_run {ℓ κ} :
    {A : Type ℓ} {B : Type κ} → Result (A × Bytes) → (A → Step B) → Result (B × Bytes)
then_run (ok (a, rest)) f = f a rest
then_run (err e) f = err e

infixl 5 ◌>>=◌
abbrev pub ◌>>=◌ {ℓ κ} : {A : Type ℓ} {B : Type κ} → Step A → (A → Step B) → Step B
◌>>=◌ m f r = then_run (m r) f

abbrev pub corrupt {ℓ} : {A : Type ℓ} → String → Result A
corrupt message = err (record { code = Errc.corrupt_data; message = message })

-- A read whose failure is reported with the text.
unfoldable pub field {ℓ} : {A : Type ℓ} → Parser A → String → Step A
field p message r = elim (p r) [
  | got a rest ↦ ok (a, rest)
  | torn rest ↦ corrupt message
  | bad rest ↦ corrupt message
]

-- A test of what was read.
unfoldable pub check : Bool → Result (Unit {0}) → Step (Unit {0})
check test failure r =
    if test then ok (tt, r) else elim failure [ ok u ↦ ok (u, r) | err e ↦ err e ]

pub record Tail : Type 0 where
  pub version : ℕ
  pub writer_hash : ℕ
  pub expires_ms : ℕ
  pub has_ttl : ℕ
  pub freq : ℕ
  pub tombstone : ℕ

abbrev pub tail_size : SnapshotFormat → ℕ
tail_size format_v1 = 33
tail_size format_v2 = 34

unfoldable pub read_tombstone_byte : SnapshotFormat → Step ℕ
unfolding field check
read_tombstone_byte format_v1 = done 0
read_tombstone_byte format_v2 = do
  byte ← field (read 1) "truncated snapshot tombstone"
  u ← check (not (ltb 1 byte)) (corrupt "truncated snapshot tombstone")
  done byte

-- The fixed fields, from the bytes of the block that ends an entry.
unfoldable pub read_fixed : SnapshotFormat → Step Tail
unfolding field read_tombstone_byte
read_fixed format = do
  version ← field (read 8) "truncated snapshot entry"
  writer_hash ← field (read 8) "truncated snapshot entry"
  expires_ms ← field (read 8) "truncated snapshot entry"
  has_ttl ← field (read 1) "truncated snapshot entry"
  freq ← field (read 8) "truncated snapshot entry"
  tombstone ← read_tombstone_byte format
  done (record {
    version = version;
    writer_hash = writer_hash;
    expires_ms = expires_ms;
    has_ttl = has_ttl;
    freq = freq;
    tombstone = tombstone;
  })

-- A read of a block that was read as bytes.
unfoldable pub within {ℓ} : {A : Type ℓ} → Step A → Bytes → Step A
within p block r = elim (p block) [ ok (a, rest) ↦ ok (a, r) | err e ↦ err e ]

-- One round of readStream's loop.
unfoldable pub read_snapshot_entry : SnapshotFormat → Step SnapshotEntry
unfolding field within read_fixed
read_snapshot_entry format = do
  key_len ← field (read 4) "truncated snapshot key"
  key ← field (read_string key_len) "truncated snapshot key data"
  val_len ← field (read 4) "truncated snapshot value"
  value ← field (read_string val_len) "truncated snapshot value data"
  block ← field (read_string (tail_size format)) "truncated snapshot entry"
  fixed ← within (read_fixed format) block
  done (record {
    key = key;
    value = value;
    version = fixed.version;
    writer_node_hash = fixed.writer_hash;
    expires_at_ms = fixed.expires_ms;
    has_ttl = not (fixed.has_ttl == 0);
    tombstone = not (fixed.tombstone == 0);
    freq = fixed.freq;
  })

-- The loop, with what its callback is given.
unfoldable pub read_entries : ℕ → SnapshotFormat → Bytes → List SnapshotEntry × Result (Unit {0})
unfolding read_snapshot_entry
read_entries zero format r = ([], ok tt)
read_entries (suc n) format r = elim (read_snapshot_entry format r) [
  | err e ↦ ([], err e)
  | ok (e, rest) ↦ let (es, result) = read_entries n format rest in (e ∷ es, result)
]

abbrev pub min_entry_bytes : SnapshotFormat → ℕ
min_entry_bytes format_v1 = 41
min_entry_bytes format_v2 = 42

pub record Header : Type 0 where
  pub format : SnapshotFormat
  pub next_version : ℕ
  pub entry_count : ℕ

-- format_ver and what parseSnapshotFormat makes of it.
unfoldable pub read_format : Step SnapshotFormat
unfolding field
read_format r = elim (read 4 r) [
  | got v rest ↦ elim (parse_snapshot_format v) [
    | some format ↦ ok (format, rest)
    | none ↦ corrupt "unsupported snapshot format version"
  ]
  | torn rest ↦ corrupt "unsupported snapshot format version"
  | bad rest ↦ corrupt "unsupported snapshot format version"
]

-- The fields in front of the entries.
unfoldable pub read_snapshot_header : Step Header
unfolding field check read_format
read_snapshot_header = do
  magic ← field (read 4) "invalid snapshot magic"
  u ← check (magic == k_snapshot_magic) (corrupt "invalid snapshot magic")
  format ← read_format
  next_version ← field (read 8) "truncated snapshot header"
  entry_count ← field (read 4) "truncated snapshot entry count"
  done (record { format = format; next_version = next_version; entry_count = entry_count })

-- The entry count against the bytes that are left.
unfoldable pub count_fits : Header → Step (Unit {0})
unfolding check
count_fits h r =
    check (not (ltb (length r / min_entry_bytes h.format) h.entry_count))
      (err (invalid "entry_count exceeds file size")) r

-- What readAll does behind the header.
unfoldable pub read_body : Header → Bytes → Result SnapshotData
unfolding count_fits read_entries
read_body h r = elim (count_fits h r) [
  | err e ↦ err e
  | ok (u, rest) ↦
      let (es, result) = read_entries h.entry_count h.format rest in
      elim result [
        | err e ↦ err e
        | ok v ↦ ok (record { next_version = h.next_version; entries = es })
      ]
]

-- readAll
unfoldable pub read_all : Bytes → Result SnapshotData
unfolding read_snapshot_header read_body
read_all image = elim (read_snapshot_header image) [
  | err e ↦ err e
  | ok (h, rest) ↦ read_body h rest
]
