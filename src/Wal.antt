-- ===== src/Wal.antt =====
-- src/store/wal.cpp: the records of the write-ahead log and the reader of a log file. A file is its
-- bytes. XXH3, the checksum, is a parameter: a function from byte strings, since the streaming digest
-- of the pieces of a string is the digest of the string.
pub mod Records
pub mod Replay
pub mod Writer
use cinder.Prelude.{
  ℕ, ◌+◌, ◌-◌, ◌*◌, ◌^◌, Bool, true, false, not, ◌||◌, ◌&&◌, is_some, Option, none, some, List, [],
  ◌∷◌, ◌++◌, Bytes, length, drop, ltb, ◌==◌, if◌then◌else◌,
}
use cinder.Status.{Result, Error, ok, err, invalid}
use cinder.Lww.{bit}
use cinder.Buffer.{le, Outcome, got, torn, bad, Parser, pure, reject, read, read_string, ◌>>=◌}

abbrev pub k_wal_magic : ℕ
k_wal_magic = 0x57414C30

abbrev pub k_wal_format_version : ℕ
k_wal_format_version = 2

pub data WalFormat : Type 0 where
  legacy v1 v2 : WalFormat

unfoldable pub parse_wal_format : ℕ → Option WalFormat
parse_wal_format v = if v == 1 then some v1 else if v == 2 then some v2 else none

abbrev pub wal_has_tombstone : WalFormat → Bool
wal_has_tombstone v2 = true
wal_has_tombstone _ = false

pub data Op : Type 0 where
  set del : Op

abbrev pub op_code : Op → ℕ
op_code set = 1
op_code del = 2

pub record WalEntry : Type 0 where
  pub op : Op
  pub key : Bytes
  pub value : Bytes
  pub version : ℕ
  pub writer_node_hash : ℕ
  pub expires_at_ms : ℕ
  pub has_ttl : Bool
  pub is_tombstone : Bool

pub record ParsedEntry : Type 0 where
  pub op : Op
  pub key_len : ℕ
  pub key : Bytes
  pub val_len : ℕ
  pub value : Bytes
  pub version : ℕ
  pub writer_node_hash : ℕ
  pub expires_ms : ℕ
  pub has_ttl : ℕ
  pub tombstone : ℕ

abbrev pub check_op : ℕ → Parser Op
check_op byte = if byte == 1 then pure set else if byte == 2 then pure del else reject

abbrev pub read_tombstone : WalFormat → Parser ℕ
read_tombstone format =
    if wal_has_tombstone format
    then read 1 >>= (λ byte. if ltb 1 byte then reject else pure byte)
    else pure 0

-- readEntryFields; `bad` is its `invalid = true`.
unfoldable pub read_entry_fields : WalFormat → Parser ParsedEntry
read_entry_fields format = do
  byte ← read 1
  op ← check_op byte
  key_len ← read 4
  key ← read_string key_len
  val_len ← read 4
  value ← read_string val_len
  version ← read 8
  writer_hash ← read 8
  expires_ms ← read 8
  has_ttl ← read 1
  tombstone ← read_tombstone format
  pure (record {
    op = op;
    key_len = key_len;
    key = key;
    val_len = val_len;
    value = value;
    version = version;
    writer_node_hash = writer_hash;
    expires_ms = expires_ms;
    has_ttl = has_ttl;
    tombstone = tombstone;
  })

-- The bytes that computeEntryChecksum feeds to the digest, in its order.
unfoldable pub checksum_bytes : ParsedEntry → WalFormat → Bytes
checksum_bytes e format =
    le 1 (op_code e.op)
    ++ (le 4 e.key_len
        ++ (e.key
            ++ (le 4 e.val_len
                ++ (e.value
                    ++ (le 8 e.version
                        ++ (le 8 e.writer_node_hash
                            ++ (le 8 e.expires_ms
                                ++ (le 1 e.has_ttl
                                    ++ (if wal_has_tombstone format
                                        then le 1 e.tombstone
                                        else [])))))))))

unfoldable pub to_wal_entry : ParsedEntry → WalEntry
to_wal_entry e = record {
  op = e.op;
  key = e.key;
  value = e.value;
  version = e.version;
  writer_node_hash = e.writer_node_hash;
  expires_at_ms = e.expires_ms;
  has_ttl = not (e.has_ttl == 0);
  is_tombstone = not (e.tombstone == 0);
}

unfoldable pub encoded_record_size : WalEntry → ℕ
encoded_record_size e = 1 + 4 + length e.key + 4 + length e.value + 8 + 8 + 8 + 1 + 1 + 8

-- The record before its digest.
unfoldable pub record_bytes : WalEntry → Bytes
record_bytes e =
    le 1 (op_code e.op)
    ++ (le 4 (length e.key)
        ++ (e.key
            ++ (le 4 (length e.value)
                ++ (e.value
                    ++ (le 8 e.version
                        ++ (le 8 e.writer_node_hash
                            ++ (le 8 e.expires_at_ms
                                ++ (le 1 (bit e.has_ttl) ++ le 1 (bit e.is_tombstone)))))))))

-- The header that a fresh log starts with.
abbrev pub header : Bytes
header = le 4 k_wal_magic ++ le 4 k_wal_format_version

pub record WalReader : Type 0 where
  pub image : Bytes
  pub pos : ℕ
  pub commit_pos : ℕ
  pub format_version : WalFormat
  pub corrupted : Bool

abbrev pub reader_at : Bytes → ℕ → WalFormat → WalReader
reader_at image pos format = record {
  image = image;
  pos = pos;
  commit_pos = 0;
  format_version = format;
  corrupted = false;
}

abbrev read_header : Parser (ℕ × ℕ)
read_header = do magic ← read 4; version ← read 4; pure (magic, version)

-- The constructor on the file's bytes: a header of a known version, or the legacy format from the
-- start where there is none.
unfoldable pub open_reader : Bytes → WalReader
open_reader image = elim (read_header image) [
  | got (magic, version) rest ↦
      if magic == k_wal_magic
      then elim (parse_wal_format version) [
        | some format ↦ reader_at image (length image - length rest) format
        | none ↦ reader_at image 0 legacy
      ]
      else reader_at image 0 legacy
  | torn rest ↦ reader_at image 0 legacy
  | bad rest ↦ reader_at image 0 legacy
]

abbrev pub settle : WalReader → Outcome WalEntry → WalReader × Option WalEntry
settle r (got entry rest) = (
  record r { pos = length r.image - length rest; commit_pos = length r.image - length rest },
  some entry,
)
settle r (torn rest) = (record r { pos = length r.image - length rest }, none)
settle r (bad rest) = (record r { pos = length r.image - length rest; corrupted = true }, none)

unfoldable pub too_large : WalEntry → Bool
too_large e = ltb (2 ^ 32 - 1) (length e.key) || ltb (2 ^ 32 - 1) (length e.value)

abbrev pub any_too_large : List WalEntry → Bool
any_too_large [] = false
any_too_large (e ∷ es) = too_large e || any_too_large es

abbrev pub total_record_size : List WalEntry → ℕ
total_record_size [] = 0
total_record_size (e ∷ es) = encoded_record_size e + total_record_size es

-- The writer's constructor in append mode, where every file operation succeeds: a file that is shorter
-- than a header gets one, and one with another header is started anew.
unfoldable pub open_append : Bytes → Bytes
open_append file = elim (read_header file) [
  | got (magic, version) rest ↦
      if magic == k_wal_magic && is_some (parse_wal_format version) then file else header
  | torn rest ↦ file ++ header
  | bad rest ↦ file ++ header
]

module _ (xxh3 : Bytes → ℕ) where
  -- encodeWalRecord
  unfoldable pub encode_record : WalEntry → Bytes
  unfolding record_bytes
  encode_record e = record_bytes e ++ le 8 (xxh3 (record_bytes e))

  -- What next() reads: the fields, and from a file with a header the digest that must fit them.
  unfoldable pub read_record : WalFormat → Parser WalEntry
  unfolding to_wal_entry checksum_bytes
  read_record legacy = do fields ← read_entry_fields legacy; pure (to_wal_entry fields)
  read_record format = do
    fields ← read_entry_fields format
    stored ← read 8
    (if xxh3 (checksum_bytes fields format) == stored then pure (to_wal_entry fields) else reject)

  -- next(): where it stops the position is in front of the bytes that are left.
  unfoldable pub next : WalReader → WalReader × Option WalEntry
  unfolding read_record
  next r = settle r (read_record r.format_version (drop r.pos r.image))

  -- append to a log that is open, with the file's bytes; the write itself succeeds.
  unfoldable pub append : Bytes → WalEntry → Result Bytes
  append file e =
      if too_large e then err (invalid "WAL entry too large") else ok (file ++ encode_record e)

  unfoldable pub encode_all : List WalEntry → Bytes
  encode_all [] = []
  encode_all (e ∷ es) = encode_record e ++ encode_all es

  -- appendBatch: the file and the number of bytes that it reports.
  unfoldable pub append_batch : Bytes → List WalEntry → Result (Bytes × ℕ)
  append_batch file es =
      if any_too_large es
      then err (invalid "WAL entry too large")
      else ok (file ++ encode_all es, total_record_size es)

unfoldable pub has_more : WalReader → Bool
has_more r = ltb r.pos (length r.image)
