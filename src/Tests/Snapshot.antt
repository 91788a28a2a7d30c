-- ===== src/Tests/Snapshot.antt =====
-- A snapshot of two entries, one of them a tombstone.
use cinder.Prelude.{◌≡◌, refl, arith, true, false, List, [], ◌∷◌, Bytes, take}
use cinder.Status.{Error, ok, err}
use cinder.Buffer.Lists.{Each}
use cinder.Buffer.{le}
use cinder.Snapshot.{
  SnapshotEntry, read_all, write_snapshot, write_entries, write_entry, flush_chunk, entry_too_large,
  entry_size, snapshot_header, encode_snapshot_entry,
}
use cinder.Snapshot.RoundTrip.{IsTypedEntry}
use cinder.Snapshot.Files.{snapshot_file}
use cinder.Snapshot.Chunks.{read_all-write_snapshot, cut_snapshot}

abbrev live : SnapshotEntry
live = record {
  key = 65 ∷ [];
  value = 1 ∷ 2 ∷ [];
  version = 9;
  writer_node_hash = 7;
  expires_at_ms = 0;
  has_ttl = false;
  tombstone = false;
  freq = 3;
}

abbrev dead : SnapshotEntry
dead = record live { value = []; tombstone = true }

abbrev entries : List SnapshotEntry
entries = live ∷ dead ∷ []

typed : Each IsTypedEntry entries
typed = (
  record {
    key = omega arith;
    value = omega arith;
    version = omega arith;
    writer_node_hash = omega arith;
    expires_at_ms = omega arith;
    freq = omega arith;
  },
  (
    record {
      key = omega arith;
      value = omega arith;
      version = omega arith;
      writer_node_hash = omega arith;
      expires_at_ms = omega arith;
      freq = omega arith;
    },
    tt,
  ),
)

read_all-write_snapshot_example :
    (file : Bytes) × (write_snapshot 12 entries ≡ ok file)
    × (read_all file ≡ ok (record { next_version = 12; entries = entries }))
read_all-write_snapshot_example =
    read_all-write_snapshot 12 entries (omega arith) (omega arith) typed

written : write_snapshot 12 entries ≡ ok (snapshot_file 12 entries)
unfolding write_snapshot write_entries write_entry flush_chunk entry_too_large entry_size
    snapshot_header encode_snapshot_entry le
written = refl

cut_snapshot_example : (e : Error) × (read_all (take 70 (snapshot_file 12 entries)) ≡ err e)
unfolding snapshot_header encode_snapshot_entry le
cut_snapshot_example =
    cut_snapshot 12 entries (snapshot_file 12 entries) 70 (omega arith) (omega arith) typed written
      (omega arith)
