-- ===== src/Tests/Wal.antt =====
-- The log: two records, a checksum that adds bytes, and a store that is the list of its writes.
use cinder.Prelude.{
  ℕ, ◌+◌, ◌%◌, ◌^◌, ◌<◌, ◌≡◌, refl, arith, true, false, some, List, [], ◌∷◌, ◌++◌, Bytes, take,
}
use cinder.Status.{Result, Errc, ok, err}
use cinder.Clock.{Clock}
use cinder.Buffer.{le}
use cinder.Wal.{
  WalEntry, set, del, header, record_bytes, encode_record, encode_all, append_batch, open_append,
  too_large, total_record_size,
}
use cinder.Wal.Records.{IsTyped}
use cinder.Wal.Replay.{CacheStore, ReplayStats, replay_wal, replay_entries, heal}
use cinder.Wal.Replay.Crash.{replay_crash, replay_damage, torn_header, valid_size}
use cinder.Wal.Replay.Recovery.{recovery_continues}
use cinder.Wal.Replay.Total.{replay_ends}

abbrev sum : Bytes → ℕ
sum [] = 0
sum (b ∷ bs) = b + sum bs

abbrev checksum : Bytes → ℕ
checksum bytes = sum bytes % 2 ^ 64

checksum-fits : (b : Bytes) → checksum b < 2 ^ 64
checksum-fits b = omega arith

abbrev clock : Clock
clock = record { now = 1000000; now_system = 5000000000 }

abbrev keys : CacheStore (List Bytes)
keys = record { put_versioned = λ s k v. k ∷ s; remove = λ s k. s }

abbrev first : WalEntry
first = record {
  op = set;
  key = 97 ∷ [];
  value = 1 ∷ 2 ∷ [];
  version = 3;
  writer_node_hash = 9;
  expires_at_ms = 0;
  has_ttl = false;
  is_tombstone = false;
}

abbrev second : WalEntry
second = record first { op = del; key = 98 ∷ []; version = 4; expires_at_ms = 6000; has_ttl = true }

abbrev typed : IsTyped first
typed = record {
  key = omega arith;
  value = omega arith;
  version = omega arith;
  writer_node_hash = omega arith;
  expires_at_ms = omega arith;
}

abbrev typed_second : IsTyped second
typed_second = record {
  key = omega arith;
  value = omega arith;
  version = omega arith;
  writer_node_hash = omega arith;
  expires_at_ms = omega arith;
}

replay_crash_example :
    replay_wal keys checksum clock []
      (header ++ (encode_all checksum (first ∷ []) ++ take 20 (encode_record checksum second)))
    ≡ some (
      replay_entries keys checksum clock [] (first ∷ []),
      ok (record { records = 1; valid_bytes = valid_size checksum (first ∷ []) }),
    )
unfolding encode_record record_bytes le
replay_crash_example =
    replay_crash keys checksum clock checksum-fits (first ∷ []) second 20 [] (typed, tt)
      typed_second (omega arith)

replay_damage_example :
    replay_wal keys checksum clock []
      (header ++ (encode_all checksum (first ∷ []) ++ (record_bytes second ++ (le 8 7 ++ []))))
    ≡ some (
      replay_entries keys checksum clock [] (first ∷ []),
      err (record { code = Errc.corrupt_data; message = "WAL checksum mismatch" }),
    )
unfolding record_bytes le
replay_damage_example =
    replay_damage keys checksum clock checksum-fits (first ∷ []) second 7 [] [] (typed, tt)
      typed_second (omega arith) refl

replay_ends_example :
    (out : List Bytes × Result ReplayStats) × (replay_wal keys checksum clock [] (1 ∷ 2 ∷ [])
      ≡ some out)
replay_ends_example = replay_ends checksum keys clock (1 ∷ 2 ∷ []) []

torn_header_example :
    replay_wal keys checksum clock [] (take 5 header)
    ≡ some ([], err (record { code = Errc.corrupt_data; message = "WAL checksum mismatch" }))
torn_header_example = torn_header keys checksum clock checksum-fits 5 [] (omega arith) (omega arith)

abbrev torn_image : Bytes
torn_image = header ++ (encode_all checksum (first ∷ []) ++ take 20 (encode_record checksum second))

abbrev stats : ReplayStats
stats = record { records = 1; valid_bytes = valid_size checksum (first ∷ []) }

recovery_continues_example :
    replay_wal keys checksum clock []
      (open_append (heal torn_image stats) ++ encode_all checksum (second ∷ []))
    ≡ some (
      replay_entries keys checksum clock [] (first ∷ second ∷ []),
      ok (record { records = 2; valid_bytes = valid_size checksum (first ∷ second ∷ []) }),
    )
unfolding append_batch too_large encode_record record_bytes le
recovery_continues_example =
    recovery_continues keys checksum clock checksum-fits (first ∷ []) (second ∷ []) second 20 []
      (replay_entries keys checksum clock [] (first ∷ [])) [] stats
      (open_append (heal torn_image stats) ++ encode_all checksum (second ∷ []))
      (total_record_size (second ∷ [])) (typed, tt) (typed_second, tt) typed_second (omega arith)
      (replay_crash keys checksum clock checksum-fits (first ∷ []) second 20 [] (typed, tt)
        typed_second (omega arith))
      refl
