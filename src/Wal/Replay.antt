-- ===== src/Wal/Replay.antt =====
-- store/persistence.cpp: the replay of a log into a store (replayWal, versionedFromWal, rebaseExpiry).
-- The store is an interface, CacheStore of include/cinder/store/cache_store.hpp, as far as the replay
-- uses it. The clock's two readings are the same for all records of one replay.
pub mod Crash
pub mod Recovery
pub mod Steps
pub mod Total
use cinder.Prelude.{
  ℕ, zero, suc, ◌+◌, ◌-◌, ◌*◌, ◌^◌, Bool, true, false, not, ◌||◌, Option, none, some, List, [], ◌∷◌,
  Bytes, length, take, ltb, leb, ◌==◌, if◌then◌else◌,
}
use cinder.Status.{Result, Error, Errc, ok, err}
use cinder.Clock.{Clock, now_system_ms}
use cinder.Lww.{VersionedEntry, fresh_entry, set_version, set_has_ttl, set_tombstone}
use cinder.Wal.{Op, set, del, WalEntry, WalReader, next, has_more, open_reader}

-- The operations of CacheStore that a replay calls; their results are ignored there.
pub record CacheStore {ℓ} (S : Type ℓ) : Type ℓ where
  pub put_versioned : S → Bytes → VersionedEntry → S
  pub remove : S → Bytes → S

pub record ReplayStats : Type 0 where
  pub records : ℕ
  pub valid_bytes : ℕ

-- The difference as an int64_t count of milliseconds, at least 1.
abbrev pub remaining_ms : ℕ → ℕ
remaining_ms d = if leb (2 ^ 63) d || ltb d 1 then 1 else d

-- rebaseExpiry: none where it returns false. A sum past int64_t nanoseconds, which is undefined in the
-- code, is the plain sum here.
unfoldable pub rebase_expiry : VersionedEntry → Bool → ℕ → Clock → Option VersionedEntry
unfolding now_system_ms
rebase_expiry ve has_ttl expires_at_ms clock =
    if not has_ttl || expires_at_ms == 0
    then some ve
    else if leb expires_at_ms (now_system_ms clock)
    then none
    else some (record ve {
      expires_at = clock.now + remaining_ms (expires_at_ms - now_system_ms clock) * 1000000;
    })

unfoldable pub versioned_from_wal : WalEntry → Clock → Option VersionedEntry
unfolding rebase_expiry set_version set_has_ttl set_tombstone
versioned_from_wal e clock =
    let filled = record fresh_entry { value = e.value; writer_node_hash = e.writer_node_hash } in
    rebase_expiry
      (set_tombstone (set_has_ttl (set_version filled e.version) e.has_ttl) e.is_tombstone)
      e.has_ttl e.expires_at_ms clock

-- What recovery does to the file: a torn tail is cut off.
unfoldable pub heal : Bytes → ReplayStats → Bytes
heal file stats = if ltb stats.valid_bytes (length file) then take stats.valid_bytes file else file

module _ {ℓ} {S : Type ℓ} (store : CacheStore S) (xxh3 : Bytes → ℕ) (clock : Clock) where
  -- What the loop does with one decoded record.
  unfoldable pub replay_entry : S → WalEntry → S
  unfolding versioned_from_wal
  replay_entry s e = elim (versioned_from_wal e clock) [
    | none ↦ s
    | some ve ↦ elim e.op [ set ↦ store.put_versioned s e.key ve | del ↦ store.remove s e.key ]
  ]

  unfoldable pub replay_entries : S → List WalEntry → S
  replay_entries s [] = s
  replay_entries s (e ∷ es) = replay_entries (replay_entry s e) es

  -- The loop, on fuel; none where the fuel runs out.
  unfoldable pub replay_from : ℕ → S → WalReader → ℕ → Option (S × Result ReplayStats)
  unfolding has_more next replay_entry
  replay_from zero s r decoded = none
  replay_from (suc fuel) s r decoded = elim (has_more r) [
    | false ↦ some (s, ok (record { records = decoded; valid_bytes = r.commit_pos }))
    | true ↦
        let step = next xxh3 r in
        elim step.1 [
          | some e ↦ replay_from fuel (replay_entry s e) step.0 (suc decoded)
          | none ↦ some (
            s,
            (if step.0.corrupted
                then err (record { code = Errc.corrupt_data; message = "WAL checksum mismatch" })
                else ok (record { records = decoded; valid_bytes = step.0.commit_pos })),
          )
        ]
  ]

  -- replayWal on the bytes of the log. No record is shorter than a byte.
  unfoldable pub replay_wal : S → Bytes → Option (S × Result ReplayStats)
  unfolding replay_from open_reader
  replay_wal s image = replay_from (suc (length image)) s (open_reader image) 0
