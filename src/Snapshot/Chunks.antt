-- ===== src/Snapshot/Chunks.antt =====
-- The chunks make up the header and the entries in their order, wherever they are cut.
use mathlib.Core.List.{append_assoc, append-nil}
use cinder.Prelude.{
  ℕ, ◌^◌, ◌<◌, ◌≡◌, refl, sym, ap, ◌∙◌, Bool, true, false, ◌||◌, List, [], ◌∷◌, ◌++◌, Bytes, length,
  take, arith, Bool-cases, inl, inr, if◌then◌else◌,
}
use cinder.Status.{Error, ok, err, invalid}
use cinder.Buffer.Lists.{Each, IsU64}
use cinder.Snapshot.{
  SnapshotEntry, ChunkWriter, encode_snapshot_entry, snapshot_header, entry_too_large, flush_chunk,
  write_entry, write_entries, write_snapshot, read_all,
}
use cinder.Snapshot.RoundTrip.{IsTypedEntry}
use cinder.Snapshot.Files.{encoded, snapshot_file, read_all-file, read_all_cut}

abbrev any_entry_too_large : List SnapshotEntry → Bool
any_entry_too_large [] = false
any_entry_too_large (e ∷ es) = entry_too_large e || any_entry_too_large es

write_entry_flat :
    (w : ChunkWriter) (e : SnapshotEntry)
    → (flush_chunk (write_entry w e)).out ≡ (flush_chunk w).out ++ encode_snapshot_entry e
unfolding write_entry flush_chunk
write_entry_flat w e = ground (
  arith,
  append_assoc w.out w.chunk (encode_snapshot_entry e),
  append-nil ((w.out ++ w.chunk) ++ encode_snapshot_entry e),
)

write_entries_flat :
    (w : ChunkWriter) (es : List SnapshotEntry)
    → any_entry_too_large es ≡ false
    → (r : ChunkWriter) × (write_entries w es ≡ ok r)
      × ((flush_chunk r).out ≡ (flush_chunk w).out ++ encoded es)
unfolding write_entries
write_entries_flat w [] h = (w, refl, sym (append-nil (flush_chunk w).out))
write_entries_flat w (e ∷ es) h =
    let (r, run, flat) = write_entries_flat (write_entry w e) es (ground (arith, h)) in
    (
      r,
      ground (arith, h, run),
      flat
          ∙ ap (λ (b : Bytes). b ++ encoded es) (write_entry_flat w e)
          ∙ append_assoc (flush_chunk w).out (encode_snapshot_entry e) (encoded es),
    )

write_entries_large :
    (w : ChunkWriter) (es : List SnapshotEntry)
    → any_entry_too_large es ≡ true
    → write_entries w es ≡ err (invalid "snapshot entry too large")
unfolding write_entries
write_entries_large w [] h = absurd (cc (h))
write_entries_large w (e ∷ es) h = ground (arith, h, write_entries_large (write_entry w e) es)

pub write_snapshot_flat :
    (v : ℕ) (es : List SnapshotEntry)
    → write_snapshot v es ≡ (
        if any_entry_too_large es
        then err (invalid "snapshot entry too large")
        else ok (snapshot_file v es))
unfolding flush_chunk write_snapshot
write_snapshot_flat v es = elim (Bool-cases (any_entry_too_large es)) [
  | inl e ↦ rw e (
      rw
        (
          write_entries_large (record { out = snapshot_header v (length es); chunk = [] }) es e,
          write_snapshot,
        )
        refl)
  | inr e ↦
      let (r, run, flat) =
        write_entries_flat (record { out = snapshot_header v (length es); chunk = [] }) es e in
      rw e (
        rw (run, write_snapshot)
          (ap ok (
            flat
            ∙ ap (λ (b : Bytes). b ++ encoded es) (append-nil (snapshot_header v (length es))))))
]

typed_small : (es : List SnapshotEntry) → Each IsTypedEntry es → any_entry_too_large es ≡ false
unfolding entry_too_large
typed_small [] t = refl
typed_small (e ∷ es) t = ground (arith, t.0.key, t.0.value, typed_small es t.1)

-- For a next version below 2^64 and fewer than 2^32 entries whose fields are in the ranges of their
-- types and whose keys and values are shorter than 2^32 bytes: write succeeds, wherever its chunks
-- end, and readAll of the file gives the same next version and the same entries in the same order.
pub read_all-write_snapshot :
    (v : ℕ) (es : List SnapshotEntry)
    → IsU64 v
    → length es < 2 ^ 32
    → Each IsTypedEntry es
    → (file : Bytes) × (write_snapshot v es ≡ ok file)
      × (read_all file ≡ ok (record { next_version = v; entries = es }))
read_all-write_snapshot v es h k t = (
  snapshot_file v es,
  ground (arith, write_snapshot_flat v es, typed_small es t),
  read_all-file v es h k t,
)

-- Of a file that write made of such entries, readAll answers an error for every proper prefix: a
-- snapshot that was cut short is never taken for one of fewer entries.
pub cut_snapshot :
    (v : ℕ) (es : List SnapshotEntry) (file : Bytes) (n : ℕ)
    → IsU64 v
    → length es < 2 ^ 32
    → Each IsTypedEntry es
    → write_snapshot v es ≡ ok file
    → n < length file
    → (e : Error) × (read_all (take n file) ≡ err e)
cut_snapshot v es file n h k t w l =
    let same : file ≡ snapshot_file v es =
      ground (arith, w, write_snapshot_flat v es, typed_small es t) in
    rw same (read_all_cut v es n h k t (omega (arith, l, ap (length {A = ℕ}) same)))
