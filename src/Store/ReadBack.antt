-- ===== src/Store/ReadBack.antt =====
-- A write and then a read of its key.
use cinder.Prelude.{
  ℕ, zero, suc, ◌+◌, ◌^◌, ◌<◌, ◌≤◌, ◌≡◌, refl, sym, ap, ◌∙◌, subst, ◌||◌, none, some, List, [], ◌∷◌,
  Bytes, same_bytes_refl, ltb, if◌then◌else◌, arith, Bool-cases, Option-cases, inl, inr,
}
use cinder.Lww.{VersionedEntry, compare_lww, stamp_of, is_tombstone}
use cinder.Store.{
  Node, Store, node_size, find_node, erase_key, is_less, put_versioned_at, get, get_versioned,
  is_expired,
}
use cinder.Store.Eviction.{total_size, keep_live, keep_live-live, IsEvicted, IsExact}
use cinder.Store.Keys.{key_of_find, total_size-erase_key}
use cinder.Store.Writes.{written, Leaves, put_versioned_at-Leaves, total_size_cons}

total_size-keep_live : (k : ℕ) (ns : List Node) → total_size (keep_live k ns) ≤ total_size ns
unfolding total_size keep_live
total_size-keep_live k [] = omega arith
total_size-keep_live zero (n ∷ ns) = ground (arith, total_size-keep_live zero ns)
total_size-keep_live (suc k) (n ∷ ns) =
    ground (arith, total_size-keep_live (suc k) ns, total_size-keep_live k ns)

-- Nothing is evicted from a list that is within the capacity.
all_kept :
    (capacity : ℕ) (ns kept : List Node)
    → total_size ns ≤ capacity
    → IsEvicted capacity ns kept
    → kept ≡ ns
all_kept capacity ns kept h v = elim v.needed [
  | inl all ↦ v.kept_eq ∙ ap (λ k. keep_live k ns) all ∙ keep_live-live ns
  | inr more ↦ absurd (omega (arith, h, more, total_size-keep_live (suc v.count) ns))
]

-- What the read finds in a list, and how large the list is.
abbrev IsWritten : Store → Bytes → VersionedEntry → List Node → Type 0
IsWritten s key entry ns =
    (find_node ns key ≡ some (record { key = key; entry = entry }))
    × (total_size ns ≤ total_size s.nodes + node_size (record { key = key; entry = entry }))

head_found :
    (key : Bytes) (entry : VersionedEntry) (ns : List Node)
    → find_node (record { key = key; entry = entry } ∷ ns) key
      ≡ some (record { key = key; entry = entry })
unfolding find_node
head_found key entry ns = rw (same_bytes_refl key) refl

IsWritten-over :
    (s : Store) (key : Bytes) (entry : VersionedEntry) (old : Node)
    → find_node s.nodes key ≡ some old
    → IsWritten s key entry (record old { entry = entry } ∷ erase_key s.nodes old.key)
IsWritten-over s key entry old f =
    subst
      (λ (k : Bytes).
        IsWritten s key entry (record { key = k; entry = entry } ∷ erase_key s.nodes k))
      (sym (key_of_find s.nodes key old f))
      (
        head_found key entry (erase_key s.nodes key),
        omega (
          arith,
          total_size-erase_key s.nodes key old f,
          total_size_cons (record { key = key; entry = entry }) (erase_key s.nodes key),
        ),
      )

IsWritten-new :
    (s : Store) (key : Bytes) (entry : VersionedEntry)
    → IsWritten s key entry (record { key = key; entry = entry } ∷ s.nodes)
IsWritten-new s key entry = (
  head_found key entry s.nodes,
  omega (arith, total_size_cons (record { key = key; entry = entry }) s.nodes),
)

written-IsWritten :
    (s : Store) (key : Bytes) (entry : VersionedEntry) (ns : List Node)
    → written s key entry ≡ some ns
    → IsWritten s key entry ns
written-IsWritten s key entry ns w = elim (Option-cases (find_node s.nodes key)) [
  | inr (old, f) ↦ elim (Bool-cases (is_less (compare_lww (stamp_of entry) (stamp_of old.entry)))) [
    | inl lost ↦
        let refused : written s key entry ≡ none = rw (f, written) (rw lost refl) in cc (refused, w)
    | inr won ↦
        let accepted : written s key entry
            ≡ some (record old { entry = entry } ∷ erase_key s.nodes old.key) =
          rw (f, written) (rw won refl) in
        subst (IsWritten s key entry) (cc (accepted, w)) (IsWritten-over s key entry old f)
  ]
  | inl f ↦ elim (Bool-cases (ltb s.capacity (node_size (record { key = key; entry = entry })))) [
    | inl large ↦
        let refused : written s key entry ≡ none = rw (f, written) (rw large refl) in
        cc (refused, w)
    | inr fits ↦
        let accepted : written s key entry ≡ some (record { key = key; entry = entry } ∷ s.nodes) =
          rw (f, written) (rw fits refl) in
        subst (IsWritten s key entry) (cc (accepted, w)) (IsWritten-new s key entry)
  ]
]

read_found :
    (t : Store) (key : Bytes) (entry : VersionedEntry) (now : ℕ)
    → find_node t.nodes key ≡ some (record { key = key; entry = entry })
    → ((get now t key).1
        ≡ (if is_expired now entry || is_tombstone entry then none else some entry.value))
      × ((get_versioned now t key).1 ≡ (if is_expired now entry then none else some entry))
unfolding get get_versioned
read_found t key entry now h = ground (arith, h)

-- A read of the key after an accepted write for which the shard has room without an eviction, its byte
-- counter exact and its capacity below 2^64: an entry that is neither expired
-- nor a tombstone gives its value, and get answers nothing for the others; getVersioned gives the
-- whole entry, a tombstone too, unless it is expired.
pub get-put_versioned_at :
    (s : Store) (key : Bytes) (entry : VersionedEntry) (at now : ℕ) (ns : List Node)
    → IsExact s
    → total_size s.nodes + node_size (record { key = key; entry = entry }) ≤ s.capacity
    → s.capacity < 2 ^ 64
    → written s key entry ≡ some ns
    → ((get now (put_versioned_at s key entry at).0 key).1
        ≡ (if is_expired now entry || is_tombstone entry then none else some entry.value))
      × ((get_versioned now (put_versioned_at s key entry at).0 key).1
          ≡ (if is_expired now entry then none else some entry))
get-put_versioned_at s key entry at now ns x room small w =
    let t = (put_versioned_at s key entry at).0 in
    let (found, size) = written-IsWritten s key entry ns w in
    let left =
      subst (λ v. Leaves s t v) w
        (put_versioned_at-Leaves s key entry at x (omega (arith, room, small))) in
    let kept = all_kept s.capacity ns t.nodes (omega (arith, size, room)) left.0 in
    read_found t key entry now (ap (λ l. find_node l key) kept ∙ found)
