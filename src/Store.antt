-- ===== src/Store.antt =====
-- include/cinder/store/detail/eviction_store_base.hpp with the LRU policy of src/store/lru_store.cpp:
-- one shard and the counters that its operations touch. The list's order is that of the std::list,
-- the front most recently used; the index is the search for a key in that list. Calls of the
-- mutation sink, the TTL wheel and the write-ahead log are recorded in order as events.
pub mod Eviction
pub mod Keys
pub mod Writes
pub mod Newest
pub mod Upkeep
pub mod ReadBack
use cinder.Prelude.{
  ℕ, zero, suc, ◌+◌, ◌-◌, ◌*◌, ◌/◌, ◌%◌, ◌^◌, Bool, true, false, not, ◌&&◌, ◌||◌, Option, none,
  some, is_some, List, [], ◌∷◌, ◌++◌, Bytes, same_bytes, length, ltb, leb, ◌==◌, if◌then◌else◌,
}
use cinder.Status
use cinder.Status.{Result, Error, ok, err}
use cinder.Lww.{
  VersionedEntry, fresh_entry, LwwOrder, less, version, has_ttl, is_tombstone, set_version,
  set_has_ttl, set_tombstone, compare_lww, stamp_of,
}

pub record Node : Type 0 where
  pub key : Bytes
  pub entry : VersionedEntry

-- nodeSize; sizeof(LruNode) is 120.
unfoldable pub node_size : Node → ℕ
node_size n = length n.key + length n.entry.value + 120

pub data Event : Type 0 where
  added removed : Bytes → ℕ → ℕ → Event
  wheel_insert : Bytes → ℕ → Event
  wheel_remove : Bytes → Event
  wal_set : Bytes → VersionedEntry → Event
  wal_del : Bytes → ℕ → ℕ → Event

-- `capacity` is the shard's slice of the capacity.
pub record Store : Type 0 where
  pub nodes : List Node
  pub current_bytes : ℕ
  pub capacity : ℕ
  pub next_version : ℕ
  pub total_bytes : ℕ
  pub total_entries : ℕ
  pub tombstone_gc : ℕ
  pub events : List Event

-- size_t and uint64_t arithmetic.
abbrev pub add64 : ℕ → ℕ → ℕ
add64 a b = (a + b) % 2 ^ 64

abbrev pub sub64 : ℕ → ℕ → ℕ
sub64 a b = (a + 2 ^ 64 - b % 2 ^ 64) % 2 ^ 64

abbrev pub emit : Store → Event → Store
emit s e = record s { events = s.events ++ (e ∷ []) }

-- sh.index.find(key)
unfoldable pub find_node : List Node → Bytes → Option Node
find_node [] key = none
find_node (n ∷ ns) key = if same_bytes n.key key then some n else find_node ns key

-- list.erase and index.erase
unfoldable pub erase_key : List Node → Bytes → List Node
erase_key [] key = []
erase_key (n ∷ ns) key = if same_bytes n.key key then ns else n ∷ erase_key ns key

-- The search of evictOne from the back of the list: the last node that is no tombstone, and the
-- list without it.
unfoldable pub split_victim : List Node → Option (Node × List Node)
split_victim [] = none
split_victim (n ∷ ns) = elim (split_victim ns) [
  | none ↦ if is_tombstone n.entry then none else some (n, ns)
  | some (victim, rest) ↦ some (victim, n ∷ rest)
]

-- evictOne: the bytes freed, 0 if every node is a tombstone.
unfoldable pub evict_one : Store → Store × ℕ
evict_one s = elim (split_victim s.nodes) [
  | none ↦ (s, 0)
  | some (v, rest) ↦ (
    record s {
      nodes = rest;
      events =
          s.events
          ++ (removed v.key v.entry.version_and_ttl v.entry.writer_node_hash
              ∷ wheel_remove v.key
              ∷ []);
    },
    node_size v,
  )
]

-- What evictIfNeeded does to the counters for an eviction that freed `freed` bytes.
abbrev pub account : Store → ℕ → Store
account s freed = record s {
  current_bytes = sub64 s.current_bytes freed;
  total_bytes = sub64 s.total_bytes freed;
  total_entries = sub64 s.total_entries 1;
}

abbrev pub is_empty : List Node → Bool
is_empty [] = true
is_empty (n ∷ ns) = false

-- The loop of evictIfNeeded; each round takes a node off the list, so `length nodes` rounds suffice.
unfoldable pub evict_loop : ℕ → Store → Store
evict_loop zero s = s
evict_loop (suc fuel) s =
    let (evicted, freed) = evict_one s in
    let rest = evict_loop fuel (account evicted freed) in
    if ltb s.capacity s.current_bytes && not (is_empty s.nodes)
    then (if freed == 0 then s else rest)
    else s

unfoldable pub evict_if_needed : Store → Store
evict_if_needed s = evict_loop (length s.nodes) s

-- CAS-max of the Lamport clock.
unfoldable pub observe_version : Store → ℕ → Store
observe_version s v = if ltb s.next_version v then record s { next_version = v } else s

unfoldable pub mint_version : Store → ℕ × Store
mint_version s = (s.next_version, record s { next_version = add64 s.next_version 1 })

abbrev pub ns_per_s : ℕ
ns_per_s = 1_000_000_000

-- expiryTicksAt: whole seconds ahead, rounded up, at least 1.
unfoldable pub expiry_ticks_at : ℕ → ℕ → ℕ
expiry_ticks_at expires_at at =
    if leb expires_at at
    then 1
    else let ticks : ℕ = (expires_at - at + (ns_per_s - 1)) / ns_per_s in
      if ltb ticks 1 then 1 else ticks

unfoldable pub update_wheel_at : Store → Node → ℕ → Store
update_wheel_at s n at =
    if has_ttl n.entry
    then emit s (wheel_insert n.key (expiry_ticks_at n.entry.expires_at at))
    else emit s (wheel_remove n.key)

-- eraseNode for a removed or expired node.
unfoldable pub erase_node : Store → Node → Store
erase_node s n = record s {
  nodes = erase_key s.nodes n.key;
  current_bytes = sub64 s.current_bytes (node_size n);
  total_bytes = sub64 s.total_bytes (node_size n);
  total_entries = sub64 s.total_entries 1;
  events =
      s.events
      ++ (removed n.key n.entry.version_and_ttl n.entry.writer_node_hash ∷ wheel_remove n.key ∷ []);
}

-- applyExisting: the new entry in the old node, moved to the front.
abbrev pub apply_existing : List Node → Node → VersionedEntry → List Node
apply_existing nodes n entry = record n { entry = entry } ∷ erase_key nodes n.key

-- The accepted overwrite of putVersionedAt: counters and list, before the eviction.
unfoldable pub overwrite : Store → Node → VersionedEntry → Store
overwrite s old entry =
    let observed = observe_version s (add64 (version entry) 1) in
    record observed {
      nodes = apply_existing s.nodes old entry;
      current_bytes =
          add64 (sub64 s.current_bytes (node_size old)) (node_size (record old { entry = entry }));
      total_bytes =
          add64 (sub64 s.total_bytes (node_size old)) (node_size (record old { entry = entry }));
    }

-- What follows the eviction on the overwrite path.
unfoldable pub after_overwrite : Store → Node → ℕ → Store
after_overwrite s old at =
    let gone = emit s (removed old.key old.entry.version_and_ttl old.entry.writer_node_hash) in
    elim (find_node s.nodes old.key) [
      | none ↦ gone
      | some n ↦
          emit
            (update_wheel_at
              (emit gone (added n.key n.entry.version_and_ttl n.entry.writer_node_hash)) n at)
            (wal_set n.key n.entry)
    ]

-- The insertion of a new key: counters and list, before the eviction.
unfoldable pub insert_new : Store → Bytes → VersionedEntry → Store
insert_new s key entry =
    let node : Node = record { key = key; entry = entry } in
    let observed = observe_version s (add64 (version entry) 1) in
    record observed {
      nodes = node ∷ s.nodes;
      current_bytes = add64 s.current_bytes (node_size node);
      total_bytes = add64 s.total_bytes (node_size node);
      total_entries = add64 s.total_entries 1;
    }

-- What follows the eviction on the insertion path.
unfoldable pub after_insert : Store → Bytes → ℕ → Store
after_insert s key at = elim (find_node s.nodes key) [
  | none ↦ s
  | some n ↦
      emit
        (update_wheel_at (emit s (added n.key n.entry.version_and_ttl n.entry.writer_node_hash)) n
          at)
        (wal_set n.key n.entry)
]

abbrev pub is_less : LwwOrder → Bool
is_less less = true
is_less _ = false

abbrev pub done : Store → Store × Result (Unit {0})
done s = (s, ok tt)

unfoldable pub put_versioned_at : Store → Bytes → VersionedEntry → ℕ → Store × Result (Unit {0})
put_versioned_at s key entry at = elim (find_node s.nodes key) [
  | some old ↦
      if is_less (compare_lww (stamp_of entry) (stamp_of old.entry))
      then done s
      else done (after_overwrite (evict_if_needed (overwrite s old entry)) old at)
  | none ↦
      if ltb s.capacity (node_size (record { key = key; entry = entry }))
      then (
        s,
        err (record { code = Status.Errc.capacity_exceeded; message = "value exceeds capacity" }),
      )
      else done (after_insert (evict_if_needed (insert_new s key entry)) key at)
]

-- putVersioned reads the clock only for an entry with a time to live.
unfoldable pub put_versioned : ℕ → Store → Bytes → VersionedEntry → Store × Result (Unit {0})
put_versioned now s key entry = put_versioned_at s key entry (if has_ttl entry then now else 0)

-- put(key, value, ttl), the time to live in the clock's nanoseconds.
unfoldable pub put : ℕ → Store → Bytes → Bytes → Option ℕ → Store × Result (Unit {0})
put now s key value none =
    let (v, minted) = mint_version s in
    put_versioned now minted key (set_version (record fresh_entry { value = value }) v)
put now s key value (some ttl) =
    let (v, minted) = mint_version s in
    put_versioned_at minted key
      (set_has_ttl (set_version (record fresh_entry { value = value; expires_at = now + ttl }) v)
        true)
      now

abbrev pub is_expired : ℕ → VersionedEntry → Bool
is_expired now entry = has_ttl entry && leb entry.expires_at now

unfoldable pub get : ℕ → Store → Bytes → Store × Option Bytes
get now s key = elim (find_node s.nodes key) [
  | none ↦ (s, none)
  | some n ↦
      if is_expired now n.entry
      then (erase_node s n, none)
      else if is_tombstone n.entry
      then (s, none)
      else (record s { nodes = apply_existing s.nodes n n.entry }, some n.entry.value)
]

unfoldable pub get_versioned : ℕ → Store → Bytes → Store × Option VersionedEntry
get_versioned now s key = elim (find_node s.nodes key) [
  | none ↦ (s, none)
  | some n ↦ if is_expired now n.entry then (erase_node s n, none) else (s, some n.entry)
]

unfoldable pub remove : Store → Bytes → Store × Bool
remove s key = elim (find_node s.nodes key) [
  | none ↦ (s, false)
  | some n ↦ (erase_node (emit s (wal_del key (version n.entry) n.entry.writer_node_hash)) n, true)
]

-- evictExpired: what its callback does with a node that the TTL wheel fires. A node that fires early is
-- put back into the wheel; the shard's index has every node of its list.
unfoldable pub fire_node : ℕ → Store → Bytes → Store × ℕ
fire_node now s key = elim (find_node s.nodes key) [
  | none ↦ (s, 0)
  | some n ↦
      if is_expired now n.entry
      then (erase_node s n, 1)
      else (emit s (wheel_insert n.key (expiry_ticks_at n.entry.expires_at now)), 0)
]

-- The nodes that the wheel fires in the ticks of one call, by their keys and in their order, and the
-- number of those that were evicted.
unfoldable pub evict_expired : ℕ → Store → List Bytes → Store × ℕ
unfolding fire_node
evict_expired now s [] = (s, 0)
evict_expired now s (key ∷ fired) =
    let (t, evicted) = fire_node now s key in
    let (left, more) = evict_expired now t fired in (left, evicted + more)

-- removeVersioned: a tombstone that lives for the GC interval.
abbrev pub tombstone_of : ℕ → Store → ℕ → ℕ → VersionedEntry
tombstone_of now s v writer =
    set_has_ttl
      (record (set_tombstone (set_version fresh_entry v) true) {
        writer_node_hash = writer;
        expires_at = now + s.tombstone_gc;
      })
      true

unfoldable pub remove_versioned : ℕ → Store → Bytes → ℕ → ℕ → Store × Result (Unit {0})
remove_versioned now s key v writer = put_versioned_at s key (tombstone_of now s v writer) now

unfoldable pub set_tombstone_gc_interval : Store → ℕ → Store
set_tombstone_gc_interval s interval = record s { tombstone_gc = interval }

unfoldable pub size : Store → ℕ
size s = length s.nodes

-- liveEntries: what is not expired, tombstones included.
unfoldable pub live_entries : ℕ → List Node → List Node
live_entries now [] = []
live_entries now (n ∷ ns) =
    let rest = live_entries now ns in if is_expired now n.entry then rest else n ∷ rest

-- setCapacity, with the shard's slice of the new capacity.
unfoldable pub set_capacity : Store → ℕ → Store
set_capacity s capacity = evict_if_needed (record s { capacity = capacity })
