-- ===== src/Tests/Store.antt =====
-- A shard that holds two nodes of 122 bytes each.
use cinder.Prelude.{ℕ, ◌*◌, ◌≡◌, refl, [], ◌∷◌, some, arith}
use cinder.Lww.{VersionedEntry, fresh_entry, version, is_tombstone, compare_lww, stamp_of, has_ttl}
use cinder.Store.{
  Node, Store, node_size, find_node, erase_key, put_versioned_at, put, evict_expired,
  evict_if_needed, get, get_versioned, remove, remove_versioned, set_capacity, overwrite,
  observe_version, evict_loop, evict_one, split_victim, after_overwrite, update_wheel_at, removed,
  wheel_remove, insert_new, after_insert,
}
use cinder.Store.Upkeep.{IsWellFormed, operations-IsWellFormed}
use cinder.Store.ReadBack.{get-put_versioned_at}
use cinder.Store.Eviction.{total_size, IsEvicted, IsExact, evict_if_needed-IsEvicted}
use cinder.Store.Writes.{written, Leaves, put_versioned_at-Leaves}
use cinder.Store.Newest.{IsNewest, put_versioned_at-IsNewest}

abbrev entry : ℕ → VersionedEntry
entry v = record fresh_entry { version_and_ttl = v * 4; value = 1 ∷ [] }

abbrev node : ℕ → ℕ → Node
node key v = record { key = key ∷ []; entry = entry v }

abbrev shard : ℕ → Store
shard capacity = record {
  nodes = node 97 3 ∷ node 98 2 ∷ [];
  current_bytes = 244;
  capacity = capacity;
  next_version = 4;
  total_bytes = 244;
  total_entries = 2;
  tombstone_gc = 60;
  events = [];
}

-- A third key in a shard for two: the least recently used node goes.
third_key :
    (put_versioned_at (shard 250) (99 ∷ []) (entry 9) 0).0.nodes ≡ node 99 9 ∷ node 97 3 ∷ []
unfolding put_versioned_at find_node insert_new observe_version evict_if_needed evict_loop evict_one
    split_victim after_insert update_wheel_at node_size version is_tombstone has_ttl
third_key = refl

evict_if_needed-IsEvicted_example :
    IsEvicted 130 (shard 130).nodes (evict_if_needed (shard 130)).nodes
    × IsExact (evict_if_needed (shard 130))
unfolding total_size node_size
evict_if_needed-IsEvicted_example = evict_if_needed-IsEvicted (shard 130) refl (omega arith)

put_versioned_at-Leaves_example :
    Leaves
      (shard 250)
      (put_versioned_at (shard 250) (98 ∷ []) (entry 9) 0).0
      (written (shard 250) (98 ∷ []) (entry 9))
unfolding total_size node_size
put_versioned_at-Leaves_example =
    put_versioned_at-Leaves (shard 250) (98 ∷ []) (entry 9) 0 refl (omega arith)

put_versioned_at-IsNewest_example : IsNewest (98 ∷ []) (98 ∷ []) (entry 9) (node 98 2) (node 98 9)
unfolding put_versioned_at find_node erase_key overwrite observe_version evict_if_needed evict_loop
    evict_one split_victim after_overwrite update_wheel_at total_size node_size version is_tombstone
    has_ttl compare_lww stamp_of
put_versioned_at-IsNewest_example =
    put_versioned_at-IsNewest (shard 250) (98 ∷ []) (98 ∷ []) (entry 9) 0 (node 98 2) (node 98 9)
      (refl, (refl, tt)) refl (omega arith) refl refl

operations-IsWellFormed_example :
    IsWellFormed (put 5 (shard 250) (99 ∷ []) (entry 9).value (some 3)).0
    × IsWellFormed (put_versioned_at (shard 250) (99 ∷ []) (entry 9) 5).0
    × IsWellFormed (remove_versioned 5 (shard 250) (99 ∷ []) 7 8).0
    × IsWellFormed (get 5 (shard 250) (99 ∷ [])).0
    × IsWellFormed (get_versioned 5 (shard 250) (99 ∷ [])).0
    × IsWellFormed (remove (shard 250) (99 ∷ [])).0
    × IsWellFormed (set_capacity (shard 250) 130)
    × IsWellFormed (evict_expired 5 (shard 250) ((97 ∷ []) ∷ (98 ∷ []) ∷ [])).0
unfolding total_size node_size find_node
operations-IsWellFormed_example =
    operations-IsWellFormed (shard 250) (99 ∷ []) (entry 9) 5 7 8 130 (some 3)
      ((97 ∷ []) ∷ (98 ∷ []) ∷ []) ((refl, (refl, tt)), refl) (omega arith)

get-put_versioned_at_example :
    ((get 6 (put_versioned_at (shard 400) (99 ∷ []) (entry 9) 5).0 (99 ∷ [])).1 ≡ some (1 ∷ []))
    × ((get_versioned 6 (put_versioned_at (shard 400) (99 ∷ []) (entry 9) 5).0 (99 ∷ [])).1
        ≡ some (entry 9))
unfolding total_size node_size find_node is_tombstone has_ttl
get-put_versioned_at_example =
    get-put_versioned_at (shard 400) (99 ∷ []) (entry 9) 5 6
      (node 99 9 ∷ node 97 3 ∷ node 98 2 ∷ []) refl (omega arith) (omega arith) refl

-- Two tombstones that eviction may not take, in a shard with no room for a third node.
abbrev graves : Store
graves = record (shard 250) {
  nodes =
      record { key = 97 ∷ []; entry = record (entry 3) { version_and_ttl = 14 } }
      ∷ record { key = 98 ∷ []; entry = record (entry 2) { version_and_ttl = 10 } }
      ∷ [];
}

-- The new node evicts itself, and the sink hears of its removal alone.
self_evicted :
    (put_versioned_at graves (99 ∷ []) (entry 9) 0).0.events
    ≡ removed (99 ∷ []) 36 0 ∷ wheel_remove (99 ∷ []) ∷ []
unfolding put_versioned_at find_node insert_new observe_version evict_if_needed evict_loop evict_one
    split_victim after_insert update_wheel_at node_size version is_tombstone has_ttl
self_evicted = refl
