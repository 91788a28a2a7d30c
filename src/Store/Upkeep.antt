-- ===== src/Store/Upkeep.antt =====
-- The shard under each of its operations: its keys stay unique and its byte counter exact.
use cinder.Prelude.{
  ℕ, ◌+◌, ◌^◌, ◌<◌, ◌≤◌, ◌≡◌, refl, sym, subst, Option, none, some, List, [], ◌∷◌, Bytes, ltb,
  arith, Bool-cases, Option-cases, inl, inr,
}
use cinder.Lww.{
  VersionedEntry, compare_lww, stamp_of, is_tombstone, version, set_version, set_has_ttl,
  set_tombstone,
}
use cinder.Store.{
  put, mint_version, put_versioned, fire_node, evict_expired, wheel_insert, expiry_ticks_at, Node,
  Store, node_size, find_node, erase_key, is_less, put_versioned_at, erase_node, emit, get,
  get_versioned, remove, remove_versioned, tombstone_of, set_capacity, evict_if_needed, is_expired,
  wal_del,
}
use cinder.Store.Eviction.{total_size, IsEvicted, IsExact, evict_if_needed-IsEvicted}
use cinder.Store.Keys.{
  IsUnique, key_of_find, total_size-erase_key, erase_key-IsUnique, keep_live-IsUnique,
}
use cinder.Store.Writes.{written, Leaves, put_versioned_at-Leaves, total_size_cons}
use cinder.Store.Newest.{replaced-IsUnique}

-- No key stands twice, and the byte counter is the size of the nodes.
abbrev pub IsWellFormed : Store → Type 0
IsWellFormed s = IsUnique s.nodes × IsExact s

evicted-IsUnique :
    (capacity : ℕ) (ns kept : List Node) → IsUnique ns → IsEvicted capacity ns kept → IsUnique kept
evicted-IsUnique capacity ns kept u v =
    subst IsUnique (sym v.kept_eq) (keep_live-IsUnique v.count ns u)

left-IsWellFormed :
    (s t : Store) (ns : List Node) → IsUnique ns → Leaves s t (some ns) → IsWellFormed t
left-IsWellFormed s t ns u (v, x) = (evicted-IsUnique s.capacity ns t.nodes u v, x)

put-IsWellFormed :
    (s : Store) (key : Bytes) (entry : VersionedEntry) (at : ℕ)
    → IsWellFormed s
    → total_size s.nodes + node_size (record { key = key; entry = entry }) < 2 ^ 64
    → IsWellFormed (put_versioned_at s key entry at).0
put-IsWellFormed s key entry at (u, x) b =
    let t = (put_versioned_at s key entry at).0 in
    let left : (w : Option (List Node)) → written s key entry ≡ w → Leaves s t w =
      λ w h. subst (λ v. Leaves s t v) h (put_versioned_at-Leaves s key entry at x b) in
    elim (Option-cases (find_node s.nodes key)) [
      | inr (old, f) ↦
          elim (Bool-cases (is_less (compare_lww (stamp_of entry) (stamp_of old.entry)))) [
            | inl lost ↦
                subst IsWellFormed (sym (left none (rw (f, written) (rw lost refl)))) (u, x)
            | inr won ↦
                left-IsWellFormed s t (record old { entry = entry } ∷ erase_key s.nodes old.key)
                  (replaced-IsUnique s.nodes old entry u)
                  (left (some _) (rw (f, written) (rw won refl)))
          ]
      | inl f ↦
          elim (Bool-cases (ltb s.capacity (node_size (record { key = key; entry = entry })))) [
            | inl large ↦
                subst IsWellFormed (sym (left none (rw (f, written) (rw large refl)))) (u, x)
            | inr fits ↦
                left-IsWellFormed s t (record { key = key; entry = entry } ∷ s.nodes) (f, u)
                  (left (some _) (rw (f, written) (rw fits refl)))
          ]
    ]

module _ (s : Store) (key : Bytes) (n : Node) (u : IsUnique s.nodes) (x : IsExact s)
    (b : total_size s.nodes < 2 ^ 64) (f : find_node s.nodes key ≡ some n) where
  at_key : find_node s.nodes n.key ≡ some n
  at_key = subst (λ k. find_node s.nodes k ≡ some n) (sym (key_of_find s.nodes key n f)) f

  erased-IsWellFormed : IsWellFormed (erase_node s n)
  unfolding erase_node
  erased-IsWellFormed = (
    erase_key-IsUnique s.nodes n.key u,
    omega (arith, x, total_size-erase_key s.nodes n.key n at_key),
  )

  touched-IsWellFormed :
      IsWellFormed (record s { nodes = record n { entry = n.entry } ∷ erase_key s.nodes n.key })
  touched-IsWellFormed = (
    replaced-IsUnique s.nodes n n.entry u,
    omega (
      arith,
      x,
      total_size-erase_key s.nodes n.key n at_key,
      total_size_cons n (erase_key s.nodes n.key),
    ),
  )

module _ (s : Store) (key : Bytes) (now : ℕ) (u : IsUnique s.nodes) (x : IsExact s)
    (b : total_size s.nodes < 2 ^ 64) where
  get-IsWellFormed : IsWellFormed (get now s key).0
  unfolding get
  get-IsWellFormed = elim (Option-cases (find_node s.nodes key)) [
    | inl e ↦ rw (e, get) (u, x)
    | inr (n, e) ↦ elim (Bool-cases (is_expired now n.entry)) [
      | inl old ↦ rw (e, get) (rw old (erased-IsWellFormed s key n u x b e))
      | inr young ↦ elim (Bool-cases (is_tombstone n.entry)) [
        | inl gone ↦ rw (e, get) (rw (young, gone) (u, x))
        | inr kept ↦ rw (e, get) (rw (young, kept) (touched-IsWellFormed s key n u x b e))
      ]
    ]
  ]

  get_versioned-IsWellFormed : IsWellFormed (get_versioned now s key).0
  unfolding get_versioned
  get_versioned-IsWellFormed = elim (Option-cases (find_node s.nodes key)) [
    | inl e ↦ rw (e, get_versioned) (u, x)
    | inr (n, e) ↦ elim (Bool-cases (is_expired now n.entry)) [
      | inl old ↦ rw (e, get_versioned) (rw old (erased-IsWellFormed s key n u x b e))
      | inr young ↦ rw (e, get_versioned) (rw young (u, x))
    ]
  ]

  remove-IsWellFormed : IsWellFormed (remove s key).0
  unfolding remove
  remove-IsWellFormed = elim (Option-cases (find_node s.nodes key)) [
    | inl e ↦ rw (e, remove) (u, x)
    | inr (n, e) ↦
        rw (e, remove)
          (erased-IsWellFormed (emit s (wal_del key (version n.entry) n.entry.writer_node_hash)) key
            n u x b e)
  ]

  set_capacity-IsWellFormed : (capacity : ℕ) → IsWellFormed (set_capacity s capacity)
  unfolding set_capacity
  set_capacity-IsWellFormed capacity =
      let (v, exact) = evict_if_needed-IsEvicted (record s { capacity = capacity }) x b in
      (
        evicted-IsUnique capacity s.nodes (evict_if_needed (record s { capacity = capacity })).nodes
            u v,
        exact,
      )

-- A well-formed shard that is no larger than another.
abbrev IsShrunk : Store → Store → Type 0
IsShrunk s t = IsWellFormed t × (total_size t.nodes ≤ total_size s.nodes)

fire_node-IsShrunk :
    (now : ℕ) (s : Store) (key : Bytes)
    → IsWellFormed s
    → total_size s.nodes < 2 ^ 64
    → IsShrunk s (fire_node now s key).0
unfolding fire_node erase_node
fire_node-IsShrunk now s key (u, x) b = elim (Option-cases (find_node s.nodes key)) [
  | inl e ↦ moved_to {t = (s, 0)} (rw (e, fire_node) refl) ((u, x), omega arith)
  | inr (n, e) ↦ elim (Bool-cases (is_expired now n.entry)) [
    | inl old ↦ moved_to {t = (erase_node s n, 1)} (rw (e, fire_node) (rw old refl)) (
      erased-IsWellFormed s key n u x b e,
      omega (arith, total_size-erase_key s.nodes n.key n (at_key s key n u x b e)),
    )
    | inr young ↦
        moved_to {t = (emit s (wheel_insert n.key (expiry_ticks_at n.entry.expires_at now)), 0)}
          (rw (e, fire_node) (rw young refl)) ((u, x), omega arith)
  ]
]
  where
    moved_to :
        {t : Store × ℕ}
        → fire_node now s key ≡ t
        → IsShrunk s t.0
        → IsShrunk s (fire_node now s key).0
    moved_to p h = subst (λ (r : Store × ℕ). IsShrunk s r.0) (sym p) h

evict_expired-IsWellFormed :
    (now : ℕ) (keys : List Bytes) (s : Store)
    → IsWellFormed s
    → total_size s.nodes < 2 ^ 64
    → IsWellFormed (evict_expired now s keys).0
unfolding evict_expired
evict_expired-IsWellFormed now [] s w b = w
evict_expired-IsWellFormed now (key ∷ keys) s (u, x) b =
    let (w, smaller) = fire_node-IsShrunk now s key (u, x) b in
    evict_expired-IsWellFormed now keys (fire_node now s key).0 w (omega (arith, smaller, b))

put_key-IsWellFormed :
    (now : ℕ) (s : Store) (key : Bytes) (entry : VersionedEntry) (ttl : Option ℕ)
    → IsWellFormed s
    → total_size s.nodes + node_size (record { key = key; entry = entry }) < 2 ^ 64
    → IsWellFormed (put now s key entry.value ttl).0
unfolding put mint_version put_versioned node_size set_has_ttl set_version
put_key-IsWellFormed now s key entry none w b = put-IsWellFormed (mint_version s).1 key _ _ w b
put_key-IsWellFormed now s key entry (some ttl) w b =
    put-IsWellFormed (mint_version s).1 key _ now w b

tombstone-smaller :
    (now : ℕ) (s : Store) (v writer : ℕ) (key : Bytes) (entry : VersionedEntry)
    → node_size (record { key = key; entry = tombstone_of now s v writer })
      ≤ node_size (record { key = key; entry = entry })
unfolding node_size set_has_ttl set_tombstone set_version
tombstone-smaller now s v writer key entry = omega arith

-- From a shard whose keys are unique and whose byte counter is the size of its nodes, each of these
-- operations leaves such a shard, whatever branch it takes: put, a versioned write, a versioned removal,
-- the two reads, a removal, a change of the capacity, and evictExpired whatever nodes the TTL wheel
-- fires; the sizes stay below 2^64.
pub operations-IsWellFormed :
    (s : Store) (key : Bytes) (entry : VersionedEntry) (now v writer capacity : ℕ) (ttl : Option ℕ)
    (keys : List Bytes)
    → IsWellFormed s
    → total_size s.nodes + node_size (record { key = key; entry = entry }) < 2 ^ 64
    → IsWellFormed (put now s key entry.value ttl).0
      × IsWellFormed (put_versioned_at s key entry now).0
      × IsWellFormed (remove_versioned now s key v writer).0
      × IsWellFormed (get now s key).0
      × IsWellFormed (get_versioned now s key).0
      × IsWellFormed (remove s key).0
      × IsWellFormed (set_capacity s capacity)
      × IsWellFormed (evict_expired now s keys).0
unfolding remove_versioned
operations-IsWellFormed s key entry now v writer capacity ttl keys (u, x) b =
    let small : total_size s.nodes < 2 ^ 64 = omega (arith, b) in
    (
      put_key-IsWellFormed now s key entry ttl (u, x) b,
      put-IsWellFormed s key entry now (u, x) b,
      put-IsWellFormed s key (tombstone_of now s v writer) now (u, x)
          (omega (arith, b, tombstone-smaller now s v writer key entry)),
      get-IsWellFormed s key now u x small,
      get_versioned-IsWellFormed s key now u x small,
      remove-IsWellFormed s key now u x small,
      set_capacity-IsWellFormed s key now u x small capacity,
      evict_expired-IsWellFormed now keys s (u, x) small,
    )
