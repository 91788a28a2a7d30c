-- ===== src/Store/Writes.antt =====
-- putVersionedAt: what a versioned write leaves in the shard, and the last-writer-wins rule.
use cinder.Prelude.{
  ℕ, ◌+◌, ◌^◌, ◌<◌, ◌≡◌, refl, sym, ap, ◌∙◌, subst, Option, none, some, List, ◌∷◌, Bytes, ltb,
  if◌then◌else◌, arith, Bool-cases, Option-cases, inl, inr,
}
use cinder.Lww.{VersionedEntry, compare_lww, stamp_of}
use cinder.Store.{
  Node, Store, node_size, find_node, erase_key, is_less, overwrite, after_overwrite, insert_new,
  after_insert, evict_if_needed, put_versioned_at, observe_version, update_wheel_at, add64, sub64,
}
use cinder.Store.Eviction.{total_size, IsEvicted, IsExact, evict_if_needed-IsEvicted}
use cinder.Store.Keys.{key_of_find, total_size-erase_key}

-- The list that an accepted write hands to the eviction; `none` if the write is refused.
abbrev pub written : Store → Bytes → VersionedEntry → Option (List Node)
written s key entry = elim (find_node s.nodes key) [
  | some old ↦
      if is_less (compare_lww (stamp_of entry) (stamp_of old.entry))
      then none
      else some (record old { entry = entry } ∷ erase_key s.nodes old.key)
  | none ↦
      if ltb s.capacity (node_size (record { key = key; entry = entry }))
      then none
      else some (record { key = key; entry = entry } ∷ s.nodes)
]

-- A refused write changes nothing; an accepted one leaves what LRU eviction keeps of the written list.
abbrev pub Leaves : Store → Store → Option (List Node) → Type 0
Leaves s t none = t ≡ s
Leaves s t (some ns) = IsEvicted s.capacity ns t.nodes × IsExact t

after_overwrite_same :
    (s : Store) (old : Node) (at : ℕ)
    → ((after_overwrite s old at).nodes ≡ s.nodes)
      × ((after_overwrite s old at).current_bytes ≡ s.current_bytes)
unfolding after_overwrite update_wheel_at
after_overwrite_same s old at = ground arith

after_insert_same :
    (s : Store) (key : Bytes) (at : ℕ)
    → ((after_insert s key at).nodes ≡ s.nodes)
      × ((after_insert s key at).current_bytes ≡ s.current_bytes)
unfolding after_insert update_wheel_at
after_insert_same s key at = ground arith

-- An eviction, and then steps that leave the list and its counter alone.
settled :
    (s b t : Store) (ns : List Node)
    → b.nodes ≡ ns
    → b.capacity ≡ s.capacity
    → b.current_bytes ≡ total_size ns
    → total_size ns < 2 ^ 64
    → t.nodes ≡ (evict_if_needed b).nodes
    → t.current_bytes ≡ (evict_if_needed b).current_bytes
    → Leaves s t (some ns)
settled s b t ns en ec ex small tn tc =
    let size : total_size b.nodes ≡ total_size ns = ap total_size en in
    let (kept, exact) = evict_if_needed-IsEvicted b (ex ∙ sym size) (omega (arith, size)) in
    (
      subst (λ c. IsEvicted c ns t.nodes) ec
          (subst (λ l. IsEvicted b.capacity l t.nodes) en
            (subst (λ l. IsEvicted b.capacity b.nodes l) (sym tn) kept)),
      tc ∙ exact ∙ ap total_size (sym tn),
    )

overwrite_fields :
    (s : Store) (old : Node) (entry : VersionedEntry)
    → ((overwrite s old entry).nodes ≡ record old { entry = entry } ∷ erase_key s.nodes old.key)
      × ((overwrite s old entry).capacity ≡ s.capacity)
      × ((overwrite s old entry).current_bytes
          ≡ add64
              (sub64 s.current_bytes (node_size old))
              (node_size (record old { entry = entry })))
unfolding overwrite observe_version
overwrite_fields s old entry = ground arith

insert_fields :
    (s : Store) (key : Bytes) (entry : VersionedEntry)
    → ((insert_new s key entry).nodes ≡ record { key = key; entry = entry } ∷ s.nodes)
      × ((insert_new s key entry).capacity ≡ s.capacity)
      × ((insert_new s key entry).current_bytes
          ≡ add64 s.current_bytes (node_size (record { key = key; entry = entry })))
unfolding insert_new observe_version
insert_fields s key entry = ground arith

pub total_size_cons :
    (n : Node) (ns : List Node) → total_size (n ∷ ns) ≡ node_size n + total_size ns
unfolding total_size
total_size_cons n ns = refl

overwritten :
    (s : Store) (key : Bytes) (old : Node) (entry : VersionedEntry) (at : ℕ)
    → find_node s.nodes key ≡ some old
    → IsExact s
    → total_size s.nodes + node_size (record { key = key; entry = entry }) < 2 ^ 64
    → Leaves s
        (after_overwrite (evict_if_needed (overwrite s old entry)) old at)
        (some (record old { entry = entry } ∷ erase_key s.nodes old.key))
overwritten s key old entry at e x b =
    let (fn, fc, fb) = overwrite_fields s old entry in
    let b' = overwrite s old entry in
    let (an, ac) = after_overwrite_same (evict_if_needed b') old at in
    let at_key : find_node s.nodes old.key ≡ some old =
      subst (λ k. find_node s.nodes k ≡ some old) (sym (key_of_find s.nodes key old e)) e in
    let rest = total_size-erase_key s.nodes old.key old at_key in
    let same_size : node_size (record old { entry = entry })
        ≡ node_size (record { key = key; entry = entry }) =
      ap (λ (k : Bytes). node_size (record { key = k; entry = entry }))
        (key_of_find s.nodes key old e) in
    let size = total_size_cons (record old { entry = entry }) (erase_key s.nodes old.key) in
    settled s b' (after_overwrite (evict_if_needed b') old at)
      (record old { entry = entry } ∷ erase_key s.nodes old.key) fn fc
      (fb ∙ omega (arith, x, rest, same_size, b, size)) (omega (arith, rest, same_size, size)) an ac

inserted :
    (s : Store) (key : Bytes) (entry : VersionedEntry) (at : ℕ)
    → IsExact s
    → total_size s.nodes + node_size (record { key = key; entry = entry }) < 2 ^ 64
    → Leaves s
        (after_insert (evict_if_needed (insert_new s key entry)) key at)
        (some (record { key = key; entry = entry } ∷ s.nodes))
inserted s key entry at x b =
    let (fn, fc, fb) = insert_fields s key entry in
    let b' = insert_new s key entry in
    let (an, ac) = after_insert_same (evict_if_needed b') key at in
    let size = total_size_cons (record { key = key; entry = entry }) s.nodes in
    settled s b' (after_insert (evict_if_needed b') key at)
      (record { key = key; entry = entry } ∷ s.nodes) fn fc (fb ∙ omega (arith, x, b, size))
      (omega (arith, b, size)) an ac

-- While the byte counter is exact and the sizes stay below 2^64: a write that loses to the resident
-- entry, or whose new node alone is over the capacity, changes nothing; any other write puts its entry
-- in front, in the old node's place if there is one, leaves what LRU eviction keeps of that list, and
-- keeps the counter exact.
pub put_versioned_at-Leaves :
    (s : Store) (key : Bytes) (entry : VersionedEntry) (at : ℕ)
    → IsExact s
    → total_size s.nodes + node_size (record { key = key; entry = entry }) < 2 ^ 64
    → Leaves s (put_versioned_at s key entry at).0 (written s key entry)
unfolding put_versioned_at
put_versioned_at-Leaves s key entry at x b = elim (Option-cases (find_node s.nodes key)) [
  | inr (old, e) ↦ elim (Bool-cases (is_less (compare_lww (stamp_of entry) (stamp_of old.entry)))) [
    | inl lost ↦ rw (e, written, put_versioned_at) (rw lost refl)
    | inr won ↦ rw (e, written, put_versioned_at) (rw won (overwritten s key old entry at e x b))
  ]
  | inl e ↦ elim (Bool-cases (ltb s.capacity (node_size (record { key = key; entry = entry })))) [
    | inl large ↦ rw (e, written, put_versioned_at) (rw large refl)
    | inr fits ↦ rw (e, written, put_versioned_at) (rw fits (inserted s key entry at x b))
  ]
]
