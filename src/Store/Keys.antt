-- ===== src/Store/Keys.antt =====
-- The list as a map: each key stands once, and how erasing and evicting change the search.
use cinder.Prelude.{
  ℕ, zero, suc, ◌+◌, ◌≡◌, refl, none, some, List, [], ◌∷◌, Bytes, same_bytes, same_bytes_iff,
  if◌then◌else◌, arith, Bool-cases, inl, inr,
}
use cinder.Store.{Node, node_size, find_node, erase_key}
use cinder.Store.Eviction.{total_size, keep_live}

-- No key stands twice.
abbrev pub IsUnique : List Node → Type 0
IsUnique [] = Unit {0}
IsUnique (n ∷ ns) = (find_node ns n.key ≡ none) × IsUnique ns

pub key_of_find :
    (ns : List Node) (key : Bytes) (n : Node) → find_node ns key ≡ some n → n.key ≡ key
unfolding find_node
key_of_find [] key n h = cc
key_of_find (m ∷ ns) key n h = ground (arith, same_bytes_iff m.key key, key_of_find ns key n)

pub total_size-erase_key :
    (ns : List Node) (key : Bytes) (n : Node)
    → find_node ns key ≡ some n
    → total_size (erase_key ns key) + node_size n ≡ total_size ns
unfolding find_node erase_key total_size
total_size-erase_key [] key n h = cc
total_size-erase_key (m ∷ ns) key n h = ground (arith, total_size-erase_key ns key n)

pub find_node-erase_key :
    (ns : List Node) (key j : Bytes)
    → IsUnique ns
    → find_node (erase_key ns key) j ≡ (if same_bytes key j then none else find_node ns j)
unfolding find_node erase_key
find_node-erase_key [] key j u = ground arith
find_node-erase_key (m ∷ ns) key j u = ground (
  arith,
  same_bytes_iff m.key key,
  same_bytes_iff m.key j,
  same_bytes_iff key j,
  find_node-erase_key ns key j u.1,
  u.0,
)

pub erase_key-IsUnique : (ns : List Node) (key : Bytes) → IsUnique ns → IsUnique (erase_key ns key)
unfolding erase_key
erase_key-IsUnique [] key u = tt
erase_key-IsUnique (m ∷ ns) key u = elim (Bool-cases (same_bytes m.key key)) [
  | inl e ↦ rw e u.1
  | inr e ↦ rw e (
    rw (find_node-erase_key ns key m.key u.1) (ground (arith, u.0)),
    erase_key-IsUnique ns key u.1,
  )
]

-- Eviction invents no node.
pub find_node-keep_live :
    (k : ℕ) (ns : List Node) (j : Bytes)
    → find_node ns j ≡ none
    → find_node (keep_live k ns) j ≡ none
unfolding find_node keep_live
find_node-keep_live k [] j h = refl
find_node-keep_live zero (m ∷ ns) j h = ground (arith, find_node-keep_live zero ns j)
find_node-keep_live (suc k) (m ∷ ns) j h =
    ground (arith, find_node-keep_live (suc k) ns j, find_node-keep_live k ns j)

pub keep_live-IsUnique : (k : ℕ) (ns : List Node) → IsUnique ns → IsUnique (keep_live k ns)
unfolding keep_live
keep_live-IsUnique k [] u = tt
keep_live-IsUnique zero (m ∷ ns) u =
    ground (arith, keep_live-IsUnique zero ns u.1, find_node-keep_live zero ns m.key u.0)
keep_live-IsUnique (suc k) (m ∷ ns) u = ground (
  arith,
  keep_live-IsUnique (suc k) ns u.1,
  keep_live-IsUnique k ns u.1,
  find_node-keep_live (suc k) ns m.key u.0,
  find_node-keep_live k ns m.key u.0,
)

-- What is found after an eviction was found before it.
pub find_node_before :
    (k : ℕ) (ns : List Node) (j : Bytes) (n : Node)
    → IsUnique ns
    → find_node (keep_live k ns) j ≡ some n
    → find_node ns j ≡ some n
unfolding find_node keep_live
find_node_before k [] j n u h = cc
find_node_before zero (m ∷ ns) j n u h = ground (
  arith,
  same_bytes_iff m.key j,
  find_node_before zero ns j n u.1,
  find_node-keep_live zero ns j,
  u.0,
)
find_node_before (suc k) (m ∷ ns) j n u h = ground (
  arith,
  same_bytes_iff m.key j,
  find_node_before (suc k) ns j n u.1,
  find_node_before k ns j n u.1,
  find_node-keep_live (suc k) ns j,
  find_node-keep_live k ns j,
  u.0,
)
