-- ===== src/Ring.antt =====
-- hashing/consistent_hash_ring.cpp: the consistent-hash ring. A snapshot's parallel vectors `hashes` and
-- `node_index` are one list of points here. A mutator publishes by compare-and-swap and retries on the
-- winner's snapshot, so the mutators run one after another, and the model is one of them. hash64
-- (XXH3), the text of a virtual node's label and the order in which std::ranges::sort leaves equal
-- hashes are parameters.
pub mod Addition
pub mod Invariant
pub mod Reached
pub mod Removal
pub mod Replicas
pub mod Walk
use cinder.Prelude.{
  ℕ, zero, suc, ◌+◌, ◌%◌, ◌^◌, ◌-◌, ◌≤◌, Bool, true, false, not, ◌||◌, Option, none, some, List, [],
  ◌∷◌, ◌++◌, map, Bytes, same_bytes, length, take, drop, ltb, leb, ◌==◌, if◌then◌else◌,
}
use cinder.Status.{Result, Error, ok, err, invalid}

abbrev pub k_max_physical_nodes : ℕ
k_max_physical_nodes = 65536

abbrev pub k_max_replicas : ℕ
k_max_replicas = 32

pub record Point : Type 0 where
  pub hash : ℕ
  pub node_index : ℕ

pub record RingSnapshot : Type 0 where
  pub points : List Point
  pub physical_nodes : List Bytes
  pub load_cells : List ℕ

abbrev pub empty_ring : RingSnapshot
empty_ring = record { points = []; physical_nodes = []; load_cells = [] }

abbrev pub get_elem? {ℓ} : {A : Type ℓ} → List A → ℕ → Option A
get_elem? [] i = none
get_elem? (x ∷ xs) zero = some x
get_elem? (x ∷ xs) (suc i) = get_elem? xs i

-- v.erase(v.begin() + i)
abbrev pub erase {ℓ} : {A : Type ℓ} → List A → ℕ → List A
erase [] i = []
erase (x ∷ xs) zero = xs
erase (x ∷ xs) (suc i) = x ∷ erase xs i

-- The linear scans for a node.
unfoldable pub find_index : List Bytes → Bytes → Option ℕ
find_index [] id = none
find_index (n ∷ ns) id =
    if same_bytes n id
    then some 0
    else elim (find_index ns id) [ none ↦ none | some i ↦ some (suc i) ]

-- std::ranges::lower_bound of the hashes: how many stand before the first that is not below.
unfoldable pub lower_bound : List Point → ℕ → ℕ
lower_bound [] h = 0
lower_bound (p ∷ ps) h = if ltb p.hash h then suc (lower_bound ps h) else 0

unfoldable pub start_position : List Point → ℕ → ℕ
unfolding lower_bound
start_position points h = let i = lower_bound points h in if i == length points then 0 else i

-- physical_nodes[i]; out of range, which the code never is, the empty name.
abbrev pub node_name : List Bytes → ℕ → Bytes
node_name nodes i = elim (get_elem? nodes i) [ none ↦ [] | some n ↦ n ]

-- The node that a point stands for.
abbrev pub node_of : List Bytes → Option Point → Bytes
node_of nodes none = []
node_of nodes (some p) = node_name nodes p.node_index

abbrev pub renumber : ℕ → Point → Point
renumber k p = record p {
  node_index = if ltb k p.node_index then p.node_index - 1 else p.node_index;
}

-- removeNode's loop over the points.
unfoldable pub without : ℕ → List Point → List Point
without k [] = []
without k (p ∷ ps) = if p.node_index == k then without k ps else renumber k p ∷ without k ps

unfoldable pub remove_node : RingSnapshot → Bytes → RingSnapshot
unfolding find_index without
remove_node r id = elim (find_index r.physical_nodes id) [
  | none ↦ r
  | some k ↦
      let kept = without k r.points in
      if length kept == length r.points then r else record {
        points = kept;
        physical_nodes = erase r.physical_nodes k;
        load_cells = erase r.load_cells k;
      }
]

abbrev pub seen_before : ℕ → List ℕ → Bool
seen_before i [] = false
seen_before i (j ∷ js) = if j == i then true else seen_before i js

-- getNodes' loop over the positions in walking order. `seen` holds the indices whose names are the
-- result so far, in order.
unfoldable pub walk : List Point → ℕ → List ℕ → List ℕ
walk [] replica_count seen = seen
walk (p ∷ ps) replica_count seen =
    if ltb (length seen) replica_count
    then walk ps replica_count
        (if seen_before p.node_index seen then seen else seen ++ (p.node_index ∷ []))
    else seen

-- An atomic update of one cell.
abbrev pub update_at : List ℕ → ℕ → (ℕ → ℕ) → List ℕ
update_at [] i f = []
update_at (x ∷ xs) zero f = f x ∷ xs
update_at (x ∷ xs) (suc i) f = x ∷ update_at xs i f

abbrev pub total : List ℕ → ℕ
total [] = 0
total (x ∷ xs) = x + total xs

unfoldable pub change_load : RingSnapshot → Bytes → (ℕ → ℕ) → RingSnapshot
unfolding find_index
change_load r node f = elim (find_index r.physical_nodes node) [
  | none ↦ r
  | some i ↦ record r { load_cells = update_at r.load_cells i f }
]

unfoldable pub increment_load : RingSnapshot → Bytes → RingSnapshot
unfolding change_load
increment_load r node = change_load r node (λ n. (n + 1) % 2 ^ 64)

unfoldable pub decrement_load : RingSnapshot → Bytes → RingSnapshot
unfolding change_load
decrement_load r node = change_load r node (λ n. (n + 2 ^ 64 - 1) % 2 ^ 64)

unfoldable pub total_load : RingSnapshot → ℕ
total_load r = total r.load_cells % 2 ^ 64

unfoldable pub current_load : RingSnapshot → Bytes → ℕ
unfolding find_index
current_load r node = elim (find_index r.physical_nodes node) [
  | none ↦ 0
  | some i ↦ elim (get_elem? r.load_cells i) [ none ↦ 0 | some n ↦ n ]
]

module _ (hash64 : Bytes → ℕ) where
  unfoldable pub get_node : RingSnapshot → Bytes → Bytes
  unfolding start_position
  get_node r key =
      if length r.points == 0
      then []
      else node_of r.physical_nodes (get_elem? r.points (start_position r.points (hash64 key)))

  -- The walk starts at the key's position, wraps around, and ends before it comes back there.
  unfoldable pub get_nodes : RingSnapshot → Bytes → ℕ → Result (List Bytes)
  unfolding start_position walk
  get_nodes r key replica_count =
      if replica_count == 0 || ltb k_max_replicas replica_count
      then err (invalid "replica_count must be between 1 and 32")
      else let start = start_position r.points (hash64 key) in
        ok (
          map (node_name r.physical_nodes)
            (walk (drop start r.points ++ take start r.points) replica_count []))

  -- The virtual nodes of a node from number `i` on.
  unfoldable pub vnodes : (Bytes → ℕ → Bytes) → Bytes → ℕ → ℕ → ℕ → List Point
  vnodes label id index zero i = []
  vnodes label id index (suc n) i =
      record { hash = hash64 (label id i); node_index = index } ∷ vnodes label id index n (suc i)

  module _ (label : Bytes → ℕ → Bytes) (vnodes_per_node : ℕ) (sort : List Point → List Point) where
    -- An exception where the ring is full.
    unfoldable pub add_node : RingSnapshot → Bytes → Result RingSnapshot
    unfolding find_index vnodes
    add_node r id = elim (find_index r.physical_nodes id) [
      | some i ↦ ok r
      | none ↦
          if leb k_max_physical_nodes (length r.physical_nodes)
          then err (invalid "consistent hash ring exceeds uint16 node index capacity")
          else ok (record {
            points = sort (r.points ++ vnodes label id (length r.physical_nodes) vnodes_per_node 0);
            physical_nodes = r.physical_nodes ++ (id ∷ []);
            load_cells = r.load_cells ++ (0 ∷ []);
          })
    ]
