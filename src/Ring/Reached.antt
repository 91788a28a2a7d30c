-- ===== src/Ring/Reached.antt =====
-- The rings that additions and removals lead to.
use cinder.Prelude.{ℕ, ◌≡◌, refl, List, Bytes}
use cinder.Status.{ok}
use cinder.Buffer.Lists.{Each}
use cinder.Ring.{Point, RingSnapshot, empty_ring, add_node, remove_node}
use cinder.Ring.Invariant.{Sorted, IsRing, add_node-IsRing, remove_node-IsRing}

module _ (hash64 : Bytes → ℕ) (label : Bytes → ℕ → Bytes) (vnodes_per_node : ℕ)
    (sort : List Point → List Point) where
  -- A ring that some additions which were not refused and some removals make of the empty ring.
  pub data Reached : RingSnapshot → Type 0 where
    start : Reached empty_ring
    after_add :
        {r out : RingSnapshot} (id : Bytes)
        → Reached r
        → add_node hash64 label vnodes_per_node sort r id ≡ ok out
        → Reached out
    after_remove : {r : RingSnapshot} (id : Bytes) → Reached r → Reached (remove_node r id)

  empty-IsRing : IsRing empty_ring
  empty-IsRing = record { names = tt; indices = tt; loads = refl; order = tt }

  -- For every sort that keeps the elements and orders them by hash: whatever additions and removals
  -- made of the empty ring, the names of its nodes are different, each point's index is one of a node,
  -- there is one load cell for each node, and the points are in the order of their hashes.
  pub Reached-IsRing :
      ((P : Point → Type 0) (ps : List Point) → Each P ps → Each P (sort ps))
      → ((ps : List Point) → Sorted (sort ps))
      → (r : RingSnapshot) → Reached r
      → IsRing r
  Reached-IsRing keeps orders _ start = empty-IsRing
  Reached-IsRing keeps orders r (after_add {r = before} id h e) =
      add_node-IsRing hash64 label vnodes_per_node sort keeps orders before r id
        (Reached-IsRing keeps orders before h) e
  Reached-IsRing keeps orders _ (after_remove {r = before} id h) =
      remove_node-IsRing before id (Reached-IsRing keeps orders before h)
