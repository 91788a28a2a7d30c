-- ===== src/Ring/Invariant.antt =====
-- What holds of every snapshot that the ring publishes.
use cinder.Prelude.{
  ℕ, zero, suc, ◌-◌, ◌<◌, ◌≤◌, ◌≡◌, ◌≢◌, ◌⊎◌, refl, sym, ◌∙◌, subst, false, ◌||◌, none, List, [],
  ◌∷◌, ◌++◌, Bytes, same_bytes, same_bytes→eq, length, length-append, leb, ◌==◌, arith, Bool-cases,
  Option-cases, inl, inr,
}
use cinder.Status.{Result, Error, ok, err, invalid}
use cinder.Buffer.Lists.{Each}
use cinder.Ring.{
  Point, RingSnapshot, erase, find_index, without, renumber, remove_node, vnodes, add_node,
  k_max_physical_nodes,
}
use cinder.Ring.Removal.{find_index_found}
use cinder.Ring.Replicas.{NoTwins, InRange, has_name, Each-append, Each-map}

abbrev pub Sorted : List Point → Type 0
Sorted [] = Unit
Sorted (p ∷ ps) = Each (λ q. p.hash ≤ q.hash) ps × Sorted ps

pub record IsRing (r : RingSnapshot) : Type 0 where
  pub names : NoTwins r.physical_nodes
  pub indices : InRange r.physical_nodes r.points
  pub loads : length r.load_cells ≡ length r.physical_nodes
  pub order : Sorted r.points

Each-without :
    (P Q : Point → Type 0) (k : ℕ) (ps : List Point)
    → ((p : Point) → (p.node_index == k) ≡ false → P p → Q (renumber k p))
    → Each P ps
    → Each Q (without k ps)
unfolding without
Each-without P Q k [] h t = tt
Each-without P Q k (p ∷ ps) h t = elim (Bool-cases (p.node_index == k)) [
  | inl gone ↦ rw gone (Each-without P Q k ps h t.1)
  | inr stays ↦ rw stays (h p stays t.0, Each-without P Q k ps h t.1)
]

Sorted-without : (k : ℕ) (ps : List Point) → Sorted ps → Sorted (without k ps)
unfolding without
Sorted-without k [] s = tt
Sorted-without k (p ∷ ps) s = elim (Bool-cases (p.node_index == k)) [
  | inl gone ↦ rw gone (Sorted-without k ps s.1)
  | inr stays ↦ rw stays (
    Each-without (λ q. p.hash ≤ q.hash) (λ q. p.hash ≤ q.hash) k ps (λ q n h. h) s.0,
    Sorted-without k ps s.1,
  )
]

length-erase {ℓ} :
    {A : Type ℓ} (xs : List A) (k : ℕ) → k < length xs → length (erase xs k) ≡ length xs - 1
length-erase [] k h = absurd (omega (arith, h))
length-erase (x ∷ xs) zero h = omega arith
length-erase (x ∷ xs) (suc k) h = omega (arith, h, length-erase xs k)

has_name-erase :
    (n : Bytes) (ns : List Bytes) (k : ℕ) → has_name n ns ≡ false → has_name n (erase ns k) ≡ false
has_name-erase n [] k h = h
has_name-erase n (m ∷ ns) zero h = ground (arith, h)
has_name-erase n (m ∷ ns) (suc k) h = ground (arith, h, has_name-erase n ns k)

NoTwins-erase : (ns : List Bytes) (k : ℕ) → NoTwins ns → NoTwins (erase ns k)
NoTwins-erase [] k t = tt
NoTwins-erase (n ∷ ns) zero t = t.1
NoTwins-erase (n ∷ ns) (suc k) t = (has_name-erase n ns k t.0, NoTwins-erase ns k t.1)

-- A removal keeps the snapshot well formed: its node names are different, its points' indices are in
-- range, there is a load cell for each node, and its points are in the order of their hashes.
pub remove_node-IsRing : (r : RingSnapshot) (id : Bytes) → IsRing r → IsRing (remove_node r id)
unfolding remove_node
remove_node-IsRing r id w = elim (Option-cases (find_index r.physical_nodes id)) [
  | inl absent ↦ rw (absent, remove_node) w
  | inr (k, found) ↦ elim (Bool-cases (length (without k r.points) == length r.points)) [
    | inl nothing ↦ rw (found, remove_node) (rw nothing w)
    | inr some_left ↦
        let small = (find_index_found r.physical_nodes id k found).0 in
        rw (found, remove_node)
          (rw some_left (record {
            names = NoTwins-erase r.physical_nodes k w.names;
            indices =
                Each-without (λ p. p.node_index < length r.physical_nodes) _ k r.points
                  (λ p n h. ground (arith, n, h, small, length-erase r.physical_nodes k)) w.indices;
            loads = omega (
              arith,
              w.loads,
              length-erase r.load_cells k (omega (arith, small, w.loads)),
              length-erase r.physical_nodes k small,
            );
            order = Sorted-without k r.points w.order;
          }))
  ]
]

absent-has_name : (ns : List Bytes) (id : Bytes) → find_index ns id ≡ none → has_name id ns ≡ false
unfolding find_index
absent-has_name [] id h = refl
absent-has_name (n ∷ ns) id h = ground (arith, h, absent-has_name ns id)

has_name-append :
    (n m : Bytes) (ns : List Bytes)
    → has_name n (ns ++ (m ∷ [])) ≡ (has_name n ns || same_bytes m n)
has_name-append n m [] = ground arith
has_name-append n m (x ∷ ns) = ground (arith, has_name-append n m ns)

NoTwins-append :
    (ns : List Bytes) (id : Bytes) → NoTwins ns → has_name id ns ≡ false → NoTwins (ns ++ (id ∷ []))
NoTwins-append [] id t h = (refl, tt)
NoTwins-append (n ∷ ns) id t h = (
  ground (arith, t.0, h, has_name-append n id ns, same_bytes→eq id n, same_bytes→eq n id),
  NoTwins-append ns id t.1 (ground (arith, h)),
)

vnodes-InRange :
    (hash64 : Bytes → ℕ) (label : Bytes → ℕ → Bytes) (id : Bytes) (index size n i : ℕ)
    → index < size
    → Each (λ p. p.node_index < size) (vnodes hash64 label id index n i)
unfolding vnodes
vnodes-InRange hash64 label id index size zero i h = tt
vnodes-InRange hash64 label id index size (suc n) i h =
    (h, vnodes-InRange hash64 label id index size n (suc i) h)

err-ok {ℓ} : {A : Type ℓ} {x : Error} {a : A} → ◌≢◌ {A = Result A} (err x) (ok a)
err-ok e = absurd (cc)

ok-injective {ℓ} : {A : Type ℓ} {a b : A} → ◌≡◌ {A = Result A} (ok a) (ok b) → a ≡ b
ok-injective e = cc

-- std::ranges::sort: the same elements, in the order of their hashes.
module _ (hash64 : Bytes → ℕ) (label : Bytes → ℕ → Bytes) (vnodes_per_node : ℕ)
    (sort : List Point → List Point)
    (sort_keeps : (P : Point → Type 0) (ps : List Point) → Each P ps → Each P (sort ps))
    (sort_orders : (ps : List Point) → Sorted (sort ps)) where
  abbrev pub added : RingSnapshot → Bytes → RingSnapshot
  added r id = record {
    points = sort (r.points ++ vnodes hash64 label id (length r.physical_nodes) vnodes_per_node 0);
    physical_nodes = r.physical_nodes ++ (id ∷ []);
    load_cells = r.load_cells ++ (0 ∷ []);
  }

  added-IsRing :
      (r : RingSnapshot) (id : Bytes)
      → IsRing r
      → find_index r.physical_nodes id ≡ none
      → IsRing (added r id)
  added-IsRing r id w absent = record {
    names = NoTwins-append r.physical_nodes id w.names (absent-has_name r.physical_nodes id absent);
    indices =
        sort_keeps (λ p. p.node_index < length (r.physical_nodes ++ (id ∷ []))) _
          (Each-append (λ p. p.node_index < length (r.physical_nodes ++ (id ∷ []))) r.points _
            (Each-map _ (λ p. p.node_index < length (r.physical_nodes ++ (id ∷ []))) r.points
              (λ p h. omega (arith, h, length-append r.physical_nodes (id ∷ []))) w.indices)
            (vnodes-InRange hash64 label id (length r.physical_nodes)
              (length (r.physical_nodes ++ (id ∷ []))) vnodes_per_node 0
              (omega (arith, length-append r.physical_nodes (id ∷ [])))));
    loads = omega (
      arith,
      w.loads,
      length-append r.load_cells (0 ∷ []),
      length-append r.physical_nodes (id ∷ []),
    );
    order = sort_orders _;
  }

  pub add_node_cases :
      (r out : RingSnapshot) (id : Bytes)
      → add_node hash64 label vnodes_per_node sort r id ≡ ok out
      → (r ≡ out) ⊎ ((find_index r.physical_nodes id ≡ none) × (added r id ≡ out))
  unfolding add_node
  add_node_cases r out id e = elim (Option-cases (find_index r.physical_nodes id)) [
    | inl absent ↦ elim (Bool-cases (leb k_max_physical_nodes (length r.physical_nodes))) [
      | inl full ↦
          let refused : add_node hash64 label vnodes_per_node sort r id
              ≡ err (invalid "consistent hash ring exceeds uint16 node index capacity") =
            rw (absent, add_node) (rw full refl) in
          absurd (err-ok (sym refused ∙ e))
      | inr room ↦
          let grown : add_node hash64 label vnodes_per_node sort r id ≡ ok (added r id) =
            rw (absent, add_node) (rw room refl) in
          inr (absent, ok-injective (sym grown ∙ e))
    ]
    | inr (k, found) ↦
        let same : add_node hash64 label vnodes_per_node sort r id ≡ ok r =
          rw (found, add_node) refl in
        inl (ok-injective (sym same ∙ e))
  ]

  -- An added node that is not refused leaves the snapshot well formed, as a removal does, for every sort
  -- that keeps the elements and orders them by hash.
  pub add_node-IsRing :
      (r out : RingSnapshot) (id : Bytes)
      → IsRing r
      → add_node hash64 label vnodes_per_node sort r id ≡ ok out
      → IsRing out
  add_node-IsRing r out id w e = elim (add_node_cases r out id e) [
    | inl same ↦ subst IsRing same w
    | inr (absent, grown) ↦ subst IsRing grown (added-IsRing r id w absent)
  ]
