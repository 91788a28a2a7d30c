-- ===== src/Ring/Removal.antt =====
-- What a removal does to the owners of the keys.
use cinder.Prelude.{
  ℕ, zero, suc, ◌-◌, ◌<◌, ◌≤◌, ◌≡◌, ◌≢◌, refl, sym, ap, ◌∙◌, Bool, true, false, Option, none, some,
  List, [], ◌∷◌, Bytes, same_bytes→eq, length, ltb, ltb→lt, ◌==◌, ==_iff, if◌then◌else◌, arith,
  Bool-cases, Option-cases, inl, inr,
}
use cinder.Ring.{
  Point, RingSnapshot, get_elem?, erase, find_index, lower_bound, start_position, node_name,
  node_of, without, renumber, remove_node, get_node,
}

-- The owner: the first point that is not below the hash.
unfoldable pub reach : List Point → ℕ → Option Point
reach [] h = none
reach (p ∷ ps) h = if ltb p.hash h then reach ps h else some p

-- Around the ring: the first point where none is reached.
unfoldable pub owner : List Point → ℕ → Option Point
unfolding reach
owner [] h = none
owner (p ∷ ps) h = elim (reach (p ∷ ps) h) [ none ↦ some p | some q ↦ some q ]

lower_bound-reach :
    (ps : List Point) (h : ℕ)
    → (lower_bound ps h ≤ length ps) × (get_elem? ps (lower_bound ps h) ≡ reach ps h)
unfolding lower_bound reach
lower_bound-reach [] h = (omega arith, refl)
lower_bound-reach (p ∷ ps) h = elim (Bool-cases (ltb p.hash h)) [
  | inl less ↦ rw less (omega (arith, (lower_bound-reach ps h).0), (lower_bound-reach ps h).1)
  | inr more ↦ rw more (omega arith, refl)
]

beyond : (ps : List Point) → get_elem? ps (length ps) ≡ none
beyond [] = refl
beyond (p ∷ ps) = beyond ps

within : (ps : List Point) (i : ℕ) → i < length ps → get_elem? ps i ≢ none
within [] i h e = omega (arith, h)
within (p ∷ ps) zero h e = cc
within (p ∷ ps) (suc i) h e = within ps i (omega (arith, h)) e

pub start-owner : (ps : List Point) (h : ℕ) → get_elem? ps (start_position ps h) ≡ owner ps h
unfolding start_position owner
start-owner [] h = refl
start-owner (p ∷ ps) h =
    let (small, found) = lower_bound-reach (p ∷ ps) h in
    elim (Bool-cases (lower_bound (p ∷ ps) h == length (p ∷ ps))) [
      | inl all ↦
          let nothing : reach (p ∷ ps) h ≡ none =
            sym found
            ∙ ap (λ (n : ℕ). get_elem? (p ∷ ps) n) ((==_iff _ _).0 all)
            ∙ beyond (p ∷ ps) in
          rw all (rw (nothing, owner) refl)
      | inr some' ↦ elim (Option-cases (reach (p ∷ ps) h)) [
        | inl nothing ↦ absurd (
            within (p ∷ ps) (lower_bound (p ∷ ps) h) (ground (arith, small, some'))
              (found ∙ nothing))
        | inr (q, e) ↦ rw some' (rw (e, owner) (found ∙ e))
      ]
    ]

reach-without :
    (k : ℕ) (ps : List Point) (h : ℕ) (p : Point)
    → reach ps h ≡ some p
    → (p.node_index == k) ≡ false
    → reach (without k ps) h ≡ some (renumber k p)
unfolding reach without
reach-without k [] h p e n = absurd (cc)
reach-without k (q ∷ ps) h p e n = ground (arith, e, n, reach-without k ps h p)

none-without : (k : ℕ) (ps : List Point) (h : ℕ) → reach ps h ≡ none → reach (without k ps) h ≡ none
unfolding reach without
none-without k [] h e = refl
none-without k (q ∷ ps) h e = ground (arith, e, none-without k ps h)

reached : (ps : List Point) (h : ℕ) (p : Point) → reach ps h ≡ some p → owner ps h ≡ some p
unfolding owner
reached [] h p e = e
reached (q ∷ ps) h p e = rw (e, owner) refl

first_owner :
    (p : Point) (ps : List Point) (h : ℕ) → reach (p ∷ ps) h ≡ none → owner (p ∷ ps) h ≡ some p
unfolding owner
first_owner p ps h e = rw (e, owner) refl

owner-without :
    (k : ℕ) (ps : List Point) (h : ℕ) (p : Point)
    → owner ps h ≡ some p
    → (p.node_index == k) ≡ false
    → owner (without k ps) h ≡ some (renumber k p)
unfolding owner without
owner-without k [] h p e n = absurd (cc)
owner-without k (q ∷ ps) h p e n = elim (Option-cases (reach (q ∷ ps) h)) [
  | inl nothing ↦
      let first : q ≡ p = ground (arith, e, nothing) in
      let stays : (q.node_index == k) ≡ false = ap (λ (x : Point). x.node_index == k) first ∙ n in
      let shape : without k (q ∷ ps) ≡ renumber k q ∷ without k ps = rw stays refl in
      ap (λ l. owner l h) shape
      ∙ first_owner (renumber k q) (without k ps) h
          (ap (λ l. reach l h) (sym shape) ∙ none-without k (q ∷ ps) h nothing)
      ∙ ap (λ x. some (renumber k x)) first
  | inr (r, found) ↦
      let same : r ≡ p = ground (arith, e, found) in
      reached (without k (q ∷ ps)) h (renumber k p)
        (reach-without k (q ∷ ps) h p (found ∙ ap (λ x. some x) same) n)
]

zero-test : (k : ℕ) → (if ltb (suc k) 0 then 0 - 1 else 0) ≡ 0
zero-test k = ground arith

suc-test : (k i : ℕ) (b : Bool) → ltb k i ≡ b → ltb (suc k) (suc i) ≡ b
suc-test k i b h = ground (arith, h)

get_elem?-erase {ℓ} :
    {A : Type ℓ} (xs : List A) (k i : ℕ)
    → (i == k) ≡ false
    → k < length xs
    → get_elem? (erase xs k) (if ltb k i then i - 1 else i) ≡ get_elem? xs i
get_elem?-erase [] k i n h = absurd (omega (arith, h))
get_elem?-erase (x ∷ xs) zero zero n h = absurd (ground (arith, n))
get_elem?-erase (x ∷ xs) zero (suc i) n h = ap (λ (j : ℕ). get_elem? xs j) (ground arith)
get_elem?-erase (x ∷ xs) (suc k) zero n h =
    ap (λ (j : ℕ). get_elem? (x ∷ erase xs k) j) (zero-test k)
get_elem?-erase (x ∷ xs) (suc k) (suc i) n h = elim (Bool-cases (ltb k i)) [
  | inl above ↦ rw (suc-test k i true above) (
      let back : suc i - 1 ≡ suc (i - 1) = omega (arith, ltb→lt k i above) in
      ap (λ (j : ℕ). get_elem? (x ∷ erase xs k) j) back
      ∙ ap (λ (b : Bool). get_elem? (erase xs k) (if b then i - 1 else i)) (sym above)
      ∙ get_elem?-erase xs k i (ground (arith, n)) (omega (arith, h)))
  | inr below ↦ rw (suc-test k i false below) (
      ap (λ (b : Bool). get_elem? (erase xs k) (if b then i - 1 else i)) (sym below)
      ∙ get_elem?-erase xs k i (ground (arith, n)) (omega (arith, h)))
]

pub find_index_found :
    (ns : List Bytes) (id : Bytes) (k : ℕ)
    → find_index ns id ≡ some k
    → (k < length ns) × (get_elem? ns k ≡ some id)
unfolding find_index
find_index_found [] id k e = absurd (cc)
find_index_found (n ∷ ns) id zero e = ground (arith, e, same_bytes→eq n id)
find_index_found (n ∷ ns) id (suc k) e = ground (arith, e, find_index_found ns id k)

get_points :
    (ps : List Point) (nodes : List Bytes) (h : ℕ)
    → (if length ps == 0 then [] else node_of nodes (get_elem? ps (start_position ps h)))
      ≡ node_of nodes (owner ps h)
unfolding owner
get_points [] nodes h = refl
get_points (p ∷ ps) nodes h =
    ap
      (λ (b : Bool).
        if b then [] else node_of nodes (get_elem? (p ∷ ps) (start_position (p ∷ ps) h)))
      (never (length ps))
    ∙ ap (node_of nodes) (start-owner (p ∷ ps) h)
  where
    never : (n : ℕ) → (suc n == 0) ≡ false
    never n = ground arith

owner-none : (k : ℕ) (ps : List Point) (h : ℕ) → owner ps h ≡ none → owner (without k ps) h ≡ none
unfolding owner without
owner-none k [] h e = refl
owner-none k (p ∷ ps) h e = elim (Option-cases (reach (p ∷ ps) h)) [
  | inl nothing ↦ absurd (some_none (sym (first_owner p ps h nothing) ∙ e))
  | inr (q, found) ↦ absurd (some_none (sym (reached (p ∷ ps) h q found) ∙ e))
]
  where
    some_none : {q : Point} → some q ≢ none
    some_none e' = cc

kept_node :
    (r : RingSnapshot) (k h : ℕ) (o : Option Point)
    → owner r.points h ≡ o
    → k < length r.physical_nodes
    → node_of r.physical_nodes o ≢ node_name r.physical_nodes k
    → node_of (erase r.physical_nodes k) (owner (without k r.points) h) ≡ node_of r.physical_nodes o
kept_node r k h none e small other =
    ap (node_of (erase r.physical_nodes k)) (owner-none k r.points h e)
kept_node r k h (some p) e small other = elim (Bool-cases (p.node_index == k)) [
  | inl same ↦
      absurd (other (ap (λ (i : ℕ). node_name r.physical_nodes i) ((==_iff p.node_index k).0 same)))
  | inr differs ↦
      ap (node_of (erase r.physical_nodes k)) (owner-without k r.points h p e differs)
      ∙ ap (λ (n : Option Bytes). elim n [ none ↦ [] | some x ↦ x ])
          (get_elem?-erase r.physical_nodes k p.node_index differs small)
]

module _ (hash64 : Bytes → ℕ) where
  pub get_node-owner :
      (r : RingSnapshot) (key : Bytes)
      → get_node hash64 r key ≡ node_of r.physical_nodes (owner r.points (hash64 key))
  unfolding get_node owner
  get_node-owner r key = get_points r.points r.physical_nodes (hash64 key)

  -- For every ring and hash function: a key that another node than the removed one owns has the same
  -- owner after the removal.
  pub remove_node-get_node :
      (r : RingSnapshot) (id key : Bytes)
      → get_node hash64 r key ≢ id
      → get_node hash64 (remove_node r id) key ≡ get_node hash64 r key
  unfolding remove_node
  remove_node-get_node r id key other = elim (Option-cases (find_index r.physical_nodes id)) [
    | inl absent ↦ rw (absent, remove_node) refl
    | inr (k, found) ↦ elim (Bool-cases (length (without k r.points) == length r.points)) [
      | inl nothing ↦ rw (found, remove_node) (rw nothing refl)
      | inr some_left ↦
          let (small, named) = find_index_found r.physical_nodes id k found in
          rw (found, remove_node)
            (rw some_left (
              get_node-owner _ key
              ∙ kept_node r k (hash64 key) _ refl small (λ e. other (
                  get_node-owner r key
                  ∙ e
                  ∙ ap (λ (n : Option Bytes). elim n [ none ↦ [] | some x ↦ x ]) named))
              ∙ sym (get_node-owner r key)))
    ]
  ]
