-- ===== src/Ring/Addition.antt =====
-- What an addition does to the owners of the keys.
use cinder.Prelude.{
  ℕ, zero, suc, ◌<◌, ◌≤◌, ◌≡◌, ◌⊎◌, refl, sym, ap, ◌∙◌, subst, none, some, List, [], ◌∷◌, ◌++◌,
  Bytes, length, ltb, ltb→lt, arith, Bool-cases, Option-cases, inl, inr,
}
use cinder.Status.{ok}
use cinder.Buffer.Lists.{Each}
use cinder.Ring.{Point, RingSnapshot, node_name, node_of, vnodes, add_node, get_node}
use cinder.Ring.Removal.{owner, reach, get_node-owner}
use cinder.Ring.Replicas.{InRange, Each-append, Each-map, Each-split}
use cinder.Ring.Invariant.{Sorted, IsRing, added, add_node_cases}

abbrev pub In : Point → List Point → Type 0
In p [] = ⊥
In p (q ∷ qs) = (p ≡ q) ⊎ In p qs

pub Each-In : (P : Point → Type 0) (p : Point) (ps : List Point) → In p ps → Each P ps → P p
Each-In P p [] m t = elim m [ ]
Each-In P p (q ∷ qs) (inl e) t = subst P (sym e) t.0
Each-In P p (q ∷ qs) (inr m) t = Each-In P p qs m t.1

all_In : (ps : List Point) → Each (λ p. In p ps) ps
all_In [] = tt
all_In (p ∷ ps) =
    (inl refl, Each-map (λ q. In q ps) (λ q. In q (p ∷ ps)) ps (λ q m. inr m) (all_In ps))

reach-In : (ps : List Point) (h : ℕ) (p : Point) → reach ps h ≡ some p → In p ps
unfolding reach
reach-In [] h p e = absurd (cc)
reach-In (q ∷ qs) h p e = elim (Bool-cases (ltb q.hash h)) [
  | inl low ↦ inr (reach-In qs h p (ground (arith, e, low)))
  | inr high ↦ inl (ground (arith, e, high))
]

reach-least :
    (ps : List Point) (h : ℕ) (p : Point)
    → Sorted ps
    → reach ps h ≡ some p
    → (h ≤ p.hash) × Each (λ q. (q.hash < h) ⊎ (p.hash ≤ q.hash)) ps
unfolding reach
reach-least [] h p s e = absurd (cc)
reach-least (q ∷ qs) h p s e = elim (Bool-cases (ltb q.hash h)) [
  | inl low ↦
      let (above, rest) = reach-least qs h p s.1 (ground (arith, e, low)) in
      (above, (inl (ltb→lt q.hash h low), rest))
  | inr high ↦
      let same : p ≡ q = ground (arith, e, high) in
      (
        ground (arith, same, high),
        (
          inr (ground (arith, same)),
          Each-map (λ x. q.hash ≤ x.hash) (λ x. (x.hash < h) ⊎ (p.hash ≤ x.hash)) qs
              (λ x m. inr (subst (λ y. y.hash ≤ x.hash) (sym same) m)) s.0,
        ),
      )
]

reach-none : (ps : List Point) (h : ℕ) → reach ps h ≡ none → Each (λ q. q.hash < h) ps
unfolding reach
reach-none [] h e = tt
reach-none (q ∷ qs) h e = (ground (arith, e), reach-none qs h (ground (arith, e)))

-- The point that owns a hash: the least that is not below it, or the least of all.
record Owns (ps : List Point) (h : ℕ) (p : Point) : Type 0 where
  member : In p ps
  least :
      ((h ≤ p.hash) × Each (λ q. (q.hash < h) ⊎ (p.hash ≤ q.hash)) ps)
      ⊎ (Each (λ q. q.hash < h) ps × Each (λ q. p.hash ≤ q.hash) ps)

owner-Owns : (ps : List Point) (h : ℕ) (p : Point) → Sorted ps → owner ps h ≡ some p → Owns ps h p
unfolding owner
owner-Owns [] h p s e = absurd (cc)
owner-Owns (q ∷ qs) h p s e = elim (Option-cases (reach (q ∷ qs) h)) [
  | inl nothing ↦
      let first : q ≡ p = ground (arith, e, nothing) in
      record {
        member = inl (sym first);
        least = inr (
          reach-none (q ∷ qs) h nothing,
          subst (λ y. Each (λ x. y.hash ≤ x.hash) (q ∷ qs)) first (omega arith, s.0),
        );
      }
  | inr (r, found) ↦
      let same : r ≡ p = ground (arith, e, found) in
      let reached = found ∙ ap (λ x. some x) same in
      record {
        member = reach-In (q ∷ qs) h p reached;
        least = inl (reach-least (q ∷ qs) h p s reached);
      }
]

-- The owner among more points, where it is one of the fewer, has the hash of the owner among those.
same_hash :
    (ps qs : List Point) (h : ℕ) (p p' : Point)
    → ((P : Point → Type 0) → Each P qs → Each P ps)
    → Owns ps h p
    → Owns qs h p'
    → In p' ps
    → p.hash ≡ p'.hash
same_hash ps qs h p p' fewer w v m = go w.least v.least
  where
    go :
        ((h ≤ p.hash) × Each (λ q. (q.hash < h) ⊎ (p.hash ≤ q.hash)) ps)
          ⊎ (Each (λ q. q.hash < h) ps × Each (λ q. p.hash ≤ q.hash) ps)
        → ((h ≤ p'.hash) × Each (λ q. (q.hash < h) ⊎ (p'.hash ≤ q.hash)) qs)
          ⊎ (Each (λ q. q.hash < h) qs × Each (λ q. p'.hash ≤ q.hash) qs)
        → p.hash ≡ p'.hash
    go (inl (a, s)) (inl (b, t)) =
        ground (arith, a, b, Each-In _ p' ps m s, Each-In _ p ps w.member (fewer _ t))
    go (inl (a, s)) (inr (b, t)) =
        omega (arith, a, Each-In (λ q. q.hash < h) p ps w.member (fewer _ b))
    go (inr (a, s)) (inl (b, t)) = omega (arith, b, Each-In (λ q. q.hash < h) p' ps m a)
    go (inr (a, s)) (inr (b, t)) = omega (
      arith,
      Each-In (λ q. p.hash ≤ q.hash) p' ps m s,
      Each-In (λ q. p'.hash ≤ q.hash) p ps w.member (fewer _ t),
    )

owner-none : (ps : List Point) (h : ℕ) → owner ps h ≡ none → Each (λ q. ⊥) ps
unfolding owner
owner-none [] h e = tt
owner-none (p ∷ ps) h e = elim (Option-cases (reach (p ∷ ps) h)) [
  | inl nothing ↦ absurd (ground (arith, e, nothing))
  | inr (q, found) ↦ absurd (ground (arith, e, found))
]

none-owner : (ps : List Point) (h : ℕ) → Each (λ q. ⊥) ps → owner ps h ≡ none
unfolding owner
none-owner [] h t = refl
none-owner (p ∷ ps) h t = absurd t.0

name_of_old :
    (ns : List Bytes) (id : Bytes) (i : ℕ)
    → i < length ns
    → node_name (ns ++ (id ∷ [])) i ≡ node_name ns i
name_of_old [] id i h = absurd (omega (arith, h))
name_of_old (n ∷ ns) id zero h = refl
name_of_old (n ∷ ns) id (suc i) h = name_of_old ns id i (omega (arith, h))

name_of_new : (ns : List Bytes) (id : Bytes) → node_name (ns ++ (id ∷ [])) (length ns) ≡ id
name_of_new [] id = refl
name_of_new (n ∷ ns) id = name_of_new ns id

-- No two points share a hash.
abbrev pub NoCollision : List Point → Type 0
NoCollision ps = (p q : Point) → In p ps → In q ps → p.hash ≡ q.hash → p ≡ q

vnodes_index :
    (hash64 : Bytes → ℕ) (label : Bytes → ℕ → Bytes) (id : Bytes) (index n i : ℕ) (ps : List Point)
    → Each (λ x. (x.node_index ≡ index) ⊎ In x ps) (vnodes hash64 label id index n i)
unfolding vnodes
vnodes_index hash64 label id index zero i ps = tt
vnodes_index hash64 label id index (suc n) i ps =
    (inl refl, vnodes_index hash64 label id index n (suc i) ps)

-- The owner's name among the points of a ring and those of a new node.
new_owner :
    (ps new all : List Point) (nodes : List Bytes) (id : Bytes) (h : ℕ)
    → Sorted ps
    → InRange nodes ps
    → Each (λ x. (x.node_index ≡ length nodes) ⊎ In x ps) new
    → Sorted all
    → ((P : Point → Type 0) → Each P (ps ++ new) → Each P all)
    → ((P : Point → Type 0) → Each P all → Each P (ps ++ new))
    → NoCollision all
    → (node_of (nodes ++ (id ∷ [])) (owner all h) ≡ id)
      ⊎ (node_of (nodes ++ (id ∷ [])) (owner all h) ≡ node_of nodes (owner ps h))
new_owner ps new all nodes id h s t origin u there back unique = elim (Option-cases (owner all h)) [
  | inl nothing ↦ inr (
      rw (nothing, node_of)
        (rw (none-owner ps h (fewer (λ q. ⊥) (owner-none all h nothing)), node_of) refl))
  | inr (p', found) ↦
      elim (Each-In (λ x. (x.node_index ≡ length nodes) ⊎ In x ps) p' all
        (owner-Owns all h p' u found).member sources) [
          | inl index ↦ inl (
              ap (node_of (nodes ++ (id ∷ []))) found
              ∙ ap (λ (i : ℕ). node_name (nodes ++ (id ∷ [])) i) index
              ∙ name_of_new nodes id)
          | inr old ↦ elim (Option-cases (owner ps h)) [
            | inl none_before ↦ absurd (Each-In (λ q. ⊥) p' ps old (owner-none ps h none_before))
            | inr (p, before) ↦
                let w = owner-Owns ps h p s before in
                let v = owner-Owns all h p' u found in
                let same : p' ≡ p =
                  unique p' p v.member
                    (Each-In (λ q. In q all) p ps w.member (fewer (λ q. In q all) (all_In all)))
                    (sym (same_hash ps all h p p' fewer w v old)) in
                inr (
                  ap (node_of (nodes ++ (id ∷ []))) found
                  ∙ ap (λ (x : Point). node_name (nodes ++ (id ∷ [])) x.node_index) same
                  ∙ name_of_old nodes id p.node_index
                      (Each-In (λ q. q.node_index < length nodes) p ps w.member t)
                  ∙ sym (ap (node_of nodes) before))
          ]
        ]
]
  where
    fewer : (P : Point → Type 0) → Each P all → Each P ps
    fewer P x = (Each-split P ps new (back P x)).0

    sources : Each (λ x. (x.node_index ≡ length nodes) ⊎ In x ps) all
    sources =
        there (λ x. (x.node_index ≡ length nodes) ⊎ In x ps)
          (Each-append (λ x. (x.node_index ≡ length nodes) ⊎ In x ps) ps new
            (Each-map (λ x. In x ps) (λ x. (x.node_index ≡ length nodes) ⊎ In x ps) ps
              (λ x m. inr m) (all_In ps))
            origin)

module _ (hash64 : Bytes → ℕ) (label : Bytes → ℕ → Bytes) (vnodes_per_node : ℕ)
    (sort : List Point → List Point)
    (sort_keeps : (P : Point → Type 0) (ps : List Point) → Each P ps → Each P (sort ps))
    (sort_loses : (P : Point → Type 0) (ps : List Point) → Each P (sort ps) → Each P ps)
    (sort_orders : (ps : List Point) → Sorted (sort ps)) where
  -- For every sort that keeps exactly the elements and orders them by hash, and a well-formed ring: after
  -- an addition that is not refused, where no two points share a hash, each key belongs to the added node
  -- or to the node that it belonged to before.
  pub add_node-get_node :
      (r out : RingSnapshot) (id key : Bytes)
      → IsRing r
      → add_node hash64 label vnodes_per_node sort r id ≡ ok out
      → NoCollision out.points
      → (get_node hash64 out key ≡ id) ⊎ (get_node hash64 out key ≡ get_node hash64 r key)
  add_node-get_node r out id key w e unique =
      elim (add_node_cases hash64 label vnodes_per_node sort sort_keeps sort_orders r out id e) [
        | inl same ↦ inr (ap (λ s. get_node hash64 s key) (sym same))
        | inr (absent, grown) ↦ moved grown (
            new_owner r.points (vnodes hash64 label id (length r.physical_nodes) vnodes_per_node 0)
              _ r.physical_nodes id (hash64 key) w.order w.indices
              (vnodes_index hash64 label id (length r.physical_nodes) vnodes_per_node 0 r.points)
              (sort_orders _) (λ P t. sort_keeps P _ t) (λ P t. sort_loses P _ t)
              (subst (λ s. NoCollision s.points) (sym grown) unique))
      ]
    where
      after : RingSnapshot
      after = added hash64 label vnodes_per_node sort sort_keeps sort_orders r id

      moved :
          after ≡ out
          → (node_of after.physical_nodes (owner after.points (hash64 key)) ≡ id)
            ⊎ (node_of after.physical_nodes (owner after.points (hash64 key))
                ≡ node_of r.physical_nodes (owner r.points (hash64 key)))
          → (get_node hash64 out key ≡ id) ⊎ (get_node hash64 out key ≡ get_node hash64 r key)
      moved g (inl new) =
          inl (ap (λ s. get_node hash64 s key) (sym g) ∙ get_node-owner hash64 after key ∙ new)
      moved g (inr old) = inr (
          ap (λ s. get_node hash64 s key) (sym g)
          ∙ get_node-owner hash64 after key
          ∙ old
          ∙ sym (get_node-owner hash64 r key))
