-- ===== src/Tests/Ring.antt =====
-- A ring of two nodes with one point each.
use cinder.Prelude.{
  ◌≢◌, ℕ, ◌≤◌, ◌≡◌, refl, ap, arith, true, leb, leb→le, if◌then◌else◌, Bool-cases, inl, inr, List,
  [], ◌∷◌, Bytes, length, ◌⊎◌, sym, ◌∙◌, subst, Bool,
}
use cinder.Buffer.Lists.{Each}
use cinder.Ring.{
  Point, RingSnapshot, lower_bound, start_position, find_index, walk, get_node, get_nodes,
  remove_node, add_node, node_name, vnodes,
}
use cinder.Ring.Removal.{remove_node-get_node}
use cinder.Ring.Replicas.{NoTwins, has_name, Each-map, get_nodes_distinct, get_nodes_complete}
use cinder.Ring.Addition.{NoCollision, Each-In, add_node-get_node}
use cinder.Ring.Invariant.{IsRing, Sorted}
use cinder.Ring.Reached.{Reached, start, after_add, after_remove, Reached-IsRing}

abbrev hash : Bytes → ℕ
hash [] = 0
hash (b ∷ bs) = b

abbrev label : Bytes → ℕ → Bytes
label id i = id

abbrev a : Bytes
a = 10 ∷ []

abbrev b : Bytes
b = 20 ∷ []

abbrev ring : RingSnapshot
ring = record {
  points = record { hash = 10; node_index = 0 } ∷ record { hash = 20; node_index = 1 } ∷ [];
  physical_nodes = a ∷ b ∷ [];
  load_cells = 0 ∷ 0 ∷ [];
}

is_ring : IsRing ring
is_ring = record {
  names = (refl, (refl, tt));
  indices = (omega arith, (omega arith, tt));
  loads = refl;
  order = ((omega arith, tt), (tt, tt));
}

remove_node-get_node_example :
    get_node hash (remove_node ring b) (5 ∷ []) ≡ get_node hash ring (5 ∷ [])
unfolding get_node start_position lower_bound
remove_node-get_node_example =
    remove_node-get_node hash ring b (5 ∷ []) (λ e. omega (arith, ap hash e))

get_nodes_distinct_example : NoTwins (b ∷ a ∷ []) × (length (b ∷ a ∷ []) ≤ 3)
unfolding get_nodes start_position lower_bound walk
get_nodes_distinct_example =
    get_nodes_distinct hash ring (15 ∷ []) 3 (b ∷ a ∷ []) is_ring.names is_ring.indices refl

get_nodes_complete_example :
    Each
      (λ p. has_name (node_name ring.physical_nodes p.node_index) (b ∷ a ∷ []) ≡ true)
      ring.points
unfolding get_nodes start_position lower_bound walk
get_nodes_complete_example =
    get_nodes_complete hash ring (15 ∷ []) 3 (b ∷ a ∷ []) is_ring.names is_ring.indices refl
      (omega arith)

-- A sort, for the parameter.
abbrev insert_point : Point → List Point → List Point
insert_point p [] = p ∷ []
insert_point p (q ∷ qs) = if leb p.hash q.hash then p ∷ (q ∷ qs) else q ∷ insert_point p qs

abbrev insertion_sort : List Point → List Point
insertion_sort [] = []
insertion_sort (p ∷ ps) = insert_point p (insertion_sort ps)

insert_point-keeps :
    (P : Point → Type 0) (p : Point) (ps : List Point)
    → P p
    → Each P ps
    → Each P (insert_point p ps)
insert_point-keeps P p [] h t = (h, tt)
insert_point-keeps P p (q ∷ qs) h t = elim (Bool-cases (leb p.hash q.hash)) [
  | inl low ↦ rw low (h, t)
  | inr high ↦ rw high (t.0, insert_point-keeps P p qs h t.1)
]

sort-keeps : (P : Point → Type 0) (ps : List Point) → Each P ps → Each P (insertion_sort ps)
sort-keeps P [] t = tt
sort-keeps P (p ∷ ps) t = insert_point-keeps P p (insertion_sort ps) t.0 (sort-keeps P ps t.1)

insert_point-Sorted : (p : Point) (ps : List Point) → Sorted ps → Sorted (insert_point p ps)
insert_point-Sorted p [] s = (tt, tt)
insert_point-Sorted p (q ∷ qs) s = elim (Bool-cases (leb p.hash q.hash)) [
  | inl low ↦ rw low (
    (
      leb→le p.hash q.hash low,
      Each-map (λ x. q.hash ≤ x.hash) _ qs (λ x h. omega (arith, h, leb→le p.hash q.hash low)) s.0,
    ),
    s,
  )
  | inr high ↦ rw high (
    insert_point-keeps (λ x. q.hash ≤ x.hash) p qs (ground (arith, high)) s.0,
    insert_point-Sorted p qs s.1,
  )
]

sort-Sorted : (ps : List Point) → Sorted (insertion_sort ps)
sort-Sorted [] = tt
sort-Sorted (p ∷ ps) = insert_point-Sorted p (insertion_sort ps) (sort-Sorted ps)

abbrev grown : RingSnapshot
grown = record {
  points =
      record { hash = 10; node_index = 0 }
      ∷ record { hash = 15; node_index = 2 }
      ∷ record { hash = 20; node_index = 1 }
      ∷ [];
  physical_nodes = a ∷ b ∷ (15 ∷ []) ∷ [];
  load_cells = 0 ∷ 0 ∷ 0 ∷ [];
}

abbrev lone : RingSnapshot
lone = record {
  points = record { hash = 10; node_index = 0 } ∷ [];
  physical_nodes = a ∷ [];
  load_cells = 0 ∷ [];
}

built : Reached hash label 1 insertion_sort (remove_node ring b)
unfolding add_node vnodes find_index
built = after_remove b (after_add {out = ring} b (after_add {out = lone} a start refl) refl)

Reached-IsRing_example : IsRing (remove_node ring b)
Reached-IsRing_example =
    Reached-IsRing hash label 1 insertion_sort sort-keeps sort-Sorted (remove_node ring b) built

insert_point-loses :
    (P : Point → Type 0) (p : Point) (ps : List Point)
    → Each P (insert_point p ps)
    → P p × Each P ps
insert_point-loses P p [] t = t
insert_point-loses P p (q ∷ qs) t = elim (Bool-cases (leb p.hash q.hash)) [
  | inl low ↦ subst (λ (b : Bool). Each P (if b then p ∷ (q ∷ qs) else q ∷ insert_point p qs)) low t
  | inr high ↦
      let u : P q × Each P (insert_point p qs) =
        subst (λ (b : Bool). Each P (if b then p ∷ (q ∷ qs) else q ∷ insert_point p qs)) high t in
      let (v, w) = insert_point-loses P p qs u.1 in (v, (u.0, w))
]

sort-loses : (P : Point → Type 0) (ps : List Point) → Each P (insertion_sort ps) → Each P ps
sort-loses P [] t = tt
sort-loses P (p ∷ ps) t =
    let (u, v) = insert_point-loses P p (insertion_sort ps) t in (u, sort-loses P ps v)

abbrev Apart : List Point → Type 0
Apart [] = Unit
Apart (p ∷ ps) = Each (λ q. p.hash ≢ q.hash) ps × Apart ps

NoCollision-Apart : (ps : List Point) → Apart ps → NoCollision ps
NoCollision-Apart [] u x y m n h = elim m [ ]
NoCollision-Apart (p ∷ ps) u x y (inl e) (inl f) h = e ∙ sym f
NoCollision-Apart (p ∷ ps) u x y (inl e) (inr n) h =
    absurd (Each-In (λ q. p.hash ≢ q.hash) y ps n u.0 (ap (λ z. z.hash) (sym e) ∙ h))
NoCollision-Apart (p ∷ ps) u x y (inr m) (inl f) h =
    absurd (Each-In (λ q. p.hash ≢ q.hash) x ps m u.0 (ap (λ z. z.hash) (sym f) ∙ sym h))
NoCollision-Apart (p ∷ ps) u x y (inr m) (inr n) h = NoCollision-Apart ps u.1 x y m n h

add_node-get_node_example :
    (get_node hash grown (12 ∷ []) ≡ 15 ∷ [])
    ⊎ (get_node hash grown (12 ∷ []) ≡ get_node hash ring (12 ∷ []))
unfolding add_node vnodes find_index
add_node-get_node_example =
    add_node-get_node hash label 1 insertion_sort sort-keeps sort-loses sort-Sorted ring grown
      (15 ∷ []) (12 ∷ []) is_ring refl
      (NoCollision-Apart grown.points (
        ((λ e. omega (arith, e)), ((λ e. omega (arith, e)), tt)),
        (((λ e. omega (arith, e)), tt), (tt, tt)),
      ))
