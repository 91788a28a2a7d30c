-- ===== src/Ring/Replicas.antt =====
-- The replicas of a key: different nodes, as many as asked for where the ring has them.
use cinder.Prelude.{
  ℕ, zero, suc, ◌<◌, ◌≤◌, ◌≡◌, ◌≢◌, refl, sym, ap, ◌∙◌, subst, Bool, true, false, List, [], ◌∷◌,
  ◌++◌, map, Bytes, same_bytes, same_bytes→eq, same_bytes_refl, length, take, drop, ltb, ◌==◌,
  ==_iff, if◌then◌else◌, arith, Bool-cases, inl, inr,
}
use cinder.Status.{ok}
use cinder.Buffer.Lists.{Each}
use cinder.Ring.{Point, RingSnapshot, node_name, start_position, seen_before, walk, get_nodes}
use cinder.Ring.Walk.{Different, walk-Different, length-walk, walk_complete}

abbrev pub has_name : Bytes → List Bytes → Bool
has_name n [] = false
has_name n (m ∷ ms) = if same_bytes m n then true else has_name n ms

-- No name stands twice.
abbrev pub NoTwins : List Bytes → Type 0
NoTwins [] = Unit
NoTwins (n ∷ ns) = (has_name n ns ≡ false) × NoTwins ns

-- The points' indices name nodes.
abbrev pub InRange : List Bytes → List Point → Type 0
InRange nodes ps = Each (λ p. p.node_index < length nodes) ps

true_if : (b c : Bool) → c ≡ true → (if b then true else c) ≡ true
true_if true c h = refl
true_if false c h = h

stranger : (m x : Bytes) (ns : List Bytes) → has_name m ns ≡ false → has_name x ns ≡ true → m ≢ x
stranger m x ns f t e = absurd (cc)

name_in : (ns : List Bytes) (i : ℕ) → i < length ns → has_name (node_name ns i) ns ≡ true
name_in [] i h = absurd (omega (arith, h))
name_in (n ∷ ns) zero h = rw (same_bytes_refl n) refl
name_in (n ∷ ns) (suc i) h =
    true_if (same_bytes n (node_name ns i)) _ (name_in ns i (omega (arith, h)))

names_differ :
    (ns : List Bytes) (i j : ℕ)
    → NoTwins ns
    → i < length ns
    → j < length ns
    → (i == j) ≡ false
    → same_bytes (node_name ns i) (node_name ns j) ≡ false
names_differ [] i j d h k n = absurd (omega (arith, h))
names_differ (m ∷ ns) zero zero d h k n = absurd (ground (arith, n))
names_differ (m ∷ ns) zero (suc j) d h k n = elim (Bool-cases (same_bytes m (node_name ns j))) [
  | inl same ↦ absurd (
      stranger m (node_name ns j) ns d.0 (name_in ns j (omega (arith, k))) (same_bytes→eq _ _ same))
  | inr other ↦ other
]
names_differ (m ∷ ns) (suc i) zero d h k n = elim (Bool-cases (same_bytes (node_name ns i) m)) [
  | inl same ↦ absurd (
      stranger m (node_name ns i) ns d.0 (name_in ns i (omega (arith, h)))
        (sym (same_bytes→eq _ _ same)))
  | inr other ↦ other
]
names_differ (m ∷ ns) (suc i) (suc j) d h k n =
    names_differ ns i j d.1 (omega (arith, h)) (omega (arith, k)) (ground (arith, n))

has_name-map :
    (ns : List Bytes) (i : ℕ) (is : List ℕ)
    → NoTwins ns
    → i < length ns
    → Each (λ j. j < length ns) is
    → has_name (node_name ns i) (map (node_name ns) is) ≡ seen_before i is
has_name-map ns i [] d h t = refl
has_name-map ns i (j ∷ is) d h t = elim (Bool-cases (j == i)) [
  | inl same ↦ rw same (
      ap (λ (b : Bool). if b then true else has_name (node_name ns i) (map (node_name ns) is))
        (subst (λ (k : ℕ). same_bytes (node_name ns j) (node_name ns k) ≡ true)
          ((==_iff j i).0 same) (same_bytes_refl (node_name ns j))))
  | inr other ↦ rw other (rw (names_differ ns j i d t.0 h other) (has_name-map ns i is d h t.1))
]

NoTwins-map :
    (ns : List Bytes) (is : List ℕ)
    → NoTwins ns
    → Each (λ j. j < length ns) is
    → Different is
    → NoTwins (map (node_name ns) is)
NoTwins-map ns [] d t u = tt
NoTwins-map ns (i ∷ is) d t u = (has_name-map ns i is d t.0 t.1 ∙ u.0, NoTwins-map ns is d t.1 u.1)

pub Each-append {ℓ} :
    {A : Type ℓ} (P : A → Type 0) (xs ys : List A) → Each P xs → Each P ys → Each P (xs ++ ys)
Each-append P [] ys t u = u
Each-append P (x ∷ xs) ys t u = (t.0, Each-append P xs ys t.1 u)

-- A predicate holds around the ring as it holds from its front.
rotated {ℓ} :
    {A : Type ℓ} (P : A → Type 0) (n : ℕ) (xs : List A)
    → Each P xs
    → Each P (drop n xs ++ take n xs)
rotated {A = A} P n xs t = Each-append P (drop n xs) (take n xs) (dropped n xs t) (taken n xs t)
  where
    dropped : (m : ℕ) (ys : List A) → Each P ys → Each P (drop m ys)
    dropped zero ys u = u
    dropped (suc m) [] u = u
    dropped (suc m) (y ∷ ys) u = dropped m ys u.1

    taken : (m : ℕ) (ys : List A) → Each P ys → Each P (take m ys)
    taken zero ys u = tt
    taken (suc m) [] u = u
    taken (suc m) (y ∷ ys) u = (u.0, taken m ys u.1)

pub Each-split {ℓ} :
    {A : Type ℓ} (P : A → Type 0) (xs ys : List A) → Each P (xs ++ ys) → Each P xs × Each P ys
Each-split P [] ys t = (tt, t)
Each-split P (x ∷ xs) ys t = let (u, v) = Each-split P xs ys t.1 in ((t.0, u), v)

joined {ℓ} :
    {A : Type ℓ} (P : A → Type 0) (n : ℕ) (xs : List A)
    → Each P (drop n xs)
    → Each P (take n xs)
    → Each P xs
joined P zero xs t u = t
joined P (suc n) [] t u = tt
joined P (suc n) (x ∷ xs) t u = (u.0, joined P n xs t u.1)

turned_back {ℓ} :
    {A : Type ℓ} (P : A → Type 0) (n : ℕ) (xs : List A)
    → Each P (drop n xs ++ take n xs)
    → Each P xs
turned_back P n xs t = let (u, v) = Each-split P (drop n xs) (take n xs) t in joined P n xs u v

length-map {ℓ κ} :
    {A : Type ℓ} {B : Type κ} (f : A → B) (xs : List A) → length (map f xs) ≡ length xs
length-map f [] = refl
length-map f (x ∷ xs) = omega (arith, length-map f xs)

Each-both {ℓ} :
    {A : Type ℓ} (P Q : A → Type 0) (xs : List A) → Each P xs → Each Q xs → Each (λ x. P x × Q x) xs
Each-both P Q [] t u = tt
Each-both P Q (x ∷ xs) t u = ((t.0, u.0), Each-both P Q xs t.1 u.1)

pub Each-map {ℓ} :
    {A : Type ℓ} (P Q : A → Type 0) (xs : List A) → ((x : A) → P x → Q x) → Each P xs → Each Q xs
Each-map P Q [] h t = tt
Each-map P Q (x ∷ xs) h t = (h x t.0, Each-map P Q xs h t.1)

walk_range :
    (size n : ℕ) (ps : List Point) (seen : List ℕ)
    → Each (λ p. p.node_index < size) ps
    → Each (λ i. i < size) seen
    → Each (λ i. i < size) (walk ps n seen)
unfolding walk
walk_range size n [] seen t u = u
walk_range size n (p ∷ ps) seen t u = elim (Bool-cases (ltb (length seen) n)) [
  | inl more ↦ rw more (
      walk_range size n ps _ t.1 (
        kept (seen_before p.node_index seen) seen (seen ++ (p.node_index ∷ [])) u
          (Each-append (λ i. i < size) seen (p.node_index ∷ []) u (t.0, tt))))
  | inr full ↦ rw full u
]
  where
    kept :
        (b : Bool) (xs ys : List ℕ)
        → Each (λ i. i < size) xs
        → Each (λ i. i < size) ys
        → Each (λ i. i < size) (if b then xs else ys)
    kept true xs ys a c = a
    kept false xs ys a c = c

module _ (hash64 : Bytes → ℕ) where
  walk_of : RingSnapshot → Bytes → ℕ → List ℕ
  walk_of r key n =
      let start = start_position r.points (hash64 key) in
      walk (drop start r.points ++ take start r.points) n []

  get_nodes_ok :
      (r : RingSnapshot) (key : Bytes) (n : ℕ) (out : List Bytes)
      → get_nodes hash64 r key n ≡ ok out
      → out ≡ map (node_name r.physical_nodes) (walk_of r key n)
  unfolding get_nodes walk_of
  get_nodes_ok r key n out e = ground (arith, e)

  walk_of-InRange :
      (r : RingSnapshot) (key : Bytes) (n : ℕ)
      → InRange r.physical_nodes r.points
      → Each (λ i. i < length r.physical_nodes) (walk_of r key n)
  unfolding walk_of
  walk_of-InRange r key n t =
      walk_range (length r.physical_nodes) n _ []
        (rotated (λ p. p.node_index < length r.physical_nodes)
          (start_position r.points (hash64 key)) r.points t)
        tt

  length-walk_of : (r : RingSnapshot) (key : Bytes) (n : ℕ) → length (walk_of r key n) ≤ n
  unfolding walk_of
  length-walk_of r key n = length-walk _ n [] (omega arith)

  Different-walk_of : (r : RingSnapshot) (key : Bytes) (n : ℕ) → Different (walk_of r key n)
  unfolding walk_of
  Different-walk_of r key n = walk-Different _ n [] tt

  walk_of_complete :
      (r : RingSnapshot) (key : Bytes) (n : ℕ)
      → length (walk_of r key n) < n
      → Each (λ p. seen_before p.node_index (walk_of r key n) ≡ true) r.points
  unfolding walk_of
  walk_of_complete r key n h =
      turned_back (λ p. seen_before p.node_index (walk_of r key n) ≡ true)
        (start_position r.points (hash64 key)) r.points (walk_complete _ n [] h)

  -- Where the ring's nodes have different names and its points' indices are in range: the nodes that
  -- getNodes returns for a key have different names, and there are at most as many as asked for.
  pub get_nodes_distinct :
      (r : RingSnapshot) (key : Bytes) (n : ℕ) (out : List Bytes)
      → NoTwins r.physical_nodes
      → InRange r.physical_nodes r.points
      → get_nodes hash64 r key n ≡ ok out
      → NoTwins out × (length out ≤ n)
  get_nodes_distinct r key n out d t e =
      subst (λ o. NoTwins o × (length o ≤ n)) (sym (get_nodes_ok r key n out e))
        (
          NoTwins-map r.physical_nodes (walk_of r key n) d (walk_of-InRange r key n t)
              (Different-walk_of r key n),
          omega (
            arith,
            length-map (node_name r.physical_nodes) (walk_of r key n),
            length-walk_of r key n,
          ),
        )

  -- Where the ring's nodes have different names and its points' indices are in range: if getNodes returns
  -- fewer nodes than asked for, it has returned every node that has a point on the ring.
  pub get_nodes_complete :
      (r : RingSnapshot) (key : Bytes) (n : ℕ) (out : List Bytes)
      → NoTwins r.physical_nodes
      → InRange r.physical_nodes r.points
      → get_nodes hash64 r key n ≡ ok out
      → length out < n
      → Each (λ p. has_name (node_name r.physical_nodes p.node_index) out ≡ true) r.points
  get_nodes_complete r key n out d t e short =
      let found = get_nodes_ok r key n out e in
      let few : length (walk_of r key n) < n = omega (
        arith,
        short,
        ap length found,
        length-map (node_name r.physical_nodes) (walk_of r key n),
      ) in
      subst (λ o. Each (λ p. has_name (node_name r.physical_nodes p.node_index) o ≡ true) r.points)
        (sym found)
        (Each-map
          (λ p.
            (p.node_index < length r.physical_nodes)
            × (seen_before p.node_index (walk_of r key n) ≡ true))
          _ r.points
          (λ p h.
            has_name-map r.physical_nodes p.node_index (walk_of r key n) d h.0
              (walk_of-InRange r key n t)
            ∙ h.1)
          (Each-both _ _ r.points t (walk_of_complete r key n few)))
