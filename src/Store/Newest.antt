-- ===== src/Store/Newest.antt =====
-- No write replaces a newer entry by an older one.
use cinder.Prelude.{
  ℕ, ◌+◌, ◌^◌, ◌<◌, ◌≡◌, refl, ap, ◌∙◌, subst, true, false, Option, none, some, List, ◌∷◌, Bytes,
  same_bytes, same_bytes→eq, same_bytes_refl, if◌then◌else◌, arith, ltb, Bool-cases, Option-cases,
  inl, inr,
}
use cinder.Lww.{VersionedEntry, LwwStamp, compare_lww, stamp_of, lww_covers}
use cinder.Store.{Node, Store, node_size, find_node, erase_key, is_less, put_versioned_at}
use cinder.Store.Eviction.{total_size, IsEvicted, IsExact}
use cinder.Store.Keys.{
  IsUnique, key_of_find, find_node-erase_key, erase_key-IsUnique, find_node_before,
}
use cinder.Store.Writes.{written, Leaves, put_versioned_at-Leaves}

covers_of_not_less : (a b : LwwStamp) → is_less (compare_lww a b) ≡ false → lww_covers a b ≡ true
unfolding lww_covers
covers_of_not_less a b h = ground arith

covers_of_less : (a b : LwwStamp) → is_less (compare_lww a b) ≡ true → lww_covers b a ≡ true
unfolding lww_covers
covers_of_less a b h = ground arith

covers_self : (a : LwwStamp) → lww_covers a a ≡ true
unfolding lww_covers
covers_self a = ground arith

-- What a key holds after a write: nothing older than before, nothing older than the write if it is
-- the write's key, and exactly what it held if it is another key.
pub record IsNewest (key j : Bytes) (entry : VersionedEntry) (old n : Node) : Type 0 where
  pub covers_old : lww_covers (stamp_of n.entry) (stamp_of old.entry) ≡ true
  pub covers_write :
      lww_covers (stamp_of n.entry) (stamp_of (if same_bytes key j then entry else n.entry)) ≡ true
  pub others : n ≡ (if same_bytes key j then n else old)

unchanged-IsNewest :
    (key j : Bytes) (entry : VersionedEntry) (old : Node)
    → same_bytes key j ≡ false
    → IsNewest key j entry old old
unchanged-IsNewest key j entry old h = record {
  covers_old = covers_self (stamp_of old.entry);
  covers_write = rw h (covers_self (stamp_of old.entry));
  others = rw h refl;
}

lost-IsNewest :
    (key j : Bytes) (entry : VersionedEntry) (old : Node)
    → is_less (compare_lww (stamp_of entry) (stamp_of old.entry)) ≡ true
    → IsNewest key j entry old old
lost-IsNewest key j entry old h = record {
  covers_old = covers_self (stamp_of old.entry);
  covers_write = ground (
    arith,
    covers_self (stamp_of old.entry),
    covers_of_less (stamp_of entry) (stamp_of old.entry) h,
  );
  others = ground arith;
}

won-IsNewest :
    (key j : Bytes) (entry : VersionedEntry) (old n : Node)
    → same_bytes key j ≡ true
    → n.entry ≡ entry
    → is_less (compare_lww (stamp_of entry) (stamp_of old.entry)) ≡ false
    → IsNewest key j entry old n
won-IsNewest key j entry old n k e h = record {
  covers_old =
      ap (λ (x : VersionedEntry). lww_covers (stamp_of x) (stamp_of old.entry)) e
      ∙ covers_of_not_less (stamp_of entry) (stamp_of old.entry) h;
  covers_write = rw k (rw e (covers_self (stamp_of entry)));
  others = rw k refl;
}

-- The two parts of a written list.
find_first :
    (m : Node) (ns : List Node) (j : Bytes) (n : Node)
    → find_node (m ∷ ns) j ≡ some n
    → same_bytes m.key j ≡ true
    → n ≡ m
unfolding find_node
find_first m ns j n h e = ground (arith, h, e)

find_later :
    (m : Node) (ns : List Node) (j : Bytes)
    → same_bytes m.key j ≡ false
    → find_node (m ∷ ns) j ≡ find_node ns j
unfolding find_node
find_later m ns j e = ground (arith, e)

pub replaced-IsUnique :
    (ns : List Node) (old : Node) (entry : VersionedEntry)
    → IsUnique ns
    → IsUnique (record old { entry = entry } ∷ erase_key ns old.key)
replaced-IsUnique ns old entry u = (
  ground (arith, find_node-erase_key ns old.key old.key u, same_bytes_refl old.key),
  erase_key-IsUnique ns old.key u,
)

module _ (s : Store) (key j : Bytes) (entry : VersionedEntry) (old n : Node) where
  overwritten-IsNewest :
      (resident : Node)
      → IsUnique s.nodes
      → find_node s.nodes key ≡ some resident
      → is_less (compare_lww (stamp_of entry) (stamp_of resident.entry)) ≡ false
      → find_node s.nodes j ≡ some old
      → find_node (record resident { entry = entry } ∷ erase_key s.nodes resident.key) j ≡ some n
      → IsNewest key j entry old n
  overwritten-IsNewest resident u f h o e =
      let rk = key_of_find s.nodes key resident f in
      let e' : find_node (record { key = key; entry = entry } ∷ erase_key s.nodes key) j ≡ some n =
        subst
          (λ (k : Bytes).
            find_node (record { key = k; entry = entry } ∷ erase_key s.nodes k) j ≡ some n)
          rk e in
      elim (Bool-cases (same_bytes key j)) [
        | inl same ↦
            let one : resident ≡ old = cc (f, o, same_bytes→eq key j same) in
            won-IsNewest key j entry old n same
              (ap (λ (x : Node). x.entry)
                (find_first (record { key = key; entry = entry }) (erase_key s.nodes key) j n e'
                  same))
              (subst
                (λ (x : Node). is_less (compare_lww (stamp_of entry) (stamp_of x.entry)) ≡ false)
                one h)
        | inr other ↦
            let stays : old ≡ n = ground (
              arith,
              e',
              o,
              other,
              find_later (record { key = key; entry = entry }) (erase_key s.nodes key) j other,
              find_node-erase_key s.nodes key j u,
            ) in
            subst (λ (x : Node). IsNewest key j entry old x) stays
              (unchanged-IsNewest key j entry old other)
      ]

  inserted-IsNewest :
      find_node s.nodes key ≡ none
      → find_node s.nodes j ≡ some old
      → find_node (record { key = key; entry = entry } ∷ s.nodes) j ≡ some n
      → IsNewest key j entry old n
  inserted-IsNewest f o e = elim (Bool-cases (same_bytes key j)) [
    | inl same ↦ cc (f, o, same_bytes→eq key j same)
    | inr other ↦
        let stays : old ≡ n =
          cc (e, o, find_later (record { key = key; entry = entry }) s.nodes j other) in
        subst (λ (x : Node). IsNewest key j entry old x) stays
          (unchanged-IsNewest key j entry old other)
  ]

  refused-IsNewest :
      (resident : Node)
      → find_node s.nodes key ≡ some resident
      → is_less (compare_lww (stamp_of entry) (stamp_of resident.entry)) ≡ true
      → find_node s.nodes j ≡ some old
      → find_node s.nodes j ≡ some n
      → IsNewest key j entry old n
  refused-IsNewest resident f h o e =
      let stays : old ≡ n = cc (o, e) in
      subst (λ (x : Node). IsNewest key j entry old x) stays
        (elim (Bool-cases (same_bytes key j)) [
          | inl same ↦
              let one : resident ≡ old = cc (f, o, same_bytes→eq key j same) in
              lost-IsNewest key j entry old (
                subst
                  (λ (x : Node). is_less (compare_lww (stamp_of entry) (stamp_of x.entry)) ≡ true)
                  one h)
          | inr other ↦ unchanged-IsNewest key j entry old other
        ])

  dropped-IsNewest :
      find_node s.nodes key ≡ none
      → find_node s.nodes j ≡ some old
      → find_node s.nodes j ≡ some n
      → IsNewest key j entry old n
  dropped-IsNewest f o e = elim (Bool-cases (same_bytes key j)) [
    | inl same ↦ cc (f, o, same_bytes→eq key j same)
    | inr other ↦
        subst (λ (x : Node). IsNewest key j entry old x) (cc (o, e))
          (unchanged-IsNewest key j entry old other)
  ]

  -- What is found after an eviction of the written list.
  found_before :
      (t : Store) (ns : List Node)
      → IsUnique ns
      → IsEvicted s.capacity ns t.nodes
      → find_node t.nodes j ≡ some n
      → find_node ns j ≡ some n
  found_before t ns u v e =
      find_node_before v.count ns j n u (subst (λ l. find_node l j ≡ some n) v.kept_eq e)

-- No write replaces a newer entry by an older one. From a shard whose keys are unique and whose byte
-- counter is exact, while the sizes stay below 2^64: if a key holds
-- an entry before the write and one after it, then the later one covers the earlier one in the
-- last-writer-wins order; if it is the key of the write, it covers the written entry too; if it is
-- another key, it is unchanged.
pub put_versioned_at-IsNewest :
    (s : Store) (key j : Bytes) (entry : VersionedEntry) (at : ℕ) (old n : Node)
    → IsUnique s.nodes
    → IsExact s
    → total_size s.nodes + node_size (record { key = key; entry = entry }) < 2 ^ 64
    → find_node s.nodes j ≡ some old
    → find_node (put_versioned_at s key entry at).0.nodes j ≡ some n
    → IsNewest key j entry old n
put_versioned_at-IsNewest s key j entry at old n u x b o e =
    let t = (put_versioned_at s key entry at).0 in
    let left : (w : Option (List Node)) → written s key entry ≡ w → Leaves s t w =
      λ w h. subst (λ v. Leaves s t v) h (put_versioned_at-Leaves s key entry at x b) in
    elim (Option-cases (find_node s.nodes key)) [
      | inr (resident, f) ↦
          elim (Bool-cases (is_less (compare_lww (stamp_of entry) (stamp_of resident.entry)))) [
            | inl lost ↦ refused-IsNewest s key j entry old n resident f lost o (
                subst (λ (w : Store). find_node w.nodes j ≡ some n)
                  (left none (rw (f, written) (rw lost refl))) e)
            | inr won ↦
                let ns = record resident { entry = entry } ∷ erase_key s.nodes resident.key in
                overwritten-IsNewest s key j entry old n resident u f won o (
                  found_before s key j entry old n t ns (replaced-IsUnique s.nodes resident entry u)
                    (left (some ns) (rw (f, written) (rw won refl))).0 e)
          ]
      | inl f ↦
          elim (Bool-cases (ltb s.capacity (node_size (record { key = key; entry = entry })))) [
            | inl large ↦ dropped-IsNewest s key j entry old n f o (
                subst (λ (w : Store). find_node w.nodes j ≡ some n)
                  (left none (rw (f, written) (rw large refl))) e)
            | inr fits ↦
                let ns = record { key = key; entry = entry } ∷ s.nodes in
                inserted-IsNewest s key j entry old n f o (
                  found_before s key j entry old n t ns (f, u)
                    (left (some ns) (rw (f, written) (rw fits refl))).0 e)
          ]
    ]
