-- ===== src/Store/Eviction/Victims.antt =====
-- evictOne: the node that it takes, and what repeated taking leaves.
use cinder.Prelude.{
  ℕ, zero, suc, ◌+◌, ◌≤◌, ◌≡◌, refl, sym, ap, subst, ◌∙◌, inl, inr, true, false, Option, none, some,
  List, [], ◌∷◌, length, if◌then◌else◌, arith, Bool-cases,
}
use cinder.Lww.{is_tombstone}
use cinder.Store.{Node, node_size, split_victim}

unfoldable pub total_size : List Node → ℕ
total_size [] = 0
total_size (n ∷ ns) = node_size n + total_size ns

-- The number of nodes that are no tombstones.
unfoldable pub live : List Node → ℕ
live [] = 0
live (n ∷ ns) = if is_tombstone n.entry then live ns else suc (live ns)

-- All tombstones, and the `k` most recently used nodes that are none.
unfoldable pub keep_live : ℕ → List Node → List Node
keep_live k [] = []
keep_live zero (n ∷ ns) =
    let rest = keep_live zero ns in if is_tombstone n.entry then n ∷ rest else rest
keep_live (suc k) (n ∷ ns) =
    let tail = keep_live (suc k) ns in
    let rest = keep_live k ns in if is_tombstone n.entry then n ∷ tail else n ∷ rest

keep_live_tombstone :
    (k : ℕ) (n : Node) (ns : List Node)
    → is_tombstone n.entry ≡ true
    → keep_live k (n ∷ ns) ≡ n ∷ keep_live k ns
unfolding keep_live
keep_live_tombstone zero n ns h = ground (arith, h)
keep_live_tombstone (suc k) n ns h = ground (arith, h)

keep_live_live :
    (k : ℕ) (n : Node) (ns : List Node)
    → is_tombstone n.entry ≡ false
    → keep_live (suc k) (n ∷ ns) ≡ n ∷ keep_live k ns
unfolding keep_live
keep_live_live k n ns h = ground (arith, h)

pub keep_live-live : (ns : List Node) → keep_live (live ns) ns ≡ ns
unfolding live
keep_live-live [] = unfold keep_live in refl
keep_live-live (n ∷ ns) =
    ground
      (arith, keep_live-live ns, keep_live_tombstone (live ns) n ns, keep_live_live (live ns) n ns)

pub keep_live-keep_live :
    (k m : ℕ) (ns : List Node) → k ≤ m → keep_live k (keep_live m ns) ≡ keep_live k ns
unfolding keep_live
keep_live-keep_live k m [] h = refl
keep_live-keep_live zero zero (n ∷ ns) h = ground (arith, keep_live-keep_live zero zero ns)
keep_live-keep_live zero (suc m) (n ∷ ns) h =
    ground (arith, keep_live-keep_live zero (suc m) ns, keep_live-keep_live zero m ns)
keep_live-keep_live (suc k) zero (n ∷ ns) h = absurd (omega arith)
keep_live-keep_live (suc k) (suc m) (n ∷ ns) h =
    ground (arith, keep_live-keep_live (suc k) (suc m) ns, keep_live-keep_live k m ns)

-- The victim is the last node that is no tombstone.
pub record SplitsOff (ns rest : List Node) (v : Node) : Type 0 where
  pub count : live ns ≡ suc (live rest)
  pub kept : rest ≡ keep_live (live rest) ns
  pub size : total_size ns ≡ total_size rest + node_size v
  pub shorter : length ns ≡ suc (length rest)

abbrev pub Splits : List Node → Option (Node × List Node) → Type 0
Splits ns none = live ns ≡ 0
Splits ns (some (v, rest)) = SplitsOff ns rest v

add_victim :
    (n : Node) (ns : List Node) (v : Node) (rest : List Node)
    → SplitsOff ns rest v
    → SplitsOff (n ∷ ns) (n ∷ rest) v
unfolding live total_size
add_victim n ns v rest h = record {
  count = ground (arith, h.count);
  kept =
      ground (arith, h.kept, keep_live_tombstone (live rest) n ns, keep_live_live (live rest) n ns);
  size = omega (arith, h.size);
  shorter = omega (arith, h.shorter);
}

keep_none :
    (n : Node) (ns : List Node)
    → is_tombstone n.entry ≡ false
    → live ns ≡ 0
    → ns ≡ keep_live (live ns) (n ∷ ns)
keep_none n ns t h =
    let all_kept : keep_live 0 ns ≡ ns = subst (λ k. keep_live k ns ≡ ns) h (keep_live-live ns) in
    let dropped : keep_live 0 (n ∷ ns) ≡ keep_live 0 ns = unfold keep_live in ground (arith, t) in
    sym all_kept ∙ sym dropped ∙ ap (λ k. keep_live k (n ∷ ns)) (sym h)

first_victim :
    (n : Node) (ns : List Node)
    → is_tombstone n.entry ≡ false
    → live ns ≡ 0
    → SplitsOff (n ∷ ns) ns n
unfolding live total_size
first_victim n ns t h = record {
  count = ground (arith, t);
  kept = keep_none n ns t h;
  size = omega arith;
  shorter = refl;
}

pub split_victim-Splits : (ns : List Node) → Splits ns (split_victim ns)
unfolding split_victim
split_victim-Splits [] = unfold live in refl
split_victim-Splits (n ∷ ns) = go (split_victim ns) refl (split_victim-Splits ns)
  where
    go :
        (o : Option (Node × List Node))
        → split_victim ns ≡ o
        → Splits ns o
        → Splits (n ∷ ns) (split_victim (n ∷ ns))
    go none e h = elim (Bool-cases (is_tombstone n.entry)) [
      | inl t ↦ rw (e, split_victim) (rw t (unfold live in ground (arith, t, h)))
      | inr t ↦ rw (e, split_victim) (rw t (first_victim n ns t h))
    ]
    go (some (v, rest)) e h = rw (e, split_victim) (add_victim n ns v rest h)
