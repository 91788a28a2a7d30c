-- ===== src/Store/Eviction.antt =====
-- evictIfNeeded is LRU eviction: which nodes survive, and when the loop stops.
pub mod Victims
unfoldable pub use Victims.{total_size, live, keep_live}
pub use Victims.{keep_live-live}
use cinder.Store.Eviction.Victims.{SplitsOff, Splits, keep_live-keep_live, split_victim-Splits}
use cinder.Prelude.{
  ℕ, zero, suc, ◌+◌, ◌^◌, ◌≤◌, ◌<◌, ◌≡◌, refl, sym, ap, subst, ◌∙◌, ◌⊎◌, inl, inr, Bool, true,
  false, not, ◌&&◌, Option, none, some, List, [], ◌∷◌, length, ltb, ◌==◌, if◌then◌else◌, arith,
  Bool-cases, Option-cases,
}
use cinder.Lww.{is_tombstone}
use cinder.Store.{
  Node, Store, node_size, split_victim, evict_one, account, evict_loop, evict_if_needed, is_empty,
}

-- What LRU eviction within `capacity` leaves of the nodes `ns`.
pub record IsEvicted (capacity : ℕ) (ns kept : List Node) : Type 0 where
  pub count : ℕ
  pub count_le : count ≤ live ns
  pub kept_eq : kept ≡ keep_live count ns
  pub fits : (total_size kept ≤ capacity) ⊎ (count ≡ 0)
  pub needed : (count ≡ live ns) ⊎ (capacity < total_size (keep_live (suc count) ns))

-- The byte counter is the size of the nodes.
abbrev pub IsExact : Store → Type 0
IsExact s = s.current_bytes ≡ total_size s.nodes

unchanged-IsEvicted :
    (capacity : ℕ) (ns : List Node)
    → (total_size ns ≤ capacity) ⊎ (live ns ≡ 0)
    → IsEvicted capacity ns ns
unchanged-IsEvicted capacity ns h = record {
  count = live ns;
  count_le = omega arith;
  kept_eq = sym (keep_live-live ns);
  fits = h;
  needed = inl refl;
}

next_too_large :
    (capacity : ℕ) (ns rest : List Node) (v : Node) (k : ℕ)
    → SplitsOff ns rest v
    → capacity < total_size ns
    → k ≤ live rest
    → (k ≡ live rest) ⊎ (capacity < total_size (keep_live (suc k) rest))
    → capacity < total_size (keep_live (suc k) ns)
next_too_large capacity ns rest v k h over le more = elim (Bool-cases (k == live rest)) [
  | inl all ↦
      let same : suc k ≡ live ns = ground (arith, h.count, all) in
      subst (λ xs. capacity < total_size xs)
        (sym (keep_live-live ns) ∙ ap (λ m. keep_live m ns) (sym same)) over
  | inr some_left ↦
      let same : keep_live (suc k) rest ≡ keep_live (suc k) ns =
        ap (keep_live (suc k)) h.kept
        ∙ keep_live-keep_live (suc k) (live rest) ns (ground (arith, some_left)) in
      subst (λ xs. capacity < total_size xs) same (ground (arith, some_left, more))
]

evict-IsEvicted :
    (capacity : ℕ) (ns rest kept : List Node) (v : Node)
    → SplitsOff ns rest v
    → capacity < total_size ns
    → IsEvicted capacity rest kept
    → IsEvicted capacity ns kept
evict-IsEvicted capacity ns rest kept v h over e = record {
  count = e.count;
  count_le = omega (arith, h.count, e.count_le);
  kept_eq =
      e.kept_eq
      ∙ ap (keep_live e.count) h.kept
      ∙ keep_live-keep_live e.count (live rest) ns e.count_le;
  fits = e.fits;
  needed = inr (next_too_large capacity ns rest v e.count h over e.count_le e.needed);
}

evict_one-Splits :
    (s : Store) (v : Node) (rest : List Node)
    → split_victim s.nodes ≡ some (v, rest)
    → ((evict_one s).0.nodes ≡ rest)
      × ((evict_one s).1 ≡ node_size v)
      × ((evict_one s).0.current_bytes ≡ s.current_bytes)
      × ((evict_one s).0.capacity ≡ s.capacity)
unfolding evict_one
evict_one-Splits s v rest e =
    (rw (e, evict_one), rw (e, evict_one), rw (e, evict_one), rw (e, evict_one))

-- The loop, while the byte counter is exact and no size passes 2^64.
record Evicts (s t : Store) : Type 0 where
  nodes : IsEvicted s.capacity s.nodes t.nodes
  exact : IsExact t
  capacity : t.capacity ≡ s.capacity

stop-Evicts :
    (s : Store)
    → IsExact s
    → (ltb s.capacity s.current_bytes && not (is_empty s.nodes)) ≡ false
    → Evicts s s
stop-Evicts s x stop = record {
  nodes = unchanged-IsEvicted s.capacity s.nodes (stopped s.nodes x stop);
  exact = x;
  capacity = refl;
}
  where
    stopped :
        (ns : List Node)
        → s.current_bytes ≡ total_size ns
        → (ltb s.capacity s.current_bytes && not (is_empty ns)) ≡ false
        → (total_size ns ≤ s.capacity) ⊎ (live ns ≡ 0)
    stopped [] y h = inr (unfold live in refl)
    stopped (n ∷ ns) y h = inl (ground (arith, y, h))

nothing_left : (b : Bool) (ns : List Node) → length ns ≤ 0 → (b && not (is_empty ns)) ≡ false
nothing_left true [] h = refl
nothing_left false [] h = refl
nothing_left b (n ∷ ns) h = absurd (omega arith)

-- One round: the state `t` behind the eviction, and what the rest of the loop makes of it.
step-Evicts :
    (s t u : Store) (v : Node) (rest : List Node)
    → SplitsOff s.nodes rest v
    → s.capacity < total_size s.nodes
    → t.nodes ≡ rest
    → t.capacity ≡ s.capacity
    → Evicts t u
    → Evicts s u
step-Evicts s t u v rest h over en ec e = record {
  nodes = evict-IsEvicted s.capacity s.nodes rest u.nodes v h over (
      subst (λ ns. IsEvicted s.capacity ns u.nodes) en
        (subst (λ c. IsEvicted c t.nodes u.nodes) ec e.nodes));
  exact = e.exact;
  capacity = e.capacity ∙ ec;
}

-- The state that the next round starts from.
abbrev next_round : Store → Store
next_round s = account (evict_one s).0 (evict_one s).1

record Advances (s : Store) (v : Node) (rest : List Node) : Type 0 where
  splits : SplitsOff s.nodes rest v
  nodes : (next_round s).nodes ≡ rest
  capacity : (next_round s).capacity ≡ s.capacity
  exact : IsExact (next_round s)
  small : total_size (next_round s).nodes < 2 ^ 64
  freed : ((evict_one s).1 == 0) ≡ false
  shorter : length s.nodes ≡ suc (length (next_round s).nodes)

node_size_pos : (n : Node) → 120 ≤ node_size n
unfolding node_size
node_size_pos n = omega arith

next_round-Advances :
    (s : Store) (v : Node) (rest : List Node)
    → split_victim s.nodes ≡ some (v, rest)
    → IsExact s
    → total_size s.nodes < 2 ^ 64
    → Advances s v rest
next_round-Advances s v rest e x b =
    let (en, ef, eb, ec) = evict_one-Splits s v rest e in
    let h : SplitsOff s.nodes rest v = subst (Splits s.nodes) e (split_victim-Splits s.nodes) in
    record {
      splits = h;
      nodes = en;
      capacity = ec;
      exact = omega (arith, ef, eb, x, h.size, ap total_size en);
      small = omega (arith, h.size, ap total_size en);
      freed = ground (arith, ef, node_size_pos v);
      shorter = omega (arith, h.shorter, ap (λ (ns : List Node). length ns) en);
    }

blocked : (s : Store) → split_victim s.nodes ≡ none → ((evict_one s).1 == 0) ≡ true
unfolding evict_one
blocked s e = rw (e, evict_one)

blocked-Evicts : (s : Store) → split_victim s.nodes ≡ none → IsExact s → Evicts s s
blocked-Evicts s e x = record {
  nodes =
      unchanged-IsEvicted s.capacity s.nodes
        (inr (subst (Splits s.nodes) e (split_victim-Splits s.nodes)));
  exact = x;
  capacity = refl;
}

evict_loop-Evicts :
    (fuel : ℕ) (s : Store)
    → length s.nodes ≤ fuel
    → IsExact s
    → total_size s.nodes < 2 ^ 64
    → Evicts s (evict_loop fuel s)
unfolding evict_loop
evict_loop-Evicts zero s h x b =
    stop-Evicts s x (nothing_left (ltb s.capacity s.current_bytes) s.nodes h)
evict_loop-Evicts (suc fuel) s h x b =
    elim (Bool-cases (ltb s.capacity s.current_bytes && not (is_empty s.nodes))) [
      | inr stop ↦ rw stop (stop-Evicts s x stop)
      | inl over ↦ elim (Option-cases (split_victim s.nodes)) [
        | inl e ↦ rw (over, blocked s e) (blocked-Evicts s e x)
        | inr ((v, rest), e) ↦
            let a = next_round-Advances s v rest e x b in
            rw (over, a.freed)
              (step-Evicts s (next_round s) (evict_loop fuel (next_round s)) v rest a.splits
                (ground (arith, over, x)) a.nodes a.capacity
                (evict_loop-Evicts fuel (next_round s) (omega (arith, a.shorter)) a.exact a.small))
      ]
    ]

-- While the byte counter is the size of the nodes and no size passes 2^64, evictIfNeeded keeps every
-- tombstone and the k most recently used other nodes, in their order. The largest such k is kept:
-- with one more node the shard would be over its capacity, or there is no more. The shard ends within
-- its capacity, unless tombstones alone are over it (k = 0). The counter stays exact.
pub evict_if_needed-IsEvicted :
    (s : Store)
    → IsExact s
    → total_size s.nodes < 2 ^ 64
    → IsEvicted s.capacity s.nodes (evict_if_needed s).nodes × IsExact (evict_if_needed s)
unfolding evict_if_needed
evict_if_needed-IsEvicted s x b =
    let e = evict_loop-Evicts (length s.nodes) s (omega arith) x b in (e.nodes, e.exact)
