-- ===== src/HintQueue/Invariant.antt =====
-- What holds of a queue between two calls.
use cinder.Prelude.{
  ℕ, ◌+◌, ◌^◌, ◌<◌, ◌≤◌, ◌≡◌, sym, true, false, none, some, List, [], ◌∷◌, ◌++◌, length, ◌==◌,
  ==_iff, arith, Bool-cases, inl, inr, ltb,
}
use cinder.Buffer.Lists.{Each}
use cinder.Ring.{seen_before}
use cinder.Ring.Walk.{Different}
use cinder.HintQueue.Free.{Free}
use cinder.HintQueue.{Hint, HintQueue, k_none, k_capacity, estimated_bytes, publish_metrics}
use cinder.HintQueue.Chain.{Chain, lookup, Distinct, first_of, last_of, Linked, lookup-append}

unfoldable pub chain_bytes : ℕ → Chain → ℕ
unfolding estimated_bytes
chain_bytes hint_bytes [] = 0
chain_bytes hint_bytes ((i, hint) ∷ xs) =
    estimated_bytes hint_bytes hint + chain_bytes hint_bytes xs

pub chain_bytes-append :
    (hint_bytes : ℕ) (xs ys : Chain)
    → chain_bytes hint_bytes (xs ++ ys) ≡ chain_bytes hint_bytes xs + chain_bytes hint_bytes ys
unfolding chain_bytes
chain_bytes-append b [] ys = omega arith
chain_bytes-append b (x ∷ xs) ys = omega (arith, chain_bytes-append b xs ys)

-- The slot `i` was used before, and no hint is in it.
abbrev pub IsSpare : ℕ → Chain → ℕ → Type 0
IsSpare unused xs i = (i < unused) × (lookup i xs ≡ none)

-- The array holds exactly the hints of the chain `xs`, the other slots in use are the free list.
pub record IsQueue (hint_bytes : ℕ) (q : HintQueue) (xs : Chain) (frees : List ℕ) : Type 0 where
  pub links : Linked q.slots k_none xs k_none
  pub head : q.head ≡ first_of k_none xs
  pub tail : q.tail ≡ last_of k_none xs
  pub distinct : Distinct xs
  pub owned : (i : ℕ) → (q.slots i).hint ≡ lookup i xs
  pub below : Each (λ e. e.0 < q.next_unused) xs
  pub free : Free q.slots q.free_head frees
  pub spare : Each (IsSpare q.next_unused xs) frees
  pub free_distinct : Different frees
  pub used : length xs + length frees ≡ q.next_unused
  pub room : q.next_unused ≤ k_capacity
  pub size : q.size ≡ length xs
  pub bytes : q.current_bytes ≡ chain_bytes hint_bytes xs
  pub small : chain_bytes hint_bytes xs < 2 ^ 63

pub Each_seen : (P : ℕ → Type 0) (i : ℕ) (xs : List ℕ) → seen_before i xs ≡ true → Each P xs → P i
Each_seen P i [] h t = absurd (cc)
Each_seen P i (x ∷ xs) h t = elim (Bool-cases (x == i)) [
  | inl e ↦ rw (sym ((==_iff x i).0 e)) t.0
  | inr e ↦ Each_seen P i xs (ground (arith, e, h)) t.1
]

pub lookup_here :
    (i : ℕ) (hint : Hint) (ys zs : Chain)
    → lookup i ys ≡ none
    → lookup i (ys ++ ((i, hint) ∷ zs)) ≡ some hint
unfolding lookup
lookup_here i hint ys zs h = ground (arith, lookup-append i ys ((i, hint) ∷ zs), h)

pub lookup_other :
    (i j : ℕ) (hint : Hint) (ys zs : Chain)
    → (i == j) ≡ false
    → lookup i (ys ++ ((j, hint) ∷ zs)) ≡ lookup i (ys ++ zs)
unfolding lookup
lookup_other i j hint ys zs h =
    ground (arith, lookup-append i ys ((j, hint) ∷ zs), lookup-append i ys zs, h)

-- The counters that the invariant does not speak of may be others.
pub counters-IsQueue :
    (b : ℕ) (q : HintQueue) (xs : Chain) (frees : List ℕ) (peak max dropped : ℕ)
    → IsQueue b q xs frees
    → IsQueue b (record q { peak_bytes = peak; max_bytes = max; dropped = dropped }) xs frees
counters-IsQueue b q xs frees peak max dropped h = record {
  links = h.links;
  head = h.head;
  tail = h.tail;
  distinct = h.distinct;
  owned = h.owned;
  below = h.below;
  free = h.free;
  spare = h.spare;
  free_distinct = h.free_distinct;
  used = h.used;
  room = h.room;
  size = h.size;
  bytes = h.bytes;
  small = h.small;
}

pub publish-IsQueue :
    (b : ℕ) (q : HintQueue) (xs : Chain) (frees : List ℕ)
    → IsQueue b q xs frees
    → IsQueue b (publish_metrics q) xs frees
unfolding publish_metrics
publish-IsQueue b q xs frees h = elim (Bool-cases (ltb q.peak_bytes q.current_bytes)) [
  | inr e ↦ rw e h
  | inl e ↦ rw e (counters-IsQueue b q xs frees q.current_bytes q.max_bytes q.dropped h)
]
