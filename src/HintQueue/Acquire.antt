-- ===== src/HintQueue/Acquire.antt =====
-- A slot for a new hint: one from the free list, or the first that was never used.
use cinder.Prelude.{ℕ, suc, ◌+◌, ◌<◌, ◌≤◌, ◌≡◌, refl, false, none, List, [], ◌∷◌, length, arith}
use cinder.Buffer.Lists.{Each}
use cinder.Ring.{seen_before}
use cinder.Ring.Walk.{Different}
use cinder.HintQueue.{HintQueue, k_none, k_capacity, update, acquire_slot}
use cinder.HintQueue.Chain.{Chain, lookup, Linked, Linked-update}
use cinder.HintQueue.Invariant.{IsQueue, IsSpare}
use cinder.HintQueue.Free.{Free, Free-update}

-- A slot is ready: outside the chain and the free list, which are as before.
pub record Acquired (q a : HintQueue) (x : ℕ) (xs : Chain) (frees : List ℕ) : Type 0 where
  pub below : x < a.next_unused
  pub grown : q.next_unused ≤ a.next_unused
  pub room : a.next_unused ≤ k_capacity
  pub outside : lookup x xs ≡ none
  pub links : Linked a.slots k_none xs k_none
  pub free : Free a.slots a.free_head frees
  pub spare : Each (IsSpare a.next_unused xs) frees
  pub fresh : seen_before x frees ≡ false
  pub free_distinct : Different frees
  pub used : suc (length xs + length frees) ≡ a.next_unused
  pub hint : (i : ℕ) → (a.slots i).hint ≡ (q.slots i).hint
  pub generation : (i : ℕ) → (a.slots i).generation ≡ (q.slots i).generation
  pub head : a.head ≡ q.head
  pub tail : a.tail ≡ q.tail
  pub size : a.size ≡ q.size
  pub current_bytes : a.current_bytes ≡ q.current_bytes

pub Each_absent : (n : ℕ) (xs : Chain) → Each (λ e. e.0 < n) xs → lookup n xs ≡ none
unfolding lookup
Each_absent n [] h = refl
Each_absent n ((j, hint) ∷ xs) h = ground (arith, h.0, Each_absent n xs h.1)

module _ (b : ℕ) (q : HintQueue) (xs : Chain) where
  pub acquire_new :
      IsQueue b q xs []
      → length xs < k_capacity
      → (acquire_slot q ≡ (q.next_unused, record q { next_unused = suc q.next_unused }))
        × Acquired q (record q { next_unused = suc q.next_unused }) q.next_unused xs []
  unfolding acquire_slot Free
  acquire_new h c = (
    ground (arith, h.free),
    record {
      below = omega arith;
      grown = omega arith;
      room = omega (arith, h.used, c);
      outside = Each_absent q.next_unused xs h.below;
      links = h.links;
      free = h.free;
      spare = tt;
      fresh = refl;
      free_distinct = tt;
      used = omega (arith, h.used);
      hint = λ i. refl;
      generation = λ i. refl;
      head = refl;
      tail = refl;
      size = refl;
      current_bytes = refl;
    },
  )

  pub recycled : ℕ → HintQueue
  unfolding update
  recycled f = record q {
    free_head = (q.slots f).free_next;
    slots = update q.slots f (record (q.slots f) { free_next = k_none });
  }

  pub acquire_free :
      (f : ℕ) (fs : List ℕ)
      → IsQueue b q xs (f ∷ fs)
      → (acquire_slot q ≡ (f, recycled f)) × Acquired q (recycled f) f xs fs
  unfolding acquire_slot recycled Free update
  acquire_free f fs h = (
    ground (arith, h.free.0, h.spare.0.0, h.room),
    record {
      below = h.spare.0.0;
      grown = omega arith;
      room = h.room;
      outside = h.spare.0.1;
      links = Linked-update q.slots f _ k_none xs k_none h.spare.0.1 h.links;
      free = Free-update q.slots f _ (q.slots f).free_next fs h.free_distinct.0 h.free.1;
      spare = h.spare.1;
      fresh = h.free_distinct.0;
      free_distinct = h.free_distinct.1;
      used = omega (arith, h.used);
      hint = λ i. ground arith;
      generation = λ i. ground arith;
      head = refl;
      tail = refl;
      size = refl;
      current_bytes = refl;
    },
  )
