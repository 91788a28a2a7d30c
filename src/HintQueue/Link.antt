-- ===== src/HintQueue/Link.antt =====
-- Linking a slot at the tail of the chain.
use cinder.Prelude.{ℕ, ◌<◌, ◌≡◌, refl, sym, ap, ◌∙◌, false, none, [], ◌∷◌, ◌++◌, ◌==◌, arith}
use cinder.Buffer.Lists.{Each}
use cinder.HintQueue.{
  Hint, Slot, Slots, HintQueue, k_none, k_capacity, update, set_next, link_at_tail,
}
use cinder.HintQueue.Chain.{
  Chain, lookup, Distinct, first_of, last_of, Linked, Linked-update, Linked-set_next, Linked-join,
  lookup-last, last_of-append,
}
use cinder.HintQueue.Unlink.{last_below}
use cinder.HintQueue.Kept.{Kept}

pub link-Kept : (q : HintQueue) (i : ℕ) → Kept q (link_at_tail q i)
unfolding link_at_tail set_next update
link-Kept q i = record {
  hint = λ j. ground arith;
  free_next = λ j. ground arith;
  generation = λ j. ground arith;
  next_unused = ground arith;
  free_head = ground arith;
  size = ground arith;
  current_bytes = ground arith;
  max_bytes = ground arith;
  dropped = ground arith;
}

-- The slot that link_at_tail prepares.
pub tail_slot : HintQueue → ℕ → Slots
unfolding update
tail_slot r x = update r.slots x (record (r.slots x) { prev = r.tail; next = k_none })

pub link_first :
    (r : HintQueue) (x : ℕ)
    → r.tail ≡ k_none
    → link_at_tail r x ≡ record r { slots = tail_slot r x; head = x; tail = x }
unfolding link_at_tail tail_slot
link_first r x h = ground (arith, h)

pub link_inner :
    (r : HintQueue) (x t : ℕ)
    → r.tail ≡ t
    → t < k_capacity
    → link_at_tail r x ≡ record r { slots = set_next (tail_slot r x) t x; tail = x }
unfolding link_at_tail tail_slot
link_inner r x t h l = ground (arith, h, l)

pub tail_slot-Linked :
    (r : HintQueue) (x p : ℕ) (xs : Chain) (stop : ℕ)
    → lookup x xs ≡ none
    → Linked r.slots p xs stop
    → Linked (tail_slot r x) p xs stop
unfolding tail_slot
tail_slot-Linked r x p xs stop out h = Linked-update r.slots x _ p xs stop out h

pub single :
    (s : Slots) (p x : ℕ) (hint : Hint)
    → (s x).prev ≡ p
    → (s x).next ≡ k_none
    → Linked s p ((x, hint) ∷ []) k_none
unfolding Linked first_of
single s p x hint h k = (h, k, tt)

pub prepared : (r : HintQueue) (x t : ℕ) → r.tail ≡ t → (tail_slot r x x).prev ≡ t
unfolding tail_slot update
prepared r x t h = ground (arith, h)

pub ended : (r : HintQueue) (x : ℕ) → (tail_slot r x x).next ≡ k_none
unfolding tail_slot update
ended r x = ground arith

pub untouched : (s : Slots) (i next x : ℕ) → (i == x) ≡ false → set_next s i next x ≡ s x
unfolding set_next update
untouched s i next x h = ground (arith, h)

pub link-Linked :
    (r : HintQueue) (x : ℕ) (hint : Hint) (xs : Chain)
    → lookup x xs ≡ none
    → Each (λ e. e.0 < k_capacity) xs
    → Distinct xs
    → Linked r.slots k_none xs k_none
    → r.head ≡ first_of k_none xs
    → r.tail ≡ last_of k_none xs
    → Linked (link_at_tail r x).slots k_none (xs ++ ((x, hint) ∷ [])) k_none
      × ((link_at_tail r x).head ≡ first_of k_none (xs ++ ((x, hint) ∷ [])))
      × ((link_at_tail r x).tail ≡ last_of k_none (xs ++ ((x, hint) ∷ [])))
unfolding first_of last_of
link-Linked r x hint [] out b d links head tail =
    rw (link_first r x tail)
      (single (tail_slot r x) k_none x hint (prepared r x k_none tail) (ended r x), refl, refl)
link-Linked r x hint ((y, other) ∷ ys) out b d links head tail =
    let t : ℕ = last_of y ys in
    let s : Slots = tail_slot r x in
    let same : set_next s t x x ≡ s x = untouched s t x x (lookup-last x (y, other) ys out) in
    rw (link_inner r x t tail (last_below k_capacity y other ys b)) (
      Linked-join (set_next s t x) k_none ((y, other) ∷ ys) ((x, hint) ∷ []) k_none
          (Linked-set_next s k_none (y, other) ys k_none x d
            (tail_slot-Linked r x k_none ((y, other) ∷ ys) k_none out links))
          (single (set_next s t x) t x hint (ap (λ (u : Slot). u.prev) same ∙ prepared r x t tail)
            (ap (λ (u : Slot). u.next) same ∙ ended r x)),
      head,
      sym (last_of-append y ys ((x, hint) ∷ [])),
    )
