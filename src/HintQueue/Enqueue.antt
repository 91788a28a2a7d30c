-- ===== src/HintQueue/Enqueue.antt =====
-- A hint is put into a free slot and linked at the tail.
use cinder.Prelude.{
  ℕ, suc, ◌+◌, ◌^◌, ◌<◌, ◌≡◌, refl, ◌∙◌, false, Option, none, some, List, [], ◌∷◌, ◌++◌, length,
  length-append, ◌==◌, ==_iff, if◌then◌else◌, arith,
}
use cinder.Buffer.Lists.{Each}
use cinder.Ring.{seen_before}
use cinder.Ring.Replicas.{Each-append, Each-map}
use cinder.Store.{add64}
use cinder.HintQueue.Acquire.{Acquired, acquire_new, recycled, acquire_free}
use cinder.HintQueue.Link.{link-Kept, link-Linked}
use cinder.HintQueue.{
  Hint, HintQueue, k_none, k_capacity, update, acquire_slot, link_at_tail, publish_metrics,
  estimated_bytes, enqueue,
}
use cinder.HintQueue.Chain.{
  Chain, lookup, Distinct, Linked-update, lookup-append, lookup_head, lookup_tail,
}
use cinder.HintQueue.Kept.{Kept}
use cinder.HintQueue.Invariant.{IsQueue, IsSpare, publish-IsQueue, chain_bytes, chain_bytes-append}
use cinder.HintQueue.Free.{Free-frame}

pub Distinct-snoc :
    (xs : Chain) (i : ℕ) (hint : Hint)
    → lookup i xs ≡ none
    → Distinct xs
    → Distinct (xs ++ ((i, hint) ∷ []))
unfolding lookup
Distinct-snoc [] i hint h d = (refl, tt)
Distinct-snoc ((j, other) ∷ xs) i hint h d = (
  ground (arith, lookup-append j xs ((i, hint) ∷ []), d.0, lookup_head i j other xs h),
  Distinct-snoc xs i hint (lookup_tail i j other xs h) d.1,
)

IsSpare-grown :
    (n x : ℕ) (hint : Hint) (xs : Chain) (frees : List ℕ)
    → seen_before x frees ≡ false
    → Each (IsSpare n xs) frees
    → Each (IsSpare n (xs ++ ((x, hint) ∷ []))) frees
unfolding lookup
IsSpare-grown n x hint xs [] f t = tt
IsSpare-grown n x hint xs (i ∷ is) f t = (
  (t.0.0, ground (arith, t.0.1, f, ==_iff i x, lookup-append i xs ((x, hint) ∷ []))),
  IsSpare-grown n x hint xs is (ground (arith, f)) t.1,
)

owned_grown :
    (i x : ℕ) (hint : Hint) (xs : Chain) (found : Option Hint) {held before : Option Hint}
    → held ≡ found
    → found ≡ (if i == x then some hint else before)
    → before ≡ lookup i xs
    → lookup x xs ≡ none
    → held ≡ lookup i (xs ++ ((x, hint) ∷ []))
unfolding lookup
owned_grown i x hint xs found h k l out =
    ground (arith, h, k, l, out, lookup-append i xs ((x, hint) ∷ []))

module _ (b : ℕ) where
  placed : HintQueue → ℕ → Hint → HintQueue
  unfolding update estimated_bytes
  placed a x hint = record a {
    current_bytes = add64 a.current_bytes (estimated_bytes b hint);
    slots =
        update a.slots x
          (record (a.slots x) { generation = add64 (a.slots x).generation 1; hint = some hint });
  }

  placed_hint :
      (a : HintQueue) (x : ℕ) (hint : Hint) (i : ℕ)
      → ((placed a x hint).slots i).hint ≡ (if i == x then some hint else (a.slots i).hint)
  unfolding placed update
  placed_hint a x hint i = ground arith

  placed_free_next :
      (a : HintQueue) (x : ℕ) (hint : Hint) (i : ℕ)
      → ((placed a x hint).slots i).free_next ≡ (a.slots i).free_next
  unfolding placed update
  placed_free_next a x hint i = ground arith

  grown : HintQueue → ℕ → Hint → HintQueue
  grown a x hint =
      let linked = link_at_tail (placed a x hint) x in record linked { size = add64 linked.size 1 }

  enqueue-grown :
      (q a : HintQueue) (x : ℕ) (hint : Hint)
      → acquire_slot q ≡ (x, a)
      → enqueue b q hint ≡ publish_metrics (grown a x hint)
  unfolding enqueue grown placed
  enqueue-grown q a x hint e = rw e refl

  grown-IsQueue :
      (q a : HintQueue) (x : ℕ) (hint : Hint) (xs : Chain) (frees gs : List ℕ)
      → IsQueue b q xs gs
      → Acquired q a x xs frees
      → chain_bytes b xs + estimated_bytes b hint < 2 ^ 63
      → IsQueue b (grown a x hint) (xs ++ ((x, hint) ∷ [])) frees
  unfolding grown placed chain_bytes
  grown-IsQueue q a x hint xs frees gs h r small =
      let p : HintQueue = placed a x hint in
      let kept : Kept p (link_at_tail p x) = link-Kept p x in
      let below : Each (λ e. e.0 < a.next_unused) xs =
        Each-map (λ e. e.0 < q.next_unused) (λ e. e.0 < a.next_unused) xs
          (λ e l. omega (arith, l, r.grown)) h.below in
      let (links, head, tail) =
        link-Linked p x hint xs r.outside
          (Each-map (λ e. e.0 < a.next_unused) (λ e. e.0 < k_capacity) xs
            (λ e l. omega (arith, l, r.room)) below)
          h.distinct (Linked-update a.slots x _ k_none xs k_none r.outside r.links)
          (r.head ∙ h.head) (r.tail ∙ h.tail) in
      record {
        links = links;
        head = head;
        tail = tail;
        distinct = Distinct-snoc xs x hint r.outside h.distinct;
        owned = λ i.
            owned_grown i x hint xs _ (kept.hint i) (placed_hint a x hint i) (r.hint i ∙ h.owned i)
              r.outside;
        below =
            rw kept.next_unused
              (Each-append (λ e. e.0 < a.next_unused) xs ((x, hint) ∷ []) below (r.below, tt));
        free = rw kept.free_head (
            Free-frame a.slots (link_at_tail p x).slots a.free_head frees
              (λ j t. kept.free_next j ∙ placed_free_next a x hint j) r.free);
        spare = rw kept.next_unused (IsSpare-grown a.next_unused x hint xs frees r.fresh r.spare);
        free_distinct = r.free_distinct;
        used = omega (arith, kept.next_unused, r.used, length-append xs ((x, hint) ∷ []));
        room = rw kept.next_unused r.room;
        size =
            omega
              (arith, kept.size, r.size, h.size, r.used, r.room, length-append xs ((x, hint) ∷ []));
        bytes = omega (
          arith,
          kept.current_bytes,
          r.current_bytes,
          h.bytes,
          small,
          chain_bytes-append b xs ((x, hint) ∷ []),
        );
        small = omega (arith, small, chain_bytes-append b xs ((x, hint) ∷ []));
      }

  pub enqueue-IsQueue :
      (q : HintQueue) (hint : Hint) (xs : Chain) (frees : List ℕ)
      → IsQueue b q xs frees
      → length xs < k_capacity
      → chain_bytes b xs + estimated_bytes b hint < 2 ^ 63
      → (x : ℕ) × (rest : List ℕ) × IsQueue b (enqueue b q hint) (xs ++ ((x, hint) ∷ [])) rest
  enqueue-IsQueue q hint xs [] h c small =
      let (e, r) = acquire_new b q xs h c in
      let a : HintQueue = record q { next_unused = suc q.next_unused } in
      (
        q.next_unused,
        [],
        rw (enqueue-grown q a q.next_unused hint e) (
            publish-IsQueue b (grown a q.next_unused hint) _ []
              (grown-IsQueue q a q.next_unused hint xs [] [] h r small)),
      )
  enqueue-IsQueue q hint xs (f ∷ fs) h c small =
      let (e, r) = acquire_free b q xs f fs h in
      let a : HintQueue = recycled b q xs f in
      (
        f,
        fs,
        rw (enqueue-grown q a f hint e) (
            publish-IsQueue b (grown a f hint) _ fs
              (grown-IsQueue q a f hint xs fs (f ∷ fs) h r small)),
      )
