-- ===== src/HintQueue/Taken.antt =====
-- Taking out a hint keeps the queue in order.
use cinder.Prelude.{
  ℕ, ◌<◌, ◌≡◌, refl, sym, subst, false, none, List, ◌∷◌, ◌++◌, length-append, ◌==◌, if◌then◌else◌,
  arith, Bool-cases, inl, inr,
}
use cinder.Buffer.Lists.{Each}
use cinder.Ring.{seen_before}
use cinder.Ring.Replicas.{Each-append, Each-split, Each-map}
use cinder.Store.{sub64}
use cinder.HintQueue.Free.{Free, Free-frame, apart}
use cinder.HintQueue.Invariant.{
  IsQueue, IsSpare, Each_seen, lookup_here, lookup_other, chain_bytes, chain_bytes-append,
}
use cinder.HintQueue.{
  Hint, HintQueue, k_capacity, update, unlink_prev, unlink_next, release, estimated_bytes,
}
use cinder.HintQueue.Chain.{Chain, lookup, Middle, Distinct-Middle, lookup_both}
use cinder.HintQueue.Kept.{Kept, unlink-Kept}
use cinder.HintQueue.Unlink.{unlink-Linked}

pub unused-spare :
    (unused : ℕ) (x : ℕ) (hint : Hint) (ys zs : Chain) (frees : List ℕ)
    → lookup x ys ≡ none
    → Each (IsSpare unused (ys ++ ((x, hint) ∷ zs))) frees
    → seen_before x frees ≡ false
unused-spare unused x hint ys zs frees h t = elim (Bool-cases (seen_before x frees)) [
  | inr e ↦ e
  | inl e ↦ absurd (
      cc (
        (Each_seen (IsSpare unused (ys ++ ((x, hint) ∷ zs))) x frees e t).1,
        lookup_here x hint ys zs h,
      ))
]

pub lookup_drop :
    (i j : ℕ) (hint : Hint) (ys zs : Chain)
    → lookup j ys ≡ none
    → lookup i (ys ++ ((j, hint) ∷ zs)) ≡ none
    → lookup i (ys ++ zs) ≡ none
lookup_drop i j hint ys zs h k =
    ground (arith, k, lookup_here j hint ys zs h, lookup_other i j hint ys zs)

module _ (hint_bytes : ℕ) where
  unfoldable pub taken : HintQueue → ℕ → Hint → HintQueue
  unfolding release unlink_next unlink_prev estimated_bytes
  taken q x hint =
      let charged : HintQueue = record q {
        current_bytes = sub64 q.current_bytes (estimated_bytes hint_bytes hint);
      } in
      release (unlink_next (unlink_prev charged x) x) x

  module _ (q : HintQueue) (x : ℕ) (hint : Hint) where
    charge : HintQueue
    unfolding estimated_bytes
    charge = record q { current_bytes = sub64 q.current_bytes (estimated_bytes hint_bytes hint) }

    charge-Kept : Kept charge (unlink_next (unlink_prev charge x) x)
    charge-Kept = unlink-Kept charge x

    taken_unused : (taken q x hint).next_unused ≡ q.next_unused
    unfolding taken release charge
    taken_unused = charge-Kept.next_unused

    taken_free_next :
        (i : ℕ) → (i == x) ≡ false → ((taken q x hint).slots i).free_next ≡ (q.slots i).free_next
    unfolding taken release charge update
    taken_free_next i e = ground (arith, e, charge-Kept.free_next i)

    taken_free_head : ((taken q x hint).slots x).free_next ≡ q.free_head
    unfolding taken release charge update
    taken_free_head = ground (arith, charge-Kept.free_head)

    pub taken_generation : (i : ℕ) → ((taken q x hint).slots i).generation ≡ (q.slots i).generation
    unfolding taken release charge update
    taken_generation i = ground (arith, charge-Kept.generation i, charge-Kept.generation x)

    pub taken_hint :
        (i : ℕ) → ((taken q x hint).slots i).hint ≡ (if i == x then none else (q.slots i).hint)
    unfolding taken release charge update
    taken_hint i = ground (arith, charge-Kept.hint i)

    pub taken_max : (taken q x hint).max_bytes ≡ q.max_bytes
    unfolding taken release charge
    taken_max = charge-Kept.max_bytes

    pub taken_dropped : (taken q x hint).dropped ≡ q.dropped
    unfolding taken release charge
    taken_dropped = charge-Kept.dropped

    taken-Free :
        (frees : List ℕ)
        → seen_before x frees ≡ false
        → Free q.slots q.free_head frees
        → Free (taken q x hint).slots x (x ∷ frees)
    unfolding Free
    taken-Free frees out h = (
      refl,
      Free-frame q.slots (taken q x hint).slots _ frees
          (λ j t. taken_free_next j (apart j x frees t out))
          (subst (λ (f : ℕ). Free q.slots f frees) (sym taken_free_head) h),
    )

  pub taken-IsQueue :
      (q : HintQueue) (ys : Chain) (x : ℕ) (hint : Hint) (zs : Chain) (frees : List ℕ)
      → IsQueue hint_bytes q (ys ++ ((x, hint) ∷ zs)) frees
      → IsQueue hint_bytes (taken q x hint) (ys ++ zs) (x ∷ frees)
  unfolding taken release chain_bytes
  taken-IsQueue q ys x hint zs frees h =
      let charged : HintQueue = record q {
        current_bytes = sub64 q.current_bytes (estimated_bytes hint_bytes hint);
      } in
      let m : Middle ys x zs = Distinct-Middle ys x hint zs h.distinct in
      let (b, c) = Each-split (λ e. e.0 < q.next_unused) ys ((x, hint) ∷ zs) h.below in
      let kept : Kept charged (unlink_next (unlink_prev charged x) x) = unlink-Kept charged x in
      let small : (e : ℕ × Hint) → e.0 < q.next_unused → e.0 < k_capacity =
        λ e l. omega (arith, l, h.room) in
      let (links, head, tail) =
        unlink-Linked charged x hint ys zs m
          (Each-map (λ e. e.0 < q.next_unused) (λ e. e.0 < k_capacity) ys small b)
          (Each-map (λ e. e.0 < q.next_unused) (λ e. e.0 < k_capacity) zs small c.1) h.links h.head
          h.tail in
      let fresh : seen_before x frees ≡ false =
        unused-spare q.next_unused x hint ys zs frees m.before h.spare in
      record {
        links = links;
        head = head;
        tail = tail;
        distinct = m.joined;
        owned = λ i. elim (Bool-cases (i == x)) [
          | inl e ↦ ground (arith, e, lookup_both x ys zs m.before m.behind)
          | inr e ↦ ground (arith, e, kept.hint i, h.owned i, lookup_other i x hint ys zs e)
        ];
        below = rw kept.next_unused (Each-append (λ e. e.0 < q.next_unused) ys zs b c.1);
        free = taken-Free q x hint frees fresh h.free;
        spare =
            subst (λ (n : ℕ). Each (IsSpare n (ys ++ zs)) (x ∷ frees)) (sym (taken_unused q x hint))
              (
                (c.0, lookup_both x ys zs m.before m.behind),
                Each-map (IsSpare q.next_unused (ys ++ ((x, hint) ∷ zs)))
                    (IsSpare q.next_unused (ys ++ zs)) frees
                    (λ i u. (u.0, lookup_drop i x hint ys zs m.before u.1)) h.spare,
              );
        free_distinct = (fresh, h.free_distinct);
        used = omega (
          arith,
          h.used,
          kept.next_unused,
          length-append ys ((x, hint) ∷ zs),
          length-append ys zs,
        );
        room = rw kept.next_unused h.room;
        size = omega (
          arith,
          h.size,
          h.used,
          h.room,
          kept.size,
          length-append ys ((x, hint) ∷ zs),
          length-append ys zs,
        );
        bytes = omega (
          arith,
          h.bytes,
          h.small,
          kept.current_bytes,
          chain_bytes-append hint_bytes ys ((x, hint) ∷ zs),
          chain_bytes-append hint_bytes ys zs,
        );
        small = omega (
          arith,
          h.small,
          chain_bytes-append hint_bytes ys ((x, hint) ∷ zs),
          chain_bytes-append hint_bytes ys zs,
        );
      }
