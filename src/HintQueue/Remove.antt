-- ===== src/HintQueue/Remove.antt =====
-- Both ways to remove a hint, and the snapshot, do to the slots what the list of hints says.
use cinder.Prelude.{
  ℕ, ◌<◌, ◌≡◌, refl, sym, subst, ap, ◌∙◌, Bool, true, false, Option, none, some, List, [], ◌∷◌,
  ◌++◌, Bytes, ◌==◌, arith, Bool-cases, Option-cases, inl, inr, leb,
}
use cinder.Buffer.Lists.{Each}
use cinder.Ring.Replicas.{Each-split}
use cinder.Protocol.Request.{Request}
use cinder.HintQueue.{
  Hint, Handle, HintQueue, k_capacity, rounds, search_from, publish_metrics, remove_found,
  remove_write, remove_handle, same_write,
}
use cinder.HintQueue.Chain.{Chain, lookup}
use cinder.HintQueue.Invariant.{IsQueue, publish-IsQueue}
use cinder.HintQueue.Taken.{taken_max, taken_dropped, taken}
use cinder.HintQueue.Fifo.{Fifo, find_hint, remove_hint, hints_of}
use cinder.HintQueue.Push.{Holds, unlink-taken}
use cinder.HintQueue.Refine.{searched, middle, publish_max, publish_dropped}
use cinder.HintQueue.Search.{Found, find_slot, find_slot-Found, find_hint-none, hints_of-append}

remove_hint-none :
    (test : Hint → Bool) (hs : List Hint) → find_hint test hs ≡ none → remove_hint test hs ≡ hs
unfolding find_hint remove_hint
remove_hint-none test [] h = refl
remove_hint-none test (x ∷ xs) h = ground (arith, h, remove_hint-none test xs)

module _ (b : ℕ) where
  published-Holds :
      (q : HintQueue) (xs : Chain) (frees : List ℕ) (f : Fifo) (max : ℕ)
      → IsQueue b q xs frees
      → hints_of xs ≡ f.hints
      → q.dropped ≡ f.dropped
      → q.max_bytes ≡ max
      → Holds b (publish_metrics q) f max
  published-Holds q xs frees f max h e d m = record {
    chain = xs;
    frees = frees;
    queue = publish-IsQueue b q xs frees h;
    hints = e;
    dropped = publish_dropped b q ∙ d;
    max_bytes = publish_max b q ∙ m;
  }

  found_removed :
      (q : HintQueue) (x : ℕ) (hint : Hint)
      → (q.slots x).hint ≡ some hint
      → remove_found b q (some (some x)) ≡ some (publish_metrics (taken b q x hint))
  unfolding remove_found
  found_removed q x hint e = rw (unlink-taken b q x hint e, remove_found) refl

  write-searched :
      (q : HintQueue) (xs : Chain) (frees : List ℕ) (target : Bytes) (req : Request)
      (found : Option ℕ)
      → IsQueue b q xs frees
      → find_slot (same_write target req) xs ≡ found
      → remove_write b q target req ≡ remove_found b q (some found)
  unfolding remove_write
  write-searched q xs frees target req found h e = ap (remove_found b q) (
      ap (search_from (same_write target req) rounds q.slots) h.head
      ∙ searched b (same_write target req) q xs frees h
      ∙ ap some e)

  -- For a queue that holds the hints of `f`, remove(target, req) returns and takes the first hint with
  -- that target, key and version out of the list, and nothing else.
  pub remove_write-remove_hint :
      (q : HintQueue) (f : Fifo) (max : ℕ) (target : Bytes) (req : Request)
      → Holds b q f max
      → (r : HintQueue) × (remove_write b q target req ≡ some r)
        × Holds b r (record f { hints = remove_hint (same_write target req) f.hints }) max
  unfolding remove_found
  remove_write-remove_hint q f max target req h =
      elim (Option-cases (find_slot (same_write target req) h.chain)) [
        | inl n ↦ (
          q,
          write-searched q h.chain h.frees target req none h.queue n,
          record {
            chain = h.chain;
            frees = h.frees;
            queue = h.queue;
            hints =
                h.hints
                ∙ sym (
                    remove_hint-none (same_write target req) f.hints (
                      ap (find_hint (same_write target req)) (sym h.hints)
                      ∙ find_hint-none (same_write target req) h.chain n));
            dropped = h.dropped;
            max_bytes = h.max_bytes;
          },
        )
        | inr (x, n) ↦
            let w : Found (same_write target req) h.chain x =
              find_slot-Found (same_write target req) h.chain x n in
            let (held, rest) =
              middle b q h.chain w.before x w.hint w.behind h.frees h.queue w.split in
            (
              publish_metrics (taken b q x w.hint),
              write-searched q h.chain h.frees target req (some x) h.queue n
                  ∙ found_removed q x w.hint held,
              published-Holds (taken b q x w.hint) (w.before ++ w.behind) (x ∷ h.frees) _ max rest
                  (sym w.removed ∙ ap (remove_hint (same_write target req)) h.hints)
                  (taken_dropped b q x w.hint ∙ h.dropped) (taken_max b q x w.hint ∙ h.max_bytes),
            )
      ]

  lookup-split :
      (x : ℕ) (hint : Hint) (xs : Chain)
      → lookup x xs ≡ some hint
      → (ys : Chain) × (zs : Chain) × (xs ≡ ys ++ ((x, hint) ∷ zs))
  unfolding lookup
  lookup-split x hint [] e = absurd (cc (e))
  lookup-split x hint ((y, other) ∷ xs) e = elim (Bool-cases (x == y)) [
    | inl t ↦ ([], xs, ground (arith, e, t))
    | inr t ↦
        let (ys, zs, k) = lookup-split x hint xs (ground (arith, e, t)) in
        ((y, other) ∷ ys, zs, ap (λ (l : Chain). (y, other) ∷ l) k)
  ]

  handle_removed :
      (q : HintQueue) (handle : Handle) (hint : Hint)
      → handle.index < k_capacity
      → (q.slots handle.index).hint ≡ some hint
      → ((q.slots handle.index).generation == handle.generation) ≡ true
      → remove_handle b q handle ≡ some (publish_metrics (taken b q handle.index hint))
  unfolding remove_handle
  handle_removed q handle hint l e g =
      let c : leb k_capacity handle.index ≡ false = ground (arith, l) in
      rw (c, remove_handle)
        (rw (e, remove_handle)
          (rw (g, remove_handle) (rw (unlink-taken b q handle.index hint e, remove_handle) refl)))

  -- For a queue that holds the hints of `f`, remove(handle) of a handle that names a hint returns and
  -- takes this hint out of the list, the others in their order.
  pub remove_handle-named :
      (q : HintQueue) (f : Fifo) (max : ℕ) (handle : Handle) (hint : Hint)
      → Holds b q f max
      → (q.slots handle.index).hint ≡ some hint
      → (q.slots handle.index).generation ≡ handle.generation
      → (before behind : List Hint) × (r : HintQueue) × (remove_handle b q handle ≡ some r)
        × (f.hints ≡ before ++ (hint ∷ behind))
        × Holds b r (record f { hints = before ++ behind }) max
  remove_handle-named q f max handle hint h e g =
      let x = handle.index in
      let (ys, zs, k) = lookup-split x hint h.chain (sym (h.queue.owned x) ∙ e) in
      let (held, rest) = middle b q h.chain ys x hint zs h.frees h.queue k in
      (
        hints_of ys,
        hints_of zs,
        publish_metrics (taken b q x hint),
        handle_removed q handle hint
            (omega (
              arith,
              h.queue.room,
              (Each-split (λ (t : ℕ × Hint). t.0 < q.next_unused) ys ((x, hint) ∷ zs)
                  (subst (Each (λ (t : ℕ × Hint). t.0 < q.next_unused)) k h.queue.below)).1.0,
            ))
            e (ground (arith, g)),
        sym h.hints ∙ ap hints_of k ∙ hints_of-append ys ((x, hint) ∷ zs),
        published-Holds (taken b q x hint) (ys ++ zs) (x ∷ h.frees) _ max rest
            (hints_of-append ys zs) (taken_dropped b q x hint ∙ h.dropped)
            (taken_max b q x hint ∙ h.max_bytes),
      )
