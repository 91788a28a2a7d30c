-- ===== src/HintQueue/Refine.antt =====
-- push does to the slots what the list of hints says.
use cinder.Prelude.{
  ℕ, ◌^◌, ◌<◌, ◌≡◌, refl, sym, subst, ap, ◌∙◌, Bool, true, false, Option, none, some, List, [], ◌∷◌,
  ◌++◌, if◌then◌else◌, arith, Bool-cases, Option-cases, inl, inr, ltb,
}
use cinder.Ring.Replicas.{Each-map}
use cinder.Store.{add64}
use cinder.HintQueue.{
  Hint, HintQueue, k_none, k_capacity, rounds, estimated_bytes, search_from, admit, replace, push,
  after_search, same_hint_slot, is_newer_than, publish_metrics,
}
use cinder.HintQueue.Chain.{Chain, first_of, Distinct-Middle}
use cinder.HintQueue.Invariant.{IsQueue, lookup_here, publish-IsQueue, counters-IsQueue}
use cinder.HintQueue.Taken.{taken_max, taken_dropped, taken, taken-IsQueue}
use cinder.HintQueue.Fifo.{Fifo, find_hint, remove_hint, store, fifo_push, hints_of}
use cinder.HintQueue.Push.{Holds, unlink-taken, admit-store}
use cinder.HintQueue.Search.{
  Found, find_slot, find_slot-Found, find_hint-none, search-find_slot, holds,
}

module _ (b : ℕ) where
  start_of :
      (q : HintQueue) (xs : Chain) (frees : List ℕ)
      → IsQueue b q xs frees
      → (if ltb 0 q.size then q.head else k_none) ≡ first_of k_none xs
  unfolding first_of
  start_of q [] frees h = ground (arith, h.size)
  start_of q (x ∷ xs) frees h = ground (arith, h.size, h.head)

  pub searched :
      (test : Hint → Bool) (q : HintQueue) (xs : Chain) (frees : List ℕ)
      → IsQueue b q xs frees
      → search_from test rounds q.slots (first_of k_none xs) ≡ some (find_slot test xs)
  searched test q xs frees h =
      search-find_slot test rounds q.slots k_none xs h.links
        (holds q.slots xs [] xs h.owned refl h.distinct)
        (Each-map (λ e. e.0 < q.next_unused) (λ e. e.0 < k_capacity) xs
          (λ e l. omega (arith, l, h.room)) h.below)
        (omega (arith, h.used, h.room))

  push-after_search :
      (q : HintQueue) (xs : Chain) (frees : List ℕ) (hint : Hint) (found : Option ℕ)
      → IsQueue b q xs frees
      → ltb q.max_bytes (estimated_bytes b hint) ≡ false
      → find_slot (same_hint_slot hint) xs ≡ found
      → push b q hint ≡ after_search b q hint (some found)
  unfolding push
  push-after_search q xs frees hint found h l e =
      rw (l, push)
        (ap (after_search b q hint) (
          ap (search_from (same_hint_slot hint) rounds q.slots) (start_of q xs frees h)
          ∙ searched (same_hint_slot hint) q xs frees h
          ∙ ap some e))

  pub replace_stale :
      (q : HintQueue) (hint old : Hint) (x : ℕ)
      → (q.slots x).hint ≡ some old
      → is_newer_than hint.req old.req ≡ false
      → replace b q hint x ≡ some (q, false)
  unfolding replace
  replace_stale q hint old x h n = rw (h, replace) (rw (n, replace) refl)

  pub replace_newer :
      (q : HintQueue) (hint old : Hint) (x : ℕ)
      → (q.slots x).hint ≡ some old
      → is_newer_than hint.req old.req ≡ true
      → replace b q hint x ≡ admit b (taken b q x old) hint
  unfolding replace
  replace_newer q hint old x h n =
      rw (h, replace) (rw (n, replace) (rw (unlink-taken b q x old h, replace) refl))

  pub publish_max : (q : HintQueue) → (publish_metrics q).max_bytes ≡ q.max_bytes
  unfolding publish_metrics
  publish_max q = ground arith

  pub publish_dropped : (q : HintQueue) → (publish_metrics q).dropped ≡ q.dropped
  unfolding publish_metrics
  publish_dropped q = ground arith

  pub push_large :
      (q : HintQueue) (hint : Hint) (max : ℕ)
      → q.max_bytes ≡ max
      → ltb max (estimated_bytes b hint) ≡ true
      → push b q hint ≡ some (publish_metrics (record q { dropped = add64 q.dropped 1 }), false)
  unfolding push
  push_large q hint max em e =
      let l : ltb q.max_bytes (estimated_bytes b hint) ≡ true = rw em e in rw (l, push) refl

  -- What the chain says of a hint that was found.
  pub middle :
      (q : HintQueue) (xs ys : Chain) (x : ℕ) (hint : Hint) (zs : Chain) (frees : List ℕ)
      → IsQueue b q xs frees
      → xs ≡ ys ++ ((x, hint) ∷ zs)
      → ((q.slots x).hint ≡ some hint) × IsQueue b (taken b q x hint) (ys ++ zs) (x ∷ frees)
  middle q xs ys x hint zs frees h e =
      let k : IsQueue b q (ys ++ ((x, hint) ∷ zs)) frees =
        subst (λ (t : Chain). IsQueue b q t frees) e h in
      (
        k.owned x ∙ lookup_here x hint ys zs (Distinct-Middle ys x hint zs k.distinct).before,
        taken-IsQueue b q ys x hint zs frees k,
      )

  module _ (max dropped : ℕ) (hs : List Hint) (hint : Hint) where
    fifo_large :
        ltb max (estimated_bytes b hint) ≡ true
        → fifo_push b max (record { hints = hs; dropped = dropped }) hint
          ≡ (record { hints = hs; dropped = add64 dropped 1 }, false)
    unfolding fifo_push
    fifo_large e = rw e refl

    fifo_new :
        ltb max (estimated_bytes b hint) ≡ false
        → find_hint (same_hint_slot hint) hs ≡ none
        → fifo_push b max (record { hints = hs; dropped = dropped }) hint
          ≡ store b max (record { hints = hs; dropped = dropped }) hint
    unfolding fifo_push
    fifo_new e n = rw (e, fifo_push) (rw (n, fifo_push) refl)

    fifo_old :
        (old : Hint)
        → ltb max (estimated_bytes b hint) ≡ false
        → find_hint (same_hint_slot hint) hs ≡ some old
        → fifo_push b max (record { hints = hs; dropped = dropped }) hint ≡ (
            if is_newer_than hint.req old.req
            then store b max
                (record { hints = remove_hint (same_hint_slot hint) hs; dropped = dropped })
                hint
            else (record { hints = hs; dropped = dropped }, false))
    unfolding fifo_push
    fifo_old old e n = rw (e, fifo_push) (rw (n, fifo_push) refl)

  -- push ends in a queue that holds the result `o`.
  Ends : HintQueue → Hint → ℕ → Fifo × Bool → Type 0
  Ends q hint max o = (r : HintQueue) × (push b q hint ≡ some (r, o.1)) × Holds b r o.0 max

  pushed_old :
      (q : HintQueue) (xs : Chain) (frees : List ℕ) (hint : Hint) (max dropped x : ℕ)
      → IsQueue b q xs frees
      → q.max_bytes ≡ max
      → q.dropped ≡ dropped
      → max < 2 ^ 63
      → ltb max (estimated_bytes b hint) ≡ false
      → find_slot (same_hint_slot hint) xs ≡ some x
      → Ends q hint max (fifo_push b max (record { hints = hints_of xs; dropped = dropped }) hint)
  unfolding Ends store after_search
  pushed_old q xs frees hint max dropped x h em ed m e n =
      let f : Found (same_hint_slot hint) xs x = find_slot-Found (same_hint_slot hint) xs x n in
      let (held, rest) = middle q xs f.before x f.hint f.behind frees h f.split in
      let run : push b q hint ≡ replace b q hint x =
        push-after_search q xs frees hint (some x) h (rw em e) n in
      subst (Ends q hint max) (sym (fifo_old max dropped (hints_of xs) hint f.hint e f.found))
        (elim (Bool-cases (is_newer_than hint.req f.hint.req)) [
          | inr stale ↦ rw stale (
            q,
            run ∙ replace_stale q hint f.hint x held stale,
            record {
              chain = xs;
              frees = frees;
              queue = h;
              hints = refl;
              dropped = ed;
              max_bytes = em;
            },
          )
          | inl newer ↦
              rw (newer, f.removed)
                (let (r, made, holds) =
                    admit-store b (taken b q x f.hint) (f.before ++ f.behind) (x ∷ frees) hint max
                      dropped rest (taken_max b q x f.hint ∙ em) (taken_dropped b q x f.hint ∙ ed)
                      (ground (arith, e)) m in
                  (r, run ∙ replace_newer q hint f.hint x held newer ∙ made, holds))
        ])

  pushed_large :
      (q : HintQueue) (xs : Chain) (frees : List ℕ) (hint : Hint) (max dropped : ℕ)
      → IsQueue b q xs frees
      → q.max_bytes ≡ max
      → q.dropped ≡ dropped
      → ltb max (estimated_bytes b hint) ≡ true
      → Ends q hint max (record { hints = hints_of xs; dropped = add64 dropped 1 }, false)
  unfolding Ends
  pushed_large q xs frees hint max dropped h em ed e =
      let r : HintQueue = record q { dropped = add64 q.dropped 1 } in
      (
        publish_metrics r,
        push_large q hint max em e,
        record {
          chain = xs;
          frees = frees;
          queue =
              publish-IsQueue b r xs frees
                (counters-IsQueue b q xs frees q.peak_bytes q.max_bytes (add64 q.dropped 1) h);
          hints = refl;
          dropped = publish_dropped r ∙ ap (λ (d : ℕ). add64 d 1) ed;
          max_bytes = publish_max r ∙ em;
        },
      )

  pushed :
      (q : HintQueue) (xs : Chain) (frees : List ℕ) (hint : Hint) (max dropped : ℕ)
      → IsQueue b q xs frees
      → q.max_bytes ≡ max
      → q.dropped ≡ dropped
      → max < 2 ^ 63
      → Ends q hint max (fifo_push b max (record { hints = hints_of xs; dropped = dropped }) hint)
  unfolding Ends store after_search
  pushed q xs frees hint max dropped h em ed m =
      elim (Bool-cases (ltb max (estimated_bytes b hint))) [
        | inl e ↦
            subst (Ends q hint max) (sym (fifo_large max dropped (hints_of xs) hint e))
              (pushed_large q xs frees hint max dropped h em ed e)
        | inr e ↦ elim (Option-cases (find_slot (same_hint_slot hint) xs)) [
          | inl n ↦
              subst (Ends q hint max)
                (sym (
                  fifo_new max dropped (hints_of xs) hint e
                    (find_hint-none (same_hint_slot hint) xs n)))
                (let (r, made, holds) =
                    admit-store b q xs frees hint max dropped h em ed (ground (arith, e)) m in
                  (r, push-after_search q xs frees hint none h (rw em e) n ∙ made, holds))
          | inr (x, n) ↦ pushed_old q xs frees hint max dropped x h em ed m e n
        ]
      ]

  -- For a queue that holds the hints of `f` in order under a byte limit `max` below 2^63, push returns:
  -- it gives the answer of the list specification (a hint that can never fit is given up; one for a
  -- waiting target and key replaces an older write and is ignored if it is older; the oldest hints go
  -- until there is room; the new hint is the last), and the queue then holds the list's result, with its
  -- count of dropped hints and the limit.
  pub push-fifo_push :
      (q : HintQueue) (f : Fifo) (hint : Hint) (max : ℕ)
      → Holds b q f max
      → max < 2 ^ 63
      → (r : HintQueue) × (push b q hint ≡ some (r, (fifo_push b max f hint).1))
        × Holds b r (fifo_push b max f hint).0 max
  unfolding Ends
  push-fifo_push q f hint max h m =
      subst
        (λ hs. Ends q hint max (fifo_push b max (record { hints = hs; dropped = f.dropped }) hint))
        h.hints (pushed q h.chain h.frees hint max f.dropped h.queue h.max_bytes h.dropped m)
