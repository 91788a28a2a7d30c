-- ===== src/HintQueue/Push.antt =====
-- The end of push: evictions until there is room, and the new hint at the tail.
use cinder.Prelude.{
  ℕ, zero, suc, ◌+◌, ◌^◌, ◌<◌, ◌≤◌, ◌≡◌, refl, ap, ◌∙◌, Bool, true, false, none, some, List, [],
  ◌∷◌, ◌++◌, length, ◌==◌, ◌||◌, arith, Bool-cases, inl, inr, ltb,
}
use cinder.Store.{add64}
use cinder.HintQueue.{
  Hint, HintQueue, k_capacity, rounds, estimated_bytes, unlink_and_release, make_room, enqueue,
  admit, publish_metrics, link_at_tail, acquire_slot, set_next, update,
}
use cinder.HintQueue.Chain.{Chain, lookup, first_of}
use cinder.HintQueue.Invariant.{IsQueue, lookup_here, counters-IsQueue}
use cinder.HintQueue.Taken.{taken_max, taken_dropped, taken, taken-IsQueue}
use cinder.HintQueue.Enqueue.{enqueue-IsQueue}
use cinder.HintQueue.Fifo.{Fifo, bytes_of, too_full, evict, store, hints_of}
use cinder.HintQueue.Search.{holds, chain_bytes-bytes_of, length-hints_of, hints_of-append}

lookup-nil : (x : ℕ) → lookup x [] ≡ none
unfolding lookup
lookup-nil x = refl

module _ (b : ℕ) where
  pub unlink-taken :
      (q : HintQueue) (x : ℕ) (hint : Hint)
      → (q.slots x).hint ≡ some hint
      → unlink_and_release b q x ≡ some (taken b q x hint)
  unfolding unlink_and_release taken
  unlink-taken q x hint h = rw (h, unlink_and_release) refl

  -- The queue holds the hints of `f` and has the byte limit `max`.
  pub record Holds (q : HintQueue) (f : Fifo) (max : ℕ) : Type 0 where
    pub chain : Chain
    pub frees : List ℕ
    pub queue : IsQueue b q chain frees
    pub hints : hints_of chain ≡ f.hints
    pub dropped : q.dropped ≡ f.dropped
    pub max_bytes : q.max_bytes ≡ max

  unfoldable pub crowded : HintQueue → ℕ → Bool
  crowded q incoming = q.size == k_capacity || ltb q.max_bytes (add64 q.current_bytes incoming)

  full :
      (q : HintQueue) (xs : Chain) (frees : List ℕ) (incoming max : ℕ)
      → IsQueue b q xs frees
      → q.max_bytes ≡ max
      → incoming ≤ max
      → max < 2 ^ 63
      → crowded q incoming ≡ too_full b max (hints_of xs) incoming
  unfolding too_full crowded
  full q xs frees incoming max h e i m =
      ground
        (arith, e, h.size, h.bytes, h.small, i, m, chain_bytes-bytes_of b xs, length-hints_of xs)

  unlink_head :
      (q : HintQueue) (x : ℕ) (hint : Hint) (xs : Chain) (frees : List ℕ)
      → IsQueue b q ((x, hint) ∷ xs) frees
      → unlink_and_release b q q.head ≡ some (taken b q x hint)
  unfolding first_of
  unlink_head q x hint xs frees h =
      ap (unlink_and_release b q) h.head
      ∙ unlink-taken q x hint (h.owned x ∙ lookup_here x hint [] xs (lookup-nil x))

  pub make_room_stop :
      (fuel : ℕ) (q : HintQueue) (incoming : ℕ)
      → crowded q incoming ≡ false
      → make_room b (suc fuel) q incoming ≡ some q
  unfolding make_room crowded
  make_room_stop fuel q incoming e = rw (e, make_room) refl

  pub make_room_step :
      (fuel : ℕ) (q t : HintQueue) (incoming : ℕ)
      → crowded q incoming ≡ true
      → unlink_and_release b q q.head ≡ some t
      → make_room b (suc fuel) q incoming
        ≡ make_room b fuel (record t { dropped = add64 t.dropped 1 }) incoming
  unfolding make_room crowded
  make_room_step fuel q t incoming e u = rw (e, make_room) (rw (u, make_room) refl)

  pub make_room_stuck :
      (fuel : ℕ) (q : HintQueue) (incoming : ℕ)
      → crowded q incoming ≡ true
      → unlink_and_release b q q.head ≡ none
      → make_room b (suc fuel) q incoming ≡ none
  unfolding make_room crowded
  make_room_stuck fuel q incoming e u = rw (e, make_room) (rw (u, make_room) refl)

  pub admit_stuck :
      (q : HintQueue) (hint : Hint)
      → make_room b rounds q (estimated_bytes b hint) ≡ none
      → admit b q hint ≡ none
  unfolding admit
  admit_stuck q hint e = rw (e, admit) refl

  too_full-nil : (max incoming : ℕ) → incoming ≤ max → too_full b max [] incoming ≡ false
  unfolding too_full bytes_of
  too_full-nil max incoming i = ground (arith, i)

  -- The loop of evictions ends with room for the new hint.
  make_room-evict :
      (fuel : ℕ) (q : HintQueue) (xs : Chain) (frees : List ℕ) (incoming max dropped : ℕ)
      → IsQueue b q xs frees
      → q.max_bytes ≡ max
      → q.dropped ≡ dropped
      → incoming ≤ max
      → max < 2 ^ 63
      → length xs < fuel
      → (r : HintQueue) × (make_room b fuel q incoming ≡ some r)
        × Holds r (evict b max incoming (hints_of xs) dropped) max
        × (too_full b max (evict b max incoming (hints_of xs) dropped).hints incoming ≡ false)
  unfolding evict
  make_room-evict zero q xs frees incoming max dropped h em ed i m f = absurd (omega (arith, f))
  make_room-evict (suc fuel) q [] frees incoming max dropped h em ed i m f =
      let e : too_full b max [] incoming ≡ false = too_full-nil max incoming i in
      (
        q,
        make_room_stop fuel q incoming (full q [] frees incoming max h em i m ∙ e),
        record { chain = []; frees = frees; queue = h; hints = refl; dropped = ed; max_bytes = em },
        e,
      )
  make_room-evict (suc fuel) q ((x, hint) ∷ xs) frees incoming max dropped h em ed i m f =
      elim (Bool-cases (too_full b max (hint ∷ hints_of xs) incoming)) [
        | inr e ↦ rw e (
          q,
          make_room_stop fuel q incoming (full q ((x, hint) ∷ xs) frees incoming max h em i m ∙ e),
          record {
            chain = (x, hint) ∷ xs;
            frees = frees;
            queue = h;
            hints = refl;
            dropped = ed;
            max_bytes = em;
          },
          e,
        )
        | inl e ↦ rw e (
            let t : HintQueue = taken b q x hint in
            let u : HintQueue = record t { dropped = add64 t.dropped 1 } in
            let (r, made, holds, room) =
              make_room-evict fuel u xs (x ∷ frees) incoming max (add64 dropped 1)
                (counters-IsQueue b t xs (x ∷ frees) t.peak_bytes t.max_bytes (add64 t.dropped 1)
                  (taken-IsQueue b q [] x hint xs frees h))
                (taken_max b q x hint ∙ em)
                (ap (λ (d : ℕ). add64 d 1) (taken_dropped b q x hint ∙ ed)) i m
                (omega (arith, f)) in
            (
              r,
              make_room_step fuel q t incoming
                    (full q ((x, hint) ∷ xs) frees incoming max h em i m ∙ e)
                    (unlink_head q x hint xs frees h)
                  ∙ made,
              holds,
              room,
            ))
      ]

  enqueue_max : (q : HintQueue) (hint : Hint) → (enqueue b q hint).max_bytes ≡ q.max_bytes
  unfolding enqueue acquire_slot link_at_tail publish_metrics set_next update
  enqueue_max q hint = ground arith

  enqueue_dropped : (q : HintQueue) (hint : Hint) → (enqueue b q hint).dropped ≡ q.dropped
  unfolding enqueue acquire_slot link_at_tail publish_metrics set_next update
  enqueue_dropped q hint = ground arith

  room_left :
      (ys hs : List Hint) (max incoming n : ℕ)
      → too_full b max hs incoming ≡ false
      → ys ≡ hs
      → n ≤ k_capacity
      → length ys ≤ n
      → (length ys < k_capacity) × (bytes_of b ys + incoming ≤ max)
  unfolding too_full
  room_left ys hs max incoming n t e l k = ground (arith, t, e, l, k)

  pub admit_made :
      (q r : HintQueue) (hint : Hint)
      → make_room b rounds q (estimated_bytes b hint) ≡ some r
      → admit b q hint ≡ some (enqueue b r hint, true)
  unfolding admit
  admit_made q r hint e = rw (e, admit) refl

  pub admit-store :
      (q : HintQueue) (xs : Chain) (frees : List ℕ) (hint : Hint) (max dropped : ℕ)
      → IsQueue b q xs frees
      → q.max_bytes ≡ max
      → q.dropped ≡ dropped
      → estimated_bytes b hint ≤ max
      → max < 2 ^ 63
      → (r : HintQueue) × (admit b q hint ≡ some (r, true))
        × Holds r (store b max (record { hints = hints_of xs; dropped = dropped }) hint).0 max
  unfolding store
  admit-store q xs frees hint max dropped h em ed i m =
      let (r, made, holds, room) =
        make_room-evict rounds q xs frees (estimated_bytes b hint) max dropped h em ed i m
          (omega (arith, h.used, h.room)) in
      let (less, fits) =
        room_left (hints_of holds.chain) _ max (estimated_bytes b hint) r.next_unused room
          holds.hints holds.queue.room
          (omega (arith, length-hints_of holds.chain, holds.queue.used)) in
      let (x, rest, queue) =
        enqueue-IsQueue b r hint holds.chain holds.frees holds.queue
          (omega (arith, less, length-hints_of holds.chain))
          (omega (arith, fits, m, chain_bytes-bytes_of b holds.chain)) in
      (
        enqueue b r hint,
        admit_made q r hint made,
        record {
          chain = holds.chain ++ ((x, hint) ∷ []);
          frees = rest;
          queue = queue;
          hints =
              hints_of-append holds.chain ((x, hint) ∷ [])
              ∙ ap (λ (hs : List Hint). hs ++ (hint ∷ [])) holds.hints;
          dropped = enqueue_dropped r hint ∙ holds.dropped;
          max_bytes = enqueue_max r hint ∙ holds.max_bytes;
        },
      )
