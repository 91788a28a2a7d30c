-- ===== src/HintQueue/Scan.antt =====
-- A snapshot drops the expired hints that it meets and hands out the others with their handles.
use mathlib.Core.List.{append_assoc, append-nil}
use cinder.Prelude.{
  ℕ, zero, suc, ◌-◌, ◌<◌, ◌≡◌, refl, sym, subst, ap, ◌∙◌, ◌||◌, true, false, some, List, [], ◌∷◌,
  ◌++◌, length, length-append, map, ◌==◌, arith, Bool-cases, inl, inr, leb,
}
use cinder.Buffer.Lists.{Each}
use cinder.Ring.Replicas.{Each-split}
use cinder.HintQueue.{
  Hint, HintQueue, SnapshotHint, k_none, k_capacity, rounds, publish_metrics, snapshot,
  snapshot_from,
}
use cinder.HintQueue.Chain.{Chain, Linked, first_of, Linked-split, Distinct-Middle}
use cinder.HintQueue.Invariant.{IsQueue, publish-IsQueue, lookup_here}
use cinder.HintQueue.Taken.{taken_max, taken_dropped, taken_generation, taken, taken-IsQueue}
use cinder.HintQueue.Fifo.{Fifo, scan, hints_of}
use cinder.HintQueue.Push.{Holds, unlink-taken}
use cinder.HintQueue.Refine.{publish_max, publish_dropped}

-- The handle names the hint.
abbrev pub Names : HintQueue → SnapshotHint → Type 0
Names q s =
    ((q.slots s.handle.index).hint ≡ some s.hint)
    × ((q.slots s.handle.index).generation ≡ s.handle.generation)

module _ (b now max_entries : ℕ) where
  -- The scan behind the part `ys` of the list has left `us` and found `found`.
  record Scanned (q r : HintQueue) (ys xs us : Chain) (count : ℕ) (found : List SnapshotHint)
      : Type 0 where
    pub frees : List ℕ
    pub queue : IsQueue b r (ys ++ us) frees
    pub left : hints_of us ≡ (scan now count (hints_of xs)).0
    pub names : map (λ s. s.hint) found ≡ (scan now count (hints_of xs)).1
    pub named : Each (Names r) found
    pub generation : (i : ℕ) → (r.slots i).generation ≡ (q.slots i).generation
    pub dropped : r.dropped ≡ q.dropped
    pub max_bytes : r.max_bytes ≡ q.max_bytes

  scan_stop :
      (fuel : ℕ) (q : HintQueue) (index : ℕ) (live : List SnapshotHint)
      → (index == k_none || leb max_entries (length live)) ≡ true
      → snapshot_from b (suc fuel) q index now max_entries live ≡ some (q, live)
  unfolding snapshot_from
  scan_stop fuel q index live e = rw (e, snapshot_from) refl

  scan_expired :
      (fuel : ℕ) (q : HintQueue) (x : ℕ) (hint : Hint) (live : List SnapshotHint)
      → (x == k_none || leb max_entries (length live)) ≡ false
      → (q.slots x).hint ≡ some hint
      → leb hint.expires_at now ≡ true
      → snapshot_from b (suc fuel) q x now max_entries live
        ≡ snapshot_from b fuel (taken b q x hint) (q.slots x).next now max_entries live
  unfolding snapshot_from
  scan_expired fuel q x hint live e h l =
      rw (e, snapshot_from)
        (rw (h, snapshot_from)
          (rw (l, snapshot_from) (rw (unlink-taken b q x hint h, snapshot_from) refl)))

  entry : HintQueue → ℕ → Hint → SnapshotHint
  entry q x hint = record {
    hint = hint;
    handle = record { index = x; generation = (q.slots x).generation };
  }

  scan_live :
      (fuel : ℕ) (q : HintQueue) (x : ℕ) (hint : Hint) (live : List SnapshotHint)
      → (x == k_none || leb max_entries (length live)) ≡ false
      → (q.slots x).hint ≡ some hint
      → leb hint.expires_at now ≡ false
      → snapshot_from b (suc fuel) q x now max_entries live
        ≡ snapshot_from b fuel q (q.slots x).next now max_entries (live ++ (entry q x hint ∷ []))
  unfolding snapshot_from entry
  scan_live fuel q x hint live e h l =
      rw (e, snapshot_from) (rw (h, snapshot_from) (rw (l, snapshot_from) refl))

  next_of :
      (q : HintQueue) (ys : Chain) (x : ℕ) (hint : Hint) (xs : Chain) (frees : List ℕ)
      → IsQueue b q (ys ++ ((x, hint) ∷ xs)) frees
      → (q.slots x).next ≡ first_of k_none xs
  unfolding Linked
  next_of q ys x hint xs frees h =
      (Linked-split q.slots k_none ys ((x, hint) ∷ xs) k_none h.links).1.1

  held :
      (q : HintQueue) (ys : Chain) (x : ℕ) (hint : Hint) (xs : Chain) (frees : List ℕ)
      → IsQueue b q (ys ++ ((x, hint) ∷ xs)) frees
      → ((q.slots x).hint ≡ some hint) × (x < k_capacity)
  held q ys x hint xs frees h = (
    h.owned x ∙ lookup_here x hint ys xs (Distinct-Middle ys x hint xs h.distinct).before,
    omega (
      arith,
      h.room,
      (Each-split (λ (t : ℕ × Hint). t.0 < q.next_unused) ys ((x, hint) ∷ xs) h.below).1.0,
    ),
  )

  Outcome : ℕ → HintQueue → Chain → Chain → List SnapshotHint → Type 0
  Outcome fuel q ys xs live =
      (r : HintQueue) × (us : Chain) × (found : List SnapshotHint) × (snapshot_from b fuel q
          (first_of k_none xs) now max_entries live
        ≡ some (r, live ++ found))
      × Scanned q r ys xs us (max_entries - length live) found

  scan_enough :
      (count : ℕ) (hs : List Hint)
      → count ≡ 0
      → ((scan now count hs).0 ≡ hs) × ((scan now count hs).1 ≡ [])
  unfolding scan
  scan_enough count [] e = (refl, refl)
  scan_enough count (h ∷ hs) e = (ground (arith, e), ground (arith, e))

  scan_old :
      (count : ℕ) (h : Hint) (hs : List Hint)
      → (count == 0) ≡ false
      → leb h.expires_at now ≡ true
      → scan now count (h ∷ hs) ≡ scan now count hs
  unfolding scan
  scan_old count h hs e l = rw (e, l) refl

  scan_young :
      (count : ℕ) (h : Hint) (hs : List Hint)
      → (count == 0) ≡ false
      → leb h.expires_at now ≡ false
      → scan now count (h ∷ hs) ≡ (h ∷ (scan now (count - 1) hs).0, h ∷ (scan now (count - 1) hs).1)
  unfolding scan
  scan_young count h hs e l = rw (e, l) refl

  stopped :
      (fuel : ℕ) (q : HintQueue) (ys xs : Chain) (frees : List ℕ) (live : List SnapshotHint)
      → IsQueue b q (ys ++ xs) frees
      → (first_of k_none xs == k_none || leb max_entries (length live)) ≡ true
      → ((scan now (max_entries - length live) (hints_of xs)).0 ≡ hints_of xs)
      → ((scan now (max_entries - length live) (hints_of xs)).1 ≡ [])
      → Outcome (suc fuel) q ys xs live
  unfolding Outcome
  stopped fuel q ys xs frees live h e k l = (
    q,
    xs,
    [],
    scan_stop fuel q (first_of k_none xs) live e
        ∙ ap (λ (t : List SnapshotHint). some (q, t)) (sym (append-nil live)),
    record {
      frees = frees;
      queue = h;
      left = sym k;
      names = sym l;
      named = tt;
      generation = λ i. refl;
      dropped = refl;
      max_bytes = refl;
    },
  )

  went_old :
      (fuel : ℕ) (q : HintQueue) (ys : Chain) (x : ℕ) (hint : Hint) (xs : Chain) (frees : List ℕ)
      (live : List SnapshotHint)
      → IsQueue b q (ys ++ ((x, hint) ∷ xs)) frees
      → leb max_entries (length live) ≡ false
      → leb hint.expires_at now ≡ true
      → Outcome fuel (taken b q x hint) ys xs live
      → Outcome (suc fuel) q ys ((x, hint) ∷ xs) live
  unfolding Outcome first_of
  went_old fuel q ys x hint xs frees live h e l (r, us, found, run, s) =
      let (here, small) = held q ys x hint xs frees h in
      (
        r,
        us,
        found,
        scan_expired fuel q x hint live (ground (arith, small, e)) here l
            ∙ ap (λ (i : ℕ). snapshot_from b fuel (taken b q x hint) i now max_entries live)
                (next_of q ys x hint xs frees h)
            ∙ run,
        record {
          frees = s.frees;
          queue = s.queue;
          left =
              s.left
              ∙ ap (λ (t : List Hint × List Hint). t.0)
                  (sym (scan_old _ hint (hints_of xs) (ground (arith, e)) l));
          names =
              s.names
              ∙ ap (λ (t : List Hint × List Hint). t.1)
                  (sym (scan_old _ hint (hints_of xs) (ground (arith, e)) l));
          named = s.named;
          generation = λ i. s.generation i ∙ taken_generation b q x hint i;
          dropped = s.dropped ∙ taken_dropped b q x hint;
          max_bytes = s.max_bytes ∙ taken_max b q x hint;
        },
      )

  fewer :
      (live : List SnapshotHint) (s : SnapshotHint)
      → max_entries - length (live ++ (s ∷ [])) ≡ max_entries - length live - 1
  fewer live s = omega (arith, length-append live (s ∷ []))

  went_young :
      (fuel : ℕ) (q : HintQueue) (ys : Chain) (x : ℕ) (hint : Hint) (xs : Chain) (frees : List ℕ)
      (live : List SnapshotHint)
      → IsQueue b q (ys ++ ((x, hint) ∷ xs)) frees
      → leb max_entries (length live) ≡ false
      → leb hint.expires_at now ≡ false
      → Outcome fuel q (ys ++ ((x, hint) ∷ [])) xs (live ++ (entry q x hint ∷ []))
      → Outcome (suc fuel) q ys ((x, hint) ∷ xs) live
  unfolding Outcome first_of entry
  went_young fuel q ys x hint xs frees live h e l (r, us, found, run, s) =
      let (here, small) = held q ys x hint xs frees h in
      let queue : IsQueue b r (ys ++ ((x, hint) ∷ us)) s.frees =
        subst (λ (t : Chain). IsQueue b r t s.frees) (append_assoc ys ((x, hint) ∷ []) us)
          s.queue in
      let counted : scan now (max_entries - length (live ++ (entry q x hint ∷ []))) (hints_of xs)
          ≡ scan now (max_entries - length live - 1) (hints_of xs) =
        ap (λ (n : ℕ). scan now n (hints_of xs)) (fewer live (entry q x hint)) in
      let whole = scan_young (max_entries - length live) hint (hints_of xs) (ground (arith, e)) l in
      (
        r,
        (x, hint) ∷ us,
        entry q x hint ∷ found,
        scan_live fuel q x hint live (ground (arith, small, e)) here l
            ∙ ap
                (λ (i : ℕ).
                  snapshot_from b fuel q i now max_entries (live ++ (entry q x hint ∷ [])))
                (next_of q ys x hint xs frees h)
            ∙ run
            ∙ ap (λ (t : List SnapshotHint). some (r, t))
                (append_assoc live (entry q x hint ∷ []) found),
        record {
          frees = s.frees;
          queue = queue;
          left =
              ap (λ (t : List Hint). hint ∷ t)
                (s.left ∙ ap (λ (t : List Hint × List Hint). t.0) counted)
              ∙ ap (λ (t : List Hint × List Hint). t.0) (sym whole);
          names =
              ap (λ (t : List Hint). hint ∷ t)
                (s.names ∙ ap (λ (t : List Hint × List Hint). t.1) counted)
              ∙ ap (λ (t : List Hint × List Hint). t.1) (sym whole);
          named = (
            (
              queue.owned x
                  ∙ lookup_here x hint ys us (Distinct-Middle ys x hint us queue.distinct).before,
              s.generation x,
            ),
            s.named,
          );
          generation = s.generation;
          dropped = s.dropped;
          max_bytes = s.max_bytes;
        },
      )

  scanned :
      (fuel : ℕ) (q : HintQueue) (ys xs : Chain) (frees : List ℕ) (live : List SnapshotHint)
      → IsQueue b q (ys ++ xs) frees
      → length xs < fuel
      → Outcome fuel q ys xs live
  unfolding first_of scan
  scanned zero q ys xs frees live h f = absurd (omega (arith, f))
  scanned (suc fuel) q ys [] frees live h f = stopped fuel q ys [] frees live h refl refl refl
  scanned (suc fuel) q ys ((x, hint) ∷ xs) frees live h f =
      elim (Bool-cases (leb max_entries (length live))) [
        | inl e ↦
            let (k, l) =
              scan_enough (max_entries - length live) (hint ∷ hints_of xs) (ground (arith, e)) in
            stopped fuel q ys ((x, hint) ∷ xs) frees live h (ground (arith, e)) k l
        | inr e ↦ elim (Bool-cases (leb hint.expires_at now)) [
          | inl old ↦ went_old fuel q ys x hint xs frees live h e old (
              scanned fuel (taken b q x hint) ys xs (x ∷ frees) live
                (taken-IsQueue b q ys x hint xs frees h) (omega (arith, f)))
          | inr young ↦ went_young fuel q ys x hint xs frees live h e young (
              scanned fuel q (ys ++ ((x, hint) ∷ [])) xs frees (live ++ (entry q x hint ∷ []))
                (subst (λ (t : Chain). IsQueue b q t frees)
                  (sym (append_assoc ys ((x, hint) ∷ []) xs)) h)
                (omega (arith, f)))
        ]
      ]

  published_slots : (q : HintQueue) → (publish_metrics q).slots ≡ q.slots
  unfolding publish_metrics
  published_slots q = ground arith

  snapshot_of :
      (q r : HintQueue) (live : List SnapshotHint)
      → snapshot_from b rounds q q.head now max_entries [] ≡ some (r, live)
      → snapshot b q now max_entries ≡ some (publish_metrics r, live)
  unfolding snapshot
  snapshot_of q r live e = rw (e, snapshot) refl

  -- For a queue that holds the hints of `f`, a snapshot returns: it goes from the oldest hint on until
  -- it has `max_entries` live ones, hands these out in order, drops the expired ones that it meets and
  -- keeps all others; each handle names its hint in the queue that is left.
  pub snapshot-scan :
      (q : HintQueue) (f : Fifo) (max : ℕ)
      → Holds b q f max
      → (r : HintQueue) × (found : List SnapshotHint) × (snapshot b q now max_entries
          ≡ some (r, found))
        × Holds b r (record f { hints = (scan now max_entries f.hints).0 }) max
        × (map (λ s. s.hint) found ≡ (scan now max_entries f.hints).1)
        × Each (Names r) found
  unfolding Outcome
  snapshot-scan q f max h =
      let (r, us, found, run, s) =
        scanned rounds q [] h.chain h.frees [] h.queue
          (omega (arith, h.queue.used, h.queue.room)) in
      let all : scan now (max_entries - length {A = SnapshotHint} []) (hints_of h.chain)
          ≡ scan now max_entries f.hints =
        ap (λ (n : ℕ). scan now n (hints_of h.chain)) (omega arith)
        ∙ ap (scan now max_entries) h.hints in
      (
        publish_metrics r,
        found,
        snapshot_of q r found
            (ap (λ (i : ℕ). snapshot_from b rounds q i now max_entries []) h.queue.head ∙ run),
        record {
          chain = us;
          frees = s.frees;
          queue = publish-IsQueue b r us s.frees s.queue;
          hints = s.left ∙ ap (λ (t : List Hint × List Hint). t.0) all;
          dropped = publish_dropped b r ∙ s.dropped ∙ h.dropped;
          max_bytes = publish_max b r ∙ s.max_bytes ∙ h.max_bytes;
        },
        s.names ∙ ap (λ (t : List Hint × List Hint). t.1) all,
        subst
            (λ slots.
              Each
                (λ e.
                  ((slots e.handle.index).hint ≡ some e.hint)
                  × ((slots e.handle.index).generation ≡ e.handle.generation))
                found)
            (sym (published_slots r)) s.named,
      )
