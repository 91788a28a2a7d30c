-- ===== src/HintQueue/Runs.antt =====
-- Every sequence of calls, from the empty queue on.
use cinder.Prelude.{
  ℕ, ◌^◌, ◌<◌, ◌≤◌, ◌≡◌, refl, sym, subst, ap, ◌∙◌, Bool, true, Option, none, some, List, [], ◌∷◌,
  Bytes, length, ◌==◌, arith, Bool-cases, Option-cases, inl, inr,
}
use cinder.Buffer.Lists.{Each}
use cinder.Protocol.Request.{Request}
use cinder.HintQueue.{
  Hint, Handle, HintQueue, k_capacity, k_default_max_bytes, empty_queue, push, snapshot,
  remove_handle, remove_write, set_max_bytes, same_write,
}
use cinder.HintQueue.Chain.{Linked, first_of, last_of, lookup}
use cinder.HintQueue.Free.{Free}
use cinder.HintQueue.Invariant.{chain_bytes, counters-IsQueue}
use cinder.HintQueue.Fifo.{Fifo, bytes_of, fifo_push}
use cinder.HintQueue.Push.{Holds}
use cinder.HintQueue.Refine.{push-fifo_push}
use cinder.HintQueue.Remove.{remove_write-remove_hint, remove_handle-named}
use cinder.HintQueue.Handles.{remove_empty, remove_reused, some-injective}
use cinder.HintQueue.Scan.{snapshot-scan}
use cinder.HintQueue.Search.{chain_bytes-bytes_of, length-hints_of}
use cinder.HintQueue.Bounds.{
  Coalesced, Coalesced-fifo_push, Coalesced-remove_hint, Coalesced-scan, Coalesced-without,
  bytes_of-fifo_push,
}

-- A call and its arguments.
pub data Call : Type 0 where
  push_call : Hint → Call
  snapshot_call : ℕ → ℕ → Call
  remove_handle_call : Handle → Call
  remove_write_call : Bytes → Request → Call
  set_max_call : ℕ → Call

abbrev queue_of {ℓ} : {A : Type ℓ} → Option (HintQueue × A) → Option HintQueue
queue_of none = none
queue_of (some (q, a)) = some q

-- Byte limits are below 2^63.
abbrev pub IsFair : Call → Type 0
IsFair (set_max_call max) = max < 2 ^ 63
IsFair _ = Unit

module _ (b : ℕ) where
  -- The queue after one call; its result is left out.
  unfoldable pub call : HintQueue → Call → Option HintQueue
  call q (push_call hint) = queue_of (push b q hint)
  call q (snapshot_call now max_entries) = queue_of (snapshot b q now max_entries)
  call q (remove_handle_call handle) = remove_handle b q handle
  call q (remove_write_call target req) = remove_write b q target req
  call q (set_max_call max) = some (set_max_bytes q max)

  unfoldable pub calls : HintQueue → List Call → Option HintQueue
  calls q [] = some q
  calls q (c ∷ cs) = elim (call q c) [ none ↦ none | some r ↦ calls r cs ]

  -- A queue in good order: it is a list of hints for different targets and keys.
  pub record IsSound (q : HintQueue) : Type 0 where
    pub fifo : Fifo
    pub holds : Holds b q fifo q.max_bytes
    pub coalesced : Coalesced fifo.hints
    pub limit : q.max_bytes < 2 ^ 63

  sound :
      (q : HintQueue) (f : Fifo) (max : ℕ)
      → Holds b q f max
      → Coalesced f.hints
      → max < 2 ^ 63
      → IsSound q
  sound q f max h c l = record {
    fifo = f;
    holds = subst (Holds b q f) (sym h.max_bytes) h;
    coalesced = c;
    limit = omega (arith, l, h.max_bytes);
  }

  pub empty-Holds : Holds b empty_queue (record { hints = []; dropped = 0 }) k_default_max_bytes
  unfolding Linked first_of last_of Free chain_bytes lookup
  empty-Holds = record {
    chain = [];
    frees = [];
    queue = record {
      links = tt;
      head = refl;
      tail = refl;
      distinct = tt;
      owned = λ i. refl;
      below = tt;
      free = refl;
      spare = tt;
      free_distinct = tt;
      used = refl;
      room = omega arith;
      size = refl;
      bytes = refl;
      small = omega arith;
    };
    hints = refl;
    dropped = refl;
    max_bytes = refl;
  }

  pub empty-IsSound : IsSound empty_queue
  empty-IsSound = sound empty_queue _ k_default_max_bytes empty-Holds tt (omega arith)

  After : HintQueue → Call → Type 0
  After q c = (r : HintQueue) × (call q c ≡ some r) × IsSound r

  handle-IsSound :
      (q : HintQueue) (handle : Handle)
      → IsSound q
      → (r : HintQueue) × (remove_handle b q handle ≡ some r) × IsSound r
  handle-IsSound q handle s = elim (Option-cases (q.slots handle.index).hint) [
    | inl n ↦ (q, remove_empty b q handle n, s)
    | inr (hint, n) ↦ elim (Bool-cases ((q.slots handle.index).generation == handle.generation)) [
      | inr e ↦ (q, remove_reused b q handle e, s)
      | inl e ↦
          let (before, behind, r, run, split, h) =
            remove_handle-named b q s.fifo q.max_bytes handle hint s.holds n (ground (arith, e)) in
          (
            r,
            run,
            sound r _ q.max_bytes h
                (Coalesced-without before hint behind (subst Coalesced split s.coalesced)) s.limit,
          )
    ]
  ]

  call-IsSound : (q : HintQueue) (c : Call) → IsFair c → IsSound q → After q c
  unfolding After call set_max_bytes
  call-IsSound q (push_call hint) fair s =
      let (r, run, h) = push-fifo_push b q s.fifo hint q.max_bytes s.holds s.limit in
      (
        r,
        ap queue_of run,
        sound r _ q.max_bytes h (Coalesced-fifo_push b q.max_bytes s.fifo hint s.coalesced) s.limit,
      )
  call-IsSound q (snapshot_call now max_entries) fair s =
      let (r, found, run, h, names, named) =
        snapshot-scan b now max_entries q s.fifo q.max_bytes s.holds in
      (
        r,
        ap queue_of run,
        sound r _ q.max_bytes h (Coalesced-scan now max_entries s.fifo.hints s.coalesced) s.limit,
      )
  call-IsSound q (remove_handle_call handle) fair s = handle-IsSound q handle s
  call-IsSound q (remove_write_call target req) fair s =
      let (r, run, h) = remove_write-remove_hint b q s.fifo q.max_bytes target req s.holds in
      (
        r,
        run,
        sound r _ q.max_bytes h
            (Coalesced-remove_hint (same_write target req) s.fifo.hints s.coalesced) s.limit,
      )
  call-IsSound q (set_max_call max) fair s = (
    set_max_bytes q max,
    refl,
    sound (set_max_bytes q max) s.fifo max
        (record {
          chain = s.holds.chain;
          frees = s.holds.frees;
          queue =
              counters-IsQueue b q s.holds.chain s.holds.frees q.peak_bytes max q.dropped
                s.holds.queue;
          hints = s.holds.hints;
          dropped = s.holds.dropped;
          max_bytes = refl;
        })
        s.coalesced fair,
  )

  calls-IsSound :
      (q : HintQueue) (cs : List Call)
      → Each IsFair cs
      → IsSound q
      → (r : HintQueue) × (calls q cs ≡ some r) × IsSound r
  unfolding calls After
  calls-IsSound q [] fair s = (q, refl, s)
  calls-IsSound q (c ∷ cs) fair s =
      let (r, run, t) = call-IsSound q c fair.0 s in
      let (u, rest, v) = calls-IsSound r cs fair.1 t in (u, rw (run, calls) rest, v)

  -- Every sequence of calls of push, snapshot, both removes and setMaxBytes (with limits below 2^63)
  -- on the empty queue runs to its end, without reading an empty slot, and leaves a queue that holds a
  -- list of hints: no two for the same target and key, at most 1024, as many as the size says, and their
  -- estimated bytes as the byte count says.
  pub calls-Coalesced :
      (cs : List Call)
      → Each IsFair cs
      → (q : HintQueue) × (f : Fifo) × (calls empty_queue cs ≡ some q)
        × Holds b q f q.max_bytes
        × Coalesced f.hints
        × (q.size ≡ length f.hints)
        × (length f.hints ≤ k_capacity)
        × (q.current_bytes ≡ bytes_of b f.hints)
  calls-Coalesced cs fair =
      let (q, run, s) = calls-IsSound empty_queue cs fair empty-IsSound in
      let k = s.holds.queue in
      let same : length s.fifo.hints ≡ length s.holds.chain =
        ap (length {A = Hint}) (sym s.holds.hints) ∙ length-hints_of s.holds.chain in
      (
        q,
        s.fifo,
        run,
        s.holds,
        s.coalesced,
        k.size ∙ sym same,
        omega (arith, same, k.used, k.room),
        k.bytes ∙ chain_bytes-bytes_of b s.holds.chain ∙ ap (bytes_of b) s.holds.hints,
      )

  -- When push lets a hint into a sound queue, the bytes that the queue then counts are at most its limit.
  pub push_fits :
      (q r : HintQueue) (hint : Hint)
      → IsSound q
      → push b q hint ≡ some (r, true)
      → r.current_bytes ≤ q.max_bytes
  push_fits q r hint s p =
      let (u, run, h) = push-fifo_push b q s.fifo hint q.max_bytes s.holds s.limit in
      let ok : (fifo_push b q.max_bytes s.fifo hint).1 ≡ true = let_in (some-injective run p) in
      let same : u.current_bytes ≡ r.current_bytes =
        ap (λ (t : HintQueue × Bool). t.0.current_bytes) (some-injective run p) in
      omega (
        arith,
        same,
        h.queue.bytes,
        chain_bytes-bytes_of b h.chain,
        ap (bytes_of b) h.hints,
        bytes_of-fifo_push b q.max_bytes s.fifo hint ok,
      )
    where
      let_in : {x y : HintQueue × Bool} → ◌≡◌ {A = HintQueue × Bool} x y → x.1 ≡ y.1
      let_in e = ap (λ (t : HintQueue × Bool). t.1) e
