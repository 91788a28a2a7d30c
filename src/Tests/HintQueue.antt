-- ===== src/Tests/HintQueue.antt =====
-- Two writes of one key for one replica, and one for another replica.
use cinder.Prelude.{
  ℕ, ◌≡◌, refl, ap, subst, ◌⊎◌, arith, Bool, true, false, none, some, List, [], ◌∷◌, ◌++◌, Bytes,
  map, ◌≤◌, length,
}
use cinder.Buffer.Lists.{Each}
use cinder.Protocol.Opcodes.{replicate}
use cinder.Protocol.Request.{Request}
use cinder.Lww.{lww_covers}
use cinder.HintQueue.{
  after_search, admit, search_from, make_room, replace, same_hint_slot, unlink_and_release,
  estimated_bytes, Hint, HintQueue, SnapshotHint, empty_queue, push, enqueue, snapshot,
  remove_handle, k_capacity,
}
use cinder.HintQueue.Fifo.{Fifo, find_hint, store, evict, fifo_push, scan, bytes_of}
use cinder.HintQueue.Push.{Holds}
use cinder.HintQueue.Taken.{taken}
use cinder.HintQueue.Refine.{push-fifo_push}
use cinder.HintQueue.Remove.{remove_handle-named}
use cinder.HintQueue.Handles.{remove_handle-push, some-injective}
use cinder.HintQueue.Scan.{Names, snapshot-scan}
use cinder.HintQueue.Bounds.{Coalesced}
use cinder.HintQueue.Runs.{
  push_call, snapshot_call, set_max_call, calls, calls-Coalesced, empty-Holds, empty-IsSound,
  push_fits,
}

abbrev request : Bytes → ℕ → Request
request key version = record {
  opcode = replicate;
  trace_id = 0;
  span_id = 0;
  key = key;
  value = 1 ∷ 2 ∷ [];
  version = version;
  writer_node_hash = 7;
  ttl = none;
  expires_at = none;
  tombstone = false;
}

abbrev hint_for : Bytes → ℕ → ℕ → Hint
hint_for target version expires_at = record {
  target = target;
  req = request (65 ∷ []) version;
  expires_at = expires_at;
}

abbrev first : Hint
first = hint_for (1 ∷ []) 3 50

abbrev second : Hint
second = hint_for (1 ∷ []) 4 90

abbrev one : HintQueue
one = enqueue 100 empty_queue first

one_pushed : push 100 empty_queue first ≡ some (one, true)
unfolding push after_search admit search_from make_room
one_pushed = refl

one-Holds : Holds 100 one (record { hints = first ∷ []; dropped = 0 }) 67_108_864
unfolding fifo_push find_hint store evict estimated_bytes
one-Holds =
    let (q, run, holds) =
      push-fifo_push 100 empty_queue (record { hints = []; dropped = 0 }) first 67_108_864
        (empty-Holds 100) (omega arith) in
    let same : q ≡ one = ap (λ (t : HintQueue × Bool). t.0) (some-injective run one_pushed) in
    subst (λ (t : HintQueue). Holds 100 t (record { hints = first ∷ []; dropped = 0 }) 67_108_864)
      same holds

push-fifo_push_example :
    (r : HintQueue) × (push 100 one second
      ≡ some (r, (fifo_push 100 67_108_864 (record { hints = first ∷ []; dropped = 0 }) second).1))
    × Holds 100 r
        (fifo_push 100 67_108_864 (record { hints = first ∷ []; dropped = 0 }) second).0
        67_108_864
push-fifo_push_example =
    push-fifo_push 100 one (record { hints = first ∷ []; dropped = 0 }) second 67_108_864 one-Holds
      (omega arith)

calls-Coalesced_example :
    (q : HintQueue) × (f : Fifo) × (calls 100 empty_queue
        (push_call first ∷ push_call second ∷ snapshot_call 60 5 ∷ set_max_call 0 ∷ [])
      ≡ some q)
    × Holds 100 q f q.max_bytes
    × Coalesced f.hints
    × (q.size ≡ length f.hints)
    × (length f.hints ≤ k_capacity)
    × (q.current_bytes ≡ bytes_of 100 f.hints)
calls-Coalesced_example =
    calls-Coalesced 100
      (push_call first ∷ push_call second ∷ snapshot_call 60 5 ∷ set_max_call 0 ∷ [])
      (tt, (tt, (tt, (omega arith, tt))))

push_fits_example : one.current_bytes ≤ 67_108_864
unfolding enqueue
push_fits_example = push_fits 100 empty_queue one first (empty-IsSound 100) one_pushed

remove_handle-named_example :
    (before behind : List Hint) × (r : HintQueue) × (remove_handle 100 one
        (record { index = 0; generation = 1 })
      ≡ some r)
    × ((first ∷ []) ≡ before ++ (first ∷ behind))
    × Holds 100 r (record { hints = before ++ behind; dropped = 0 }) 67_108_864
unfolding enqueue
remove_handle-named_example =
    remove_handle-named 100 one (record { hints = first ∷ []; dropped = 0 }) 67_108_864
      (record { index = 0; generation = 1 }) first one-Holds refl refl

-- The slot of the first hint is used again for the second.
abbrev two : HintQueue
two = enqueue 100 (taken 100 one 0 first) second

two_pushed : push 100 one second ≡ some (two, true)
unfolding push after_search replace admit search_from make_room unlink_and_release taken
    same_hint_slot lww_covers
two_pushed = refl

remove_handle-push_example :
    (((two.slots 0).hint ≡ some first) × ((two.slots 0).generation ≡ 1))
    ⊎ (remove_handle 100 two (record { index = 0; generation = 1 }) ≡ some two)
unfolding enqueue
remove_handle-push_example =
    remove_handle-push 100 one two second first true (record { index = 0; generation = 1 })
      two_pushed refl refl

snapshot-scan_example :
    (r : HintQueue) × (found : List SnapshotHint) × (snapshot 100 one 60 5 ≡ some (r, found))
    × Holds 100 r (record { hints = (scan 60 5 (first ∷ [])).0; dropped = 0 }) 67_108_864
    × (map (λ s. s.hint) found ≡ (scan 60 5 (first ∷ [])).1)
    × Each (Names r) found
snapshot-scan_example =
    snapshot-scan 100 60 5 one (record { hints = first ∷ []; dropped = 0 }) 67_108_864 one-Holds
