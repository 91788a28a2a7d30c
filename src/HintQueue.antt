-- ===== src/HintQueue.antt =====
-- include/cinder/node/hint_queue.hpp: the bounded queue of replication hints, a doubly linked list
-- and a list of free slots inside one array. The array is a function from indices to slots; where the
-- code would read a hint that a slot does not hold, or a loop does not end, the result is none.
-- The three atomics that metrics may be stored into are left out.
pub mod Acquire
pub mod Chain
pub mod Fifo
pub mod Handles
pub mod Push
pub mod Refine
pub mod Runs
pub mod Remove
pub mod Scan
pub mod Bounds
pub mod Search
pub mod Enqueue
pub mod Free
pub mod Invariant
pub mod Kept
pub mod Link
pub mod Taken
pub mod Unlink
use cinder.Prelude.{
  ℕ, zero, suc, ◌+◌, ◌%◌, ◌^◌, Bool, true, false, not, ◌&&◌, ◌||◌, Option, none, some, List, [],
  ◌∷◌, ◌++◌, Bytes, same_bytes, length, ltb, leb, ◌==◌, if◌then◌else◌,
}
use cinder.Lww.{LwwStamp, lww_covers}
use cinder.Store.{add64, sub64}
use cinder.Protocol.Request.{Request}

abbrev pub k_capacity : ℕ
k_capacity = 1024

abbrev pub k_none : ℕ
k_none = k_capacity

pub record Hint : Type 0 where
  pub target : Bytes
  pub req : Request
  pub expires_at : ℕ

pub record Handle : Type 0 where
  pub index : ℕ
  pub generation : ℕ

pub record SnapshotHint : Type 0 where
  pub hint : Hint
  pub handle : Handle

pub record Slot : Type 0 where
  pub hint : Option Hint
  pub prev : ℕ
  pub next : ℕ
  pub free_next : ℕ
  pub generation : ℕ

abbrev pub empty_slot : Slot
empty_slot = record {
  hint = none;
  prev = k_none;
  next = k_none;
  free_next = k_none;
  generation = 0;
}

abbrev pub Slots : Type 0
Slots = ℕ → Slot

pub record HintQueue : Type 0 where
  pub slots : Slots
  pub next_unused : ℕ
  pub free_head : ℕ
  pub head : ℕ
  pub tail : ℕ
  pub size : ℕ
  pub current_bytes : ℕ
  pub peak_bytes : ℕ
  pub max_bytes : ℕ
  pub dropped : ℕ

abbrev pub k_default_max_bytes : ℕ
k_default_max_bytes = 67_108_864

abbrev pub empty_queue : HintQueue
empty_queue = record {
  slots = λ i. empty_slot;
  next_unused = 0;
  free_head = k_none;
  head = k_none;
  tail = k_none;
  size = 0;
  current_bytes = 0;
  peak_bytes = 0;
  max_bytes = k_default_max_bytes;
  dropped = 0;
}

-- An assignment to one slot of the array.
unfoldable pub update : Slots → ℕ → Slot → Slots
update slots index slot i = if i == index then slot else slots i

unfoldable pub set_next : Slots → ℕ → ℕ → Slots
unfolding update
set_next slots index next = update slots index (record (slots index) { next = next })

unfoldable pub set_prev : Slots → ℕ → ℕ → Slots
unfolding update
set_prev slots index prev = update slots index (record (slots index) { prev = prev })

abbrev stamp : Request → LwwStamp
stamp r = record { version = r.version; writer = r.writer_node_hash; tombstone = r.tombstone }

-- isNewerThan
unfoldable pub is_newer_than : Request → Request → Bool
is_newer_than a b = lww_covers (stamp a) (stamp b)

-- What publishMetrics does to the queue itself.
unfoldable pub publish_metrics : HintQueue → HintQueue
publish_metrics q =
    if ltb q.peak_bytes q.current_bytes then record q { peak_bytes = q.current_bytes } else q

-- acquireSlot
unfoldable pub acquire_slot : HintQueue → ℕ × HintQueue
unfolding update
acquire_slot q =
    if q.free_head == k_none
    then (q.next_unused, record q { next_unused = suc q.next_unused })
    else (
      q.free_head,
      record q {
        free_head = (q.slots q.free_head).free_next;
        slots = update q.slots q.free_head (record (q.slots q.free_head) { free_next = k_none });
      },
    )

-- linkAtTail
unfoldable pub link_at_tail : HintQueue → ℕ → HintQueue
unfolding update set_next
link_at_tail q index =
    let slots : Slots =
      update q.slots index (record (q.slots index) { prev = q.tail; next = k_none }) in
    if q.tail == k_none
    then record q { slots = slots; head = index; tail = index }
    else record q { slots = set_next slots q.tail index; tail = index }

-- The first half of the unlinking: the link that leads to the slot.
unfoldable pub unlink_prev : HintQueue → ℕ → HintQueue
unfolding set_next
unlink_prev q index =
    let slot = q.slots index in
    if slot.prev == k_none
    then record q { head = slot.next }
    else record q { slots = set_next q.slots slot.prev slot.next }

-- The second half: the link that leads back to the slot.
unfoldable pub unlink_next : HintQueue → ℕ → HintQueue
unfolding set_prev
unlink_next q index =
    let slot = q.slots index in
    if slot.next == k_none
    then record q { tail = slot.prev }
    else record q { slots = set_prev q.slots slot.next slot.prev }

-- The slot is put in front of the free list.
unfoldable pub release : HintQueue → ℕ → HintQueue
unfolding update
release q index = record q {
  slots = update q.slots index (record (q.slots index) {
    hint = none;
    prev = k_none;
    next = k_none;
    free_next = q.free_head;
  });
  free_head = index;
  size = sub64 q.size 1;
}

-- The loop that follows the list to the first hint that passes the test; some none at its end.
unfoldable pub search_from : (Hint → Bool) → ℕ → Slots → ℕ → Option (Option ℕ)
search_from test zero slots index = none
search_from test (suc fuel) slots index =
    if index == k_none then some none else elim (slots index).hint [
      | none ↦ none
      | some hint ↦ elim (test hint) [
        | true ↦ some (some index)
        | false ↦ search_from test fuel slots (slots index).next
      ]
    ]

-- More rounds than the array has slots.
abbrev pub rounds : ℕ
rounds = suc k_capacity

unfoldable pub same_hint_slot : Hint → Hint → Bool
same_hint_slot new old = same_bytes old.target new.target && same_bytes old.req.key new.req.key

-- The test of remove(target, req).
unfoldable pub same_write : Bytes → Request → Hint → Bool
same_write target req hint =
    same_bytes hint.target target
    && same_bytes hint.req.key req.key
    && hint.req.version == req.version

unfoldable pub set_max_bytes : HintQueue → ℕ → HintQueue
set_max_bytes q max_bytes = record q { max_bytes = max_bytes }

-- sizeof(Hint), which depends on the platform.
module _ (hint_bytes : ℕ) where
  -- estimatedPayloadBytes
  unfoldable pub estimated_bytes : Hint → ℕ
  estimated_bytes hint =
      (hint_bytes + length hint.target + length hint.req.key + length hint.req.value) % 2 ^ 64

  -- unlinkAndRelease
  unfoldable pub unlink_and_release : HintQueue → ℕ → Option HintQueue
  unfolding unlink_prev unlink_next release estimated_bytes
  unlink_and_release q index = elim (q.slots index).hint [
    | none ↦ none
    | some hint ↦
        let charged = record q { current_bytes = sub64 q.current_bytes (estimated_bytes hint) } in
        some (release (unlink_next (unlink_prev charged index) index) index)
  ]

  -- The loop of push that evicts the oldest hints.
  unfoldable pub make_room : ℕ → HintQueue → ℕ → Option HintQueue
  unfolding unlink_and_release
  make_room zero q incoming = none
  make_room (suc fuel) q incoming =
      elim (q.size == k_capacity || ltb q.max_bytes (add64 q.current_bytes incoming)) [
        | false ↦ some q
        | true ↦ elim (unlink_and_release q q.head) [
          | none ↦ none
          | some rest ↦ make_room fuel (record rest { dropped = add64 rest.dropped 1 }) incoming
        ]
      ]

  -- The end of push, from acquireSlot on.
  unfoldable pub enqueue : HintQueue → Hint → HintQueue
  unfolding acquire_slot link_at_tail publish_metrics estimated_bytes update
  enqueue q hint =
      let (index, acquired) = acquire_slot q in
      let slot = acquired.slots index in
      let filled = record acquired {
        current_bytes = add64 acquired.current_bytes (estimated_bytes hint);
        slots =
            update acquired.slots index
              (record slot { generation = add64 slot.generation 1; hint = some hint });
      } in
      let linked = link_at_tail filled index in
      publish_metrics (record linked { size = add64 linked.size 1 })

  -- What follows the search in push.
  unfoldable pub admit : HintQueue → Hint → Option (HintQueue × Bool)
  unfolding make_room enqueue
  admit q hint = elim (make_room rounds q (estimated_bytes hint)) [
    | none ↦ none
    | some roomy ↦ some (enqueue roomy hint, true)
  ]

  -- A hint for the same target and key gives way to a newer write and keeps out an older one.
  unfoldable pub replace : HintQueue → Hint → ℕ → Option (HintQueue × Bool)
  unfolding admit is_newer_than unlink_and_release
  replace q hint index = elim (q.slots index).hint [
    | none ↦ none
    | some old ↦ elim (is_newer_than hint.req old.req) [
      | false ↦ some (q, false)
      | true ↦ elim (unlink_and_release q index) [ none ↦ none | some rest ↦ admit rest hint ]
    ]
  ]

  -- What push does with the result of its search.
  unfoldable pub after_search : HintQueue → Hint → Option (Option ℕ) → Option (HintQueue × Bool)
  after_search q hint none = none
  after_search q hint (some none) = admit q hint
  after_search q hint (some (some index)) = replace q hint index

  unfoldable pub push : HintQueue → Hint → Option (HintQueue × Bool)
  unfolding publish_metrics estimated_bytes
  push q hint =
      if ltb q.max_bytes (estimated_bytes hint)
      then some (publish_metrics (record q { dropped = add64 q.dropped 1 }), false)
      else after_search q hint (
          search_from (same_hint_slot hint) rounds q.slots
            (if ltb 0 q.size then q.head else k_none))

  -- The loop of snapshot: the hints that are alive, oldest first, and the queue without the expired
  -- ones that it met.
  unfoldable pub snapshot_from :
      ℕ → HintQueue → ℕ → ℕ → ℕ → List SnapshotHint → Option (HintQueue × List SnapshotHint)
  unfolding unlink_and_release
  snapshot_from zero q index now max_entries live = none
  snapshot_from (suc fuel) q index now max_entries live =
      elim (index == k_none || leb max_entries (length live)) [
        | true ↦ some (q, live)
        | false ↦ elim (q.slots index).hint [
          | none ↦ none
          | some hint ↦
              let slot = q.slots index in
              elim (leb hint.expires_at now) [
                | true ↦ elim (unlink_and_release q index) [
                  | none ↦ none
                  | some rest ↦ snapshot_from fuel rest slot.next now max_entries live
                ]
                | false ↦ snapshot_from fuel q slot.next now max_entries (
                    live
                    ++ (record {
                      hint = hint;
                      handle = record { index = index; generation = slot.generation };
                    }
                        ∷ []))
              ]
        ]
      ]

  -- snapshot(now, max_entries)
  unfoldable pub snapshot : HintQueue → ℕ → ℕ → Option (HintQueue × List SnapshotHint)
  unfolding snapshot_from publish_metrics
  snapshot q now max_entries = elim (snapshot_from rounds q q.head now max_entries []) [
    | none ↦ none
    | some (rest, live) ↦ some (publish_metrics rest, live)
  ]

  -- remove(handle)
  unfoldable pub remove_handle : HintQueue → Handle → Option HintQueue
  unfolding unlink_and_release publish_metrics
  remove_handle q handle =
      if leb k_capacity handle.index then some q else elim (q.slots handle.index).hint [
        | none ↦ some q
        | some hint ↦ elim ((q.slots handle.index).generation == handle.generation) [
          | false ↦ some q
          | true ↦ elim (unlink_and_release q handle.index) [
            | none ↦ none
            | some rest ↦ some (publish_metrics rest)
          ]
        ]
      ]

  -- The slot that remove(target, req) has found is emptied.
  unfoldable pub remove_found : HintQueue → Option (Option ℕ) → Option HintQueue
  unfolding unlink_and_release publish_metrics
  remove_found q none = none
  remove_found q (some none) = some q
  remove_found q (some (some index)) = elim (unlink_and_release q index) [
    | none ↦ none
    | some rest ↦ some (publish_metrics rest)
  ]

  -- remove(target, req)
  unfoldable pub remove_write : HintQueue → Bytes → Request → Option HintQueue
  remove_write q target req =
      remove_found q (search_from (same_write target req) rounds q.slots q.head)
