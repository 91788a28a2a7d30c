-- ===== src/ReadQuorum.antt =====
-- include/cinder/node/read_quorum.hpp: the reducer of a quorum read, and the registry that lets
-- concurrent reads of a key share one. A callback is named by a number, and what finish calls is
-- its result; a shared_ptr to a flight is its index in the heap.
pub mod FanOut
pub mod Reducer
pub mod Winner
pub mod Decision
pub mod Served
pub mod Flights
use cinder.Prelude.{
  ℕ, zero, suc, ◌+◌, ◌-◌, ◌%◌, ◌^◌, Bool, true, false, not, ◌&&◌, ◌||◌, Option, none, some, is_some,
  List, [], ◌∷◌, ◌++◌, Bytes, length, same_bytes, ltb, leb, ◌==◌, if◌then◌else◌,
}
use cinder.Status.{Errc, errc_code}
use cinder.Lww.{
  VersionedEntry, LwwStamp, LwwOrder, equal, fresh_entry, compare_lww, lww_wins_over, version,
  is_tombstone, set_version, set_tombstone, set_has_ttl,
}
use cinder.Clock.{Clock, to_steady_expiry}
use cinder.Protocol.Response.{Response, value_or_empty}

pub record ReadReducer : Type 0 where
  pub r : ℕ
  pub pending : ℕ
  pub acks : ℕ
  pub best : LwwStamp
  pub needs_repair : Bool
  pub best_entry : Option VersionedEntry

unfoldable pub new_reducer : ℕ → ℕ → Option VersionedEntry → ReadReducer
new_reducer r total none = record {
  r = r;
  pending = total;
  acks = 0;
  best = record { version = 0; writer = 0; tombstone = false };
  needs_repair = false;
  best_entry = none;
}
new_reducer r total (some local) = record {
  r = r;
  pending = total;
  acks = 1;
  best = record {
    version = version local;
    writer = local.writer_node_hash;
    tombstone = is_tombstone local;
  };
  needs_repair = false;
  best_entry = some local;
}

abbrev pub vote_of : Response → LwwStamp
vote_of res = record {
  version = res.version;
  writer = res.writer_node_hash;
  tombstone = res.tombstone;
}

-- The entry that a winning response becomes.
unfoldable pub entry_of : Clock → Response → VersionedEntry
entry_of clock res =
    let entry =
      set_tombstone
        (record (set_version (record fresh_entry { value = value_or_empty res.value })
          res.version) { writer_node_hash = res.writer_node_hash })
        res.tombstone in
    elim res.expires_at [
      | none ↦ entry
      | some t ↦ record (set_has_ttl entry true) { expires_at = to_steady_expiry clock t }
    ]

abbrev pub is_equal : LwwOrder → Bool
is_equal equal = true
is_equal _ = false

-- The fold of a versioned answer.
unfoldable pub count_vote : Clock → ReadReducer → Response → ReadReducer
count_vote clock q res =
    let counted = record q { acks = (q.acks + 1) % 2 ^ 64 } in
    let vote = vote_of res in
    if lww_wins_over vote q.best
    then record counted { needs_repair = true; best = vote; best_entry = some (entry_of clock res) }
    else if not (is_equal (compare_lww vote q.best))
    then record counted { needs_repair = true }
    else counted

-- noteRemote: `none` is a transport error.
unfoldable pub note_remote : Clock → ReadReducer → Option Response → Bool → ReadReducer
note_remote clock q answer false = q
note_remote clock q none true = record q { pending = (q.pending + 2 ^ 64 - 1) % 2 ^ 64 }
note_remote clock q (some res) true =
    let answered = record q { pending = (q.pending + 2 ^ 64 - 1) % 2 ^ 64 } in
    if (res.status == errc_code Errc.ok) && not (res.version == 0)
    then count_vote clock answered res
    else if res.status == errc_code Errc.not_found
    then record answered { needs_repair = true }
    else answered

unfoldable pub should_fire : ReadReducer → Bool
should_fire q = leb q.r q.acks || (q.pending == 0)

-- takeBest moves the entry out; the optional that it leaves still holds a moved-from value.
abbrev pub take_best : ReadReducer → Option VersionedEntry
take_best q = q.best_entry

-- A flight's waiters, by their numbers.
abbrev pub Flight : Type 0
Flight = List ℕ

pub record FlightKey : Type 0 where
  pub key : Bytes
  pub r : ℕ

abbrev pub same_key : FlightKey → FlightKey → Bool
same_key a b = same_bytes a.key b.key && (a.r == b.r)

-- The flights that were made, in order, and the registered ones by their index.
pub record Registry : Type 0 where
  pub heap : List Flight
  pub flights : List (FlightKey × ℕ)

unfoldable pub find_flight : List (FlightKey × ℕ) → FlightKey → Option ℕ
find_flight [] id = none
find_flight ((k, i) ∷ m) id = if same_key k id then some i else find_flight m id

unfoldable pub erase_flight : List (FlightKey × ℕ) → FlightKey → List (FlightKey × ℕ)
erase_flight [] id = []
erase_flight ((k, i) ∷ m) id = if same_key k id then m else (k, i) ∷ erase_flight m id

abbrev pub waiters_at : List Flight → ℕ → Flight
waiters_at [] i = []
waiters_at (f ∷ fs) zero = f
waiters_at (f ∷ fs) (suc i) = waiters_at fs i

abbrev pub set_waiters : List Flight → ℕ → Flight → List Flight
set_waiters [] i w = []
set_waiters (f ∷ fs) zero w = w ∷ fs
set_waiters (f ∷ fs) (suc i) w = f ∷ set_waiters fs i w

-- attach: the flight and whether the caller leads it.
unfoldable pub attach : Registry → FlightKey → ℕ → Registry × ℕ × Bool
attach g id callback = elim (find_flight g.flights id) [
  | none ↦ (
    record {
      heap = g.heap ++ ((callback ∷ []) ∷ []);
      flights = g.flights ++ ((id, length g.heap) ∷ []);
    },
    length g.heap,
    true,
  )
  | some i ↦
      (record g { heap = set_waiters g.heap i (waiters_at g.heap i ++ (callback ∷ [])) }, i, false)
]

-- finish: the callbacks that it calls with the result, in their order.
unfoldable pub finish : Registry → FlightKey → ℕ → Registry × List ℕ
finish g id flight = (
  record {
    heap = set_waiters g.heap flight [];
    flights = elim (find_flight g.flights id) [
      | none ↦ g.flights
      | some i ↦ if i == flight then erase_flight g.flights id else g.flights
    ];
  },
  waiters_at g.heap flight,
)
