-- ===== src/Tests/ReadQuorum.antt =====
-- A quorum read of a key with two replicas.
use cinder.Prelude.{true, length, ℕ, ◌≡◌, refl, false, Option, none, some, [], ◌∷◌, arith}
use cinder.Lww.{
  VersionedEntry, fresh_entry, compare_lww, lww_wins_over, version, is_tombstone, set_version,
  set_tombstone, set_has_ttl,
}
use cinder.Protocol.Response.{Response}
use cinder.Clock.{Clock}
use cinder.ReadQuorum.{
  FlightKey, Registry, new_reducer, should_fire, note_remote, count_vote, entry_of,
}
use cinder.Status.{ok}
use cinder.Buffer.Lists.{Each}
use cinder.ReadQuorum.FanOut.{read_async}
use cinder.ReadQuorum.Served.{Serves, read_decision}

abbrev clock : Clock
clock = record { now = 100; now_system = 1_000 }

abbrev answer : ℕ → Option Response
answer version = some (record {
  status = 0;
  value = some (7 ∷ []);
  version = version;
  writer_node_hash = 1;
  expires_at = none;
  tombstone = false;
  trace_id = 0;
  span_id = 0;
})

abbrev local : VersionedEntry
local = record fresh_entry { version_and_ttl = 8; value = 6 ∷ [] }

abbrev winner : VersionedEntry
winner = record { version_and_ttl = 20; expires_at = 0; writer_node_hash = 1; value = 7 ∷ [] }

read_decision_example :
    (length (read_async clock 2 2 (some local) (answer 5 ∷ answer 9 ∷ [])).decisions ≡ 1)
    × Each
        (Serves (some local) (answer 5 ∷ []))
        (read_async clock 2 2 (some local) (answer 5 ∷ answer 9 ∷ [])).decisions
read_decision_example =
    read_decision clock 2 2 (some local) (answer 5 ∷ answer 9 ∷ []) (omega arith) (omega arith)
      (omega arith) (omega arith, (omega arith, tt))

-- The answer that comes after the decision changes nothing; the entry of the first is served.
decided :
    (read_async clock 2 2 (some local) (answer 5 ∷ answer 9 ∷ [])).decisions
    ≡ record { answer = ok winner; repair = true } ∷ []
unfolding read_async note_remote count_vote new_reducer entry_of lww_wins_over compare_lww version
    is_tombstone set_version set_tombstone set_has_ttl should_fire
decided = refl

abbrev registry : Registry
registry = record { heap = []; flights = [] }

abbrev read_key : FlightKey
read_key = record { key = 97 ∷ []; r = 2 }
