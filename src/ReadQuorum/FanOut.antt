-- ===== src/ReadQuorum/FanOut.antt =====
-- The quorum read: the fan-out of src/node/replication_manager.cpp over the reducer and over
-- include/cinder/node/fanout.hpp. A run is the sequence of the replicas' answers in the order in which
-- the single consumer receives them, one for each replica that has answered, since report_once drops
-- repeats. Metrics, spans and the failure of the coroutine itself are left out.
use cinder.Prelude.{
  Bool, true, false, not, ◌&&◌, Option, none, some, List, [], ◌∷◌, ◌++◌, if◌then◌else◌, ℕ, leb,
  ◌==◌, ◌||◌,
}
use cinder.Status.{Result, Error, Errc, ok, err}
use cinder.Lww.{VersionedEntry}
use cinder.Clock.{Clock}
use cinder.Protocol.Response.{Response}
use cinder.ReadQuorum.{ReadReducer, new_reducer, note_remote, should_fire, take_best}

-- What the waiters get, and whether the winner is written to the local store and sent to the replicas.
pub record ReadDecision : Type 0 where
  pub answer : Result VersionedEntry
  pub repair : Bool

-- The drain's `fired`, the reducer and the calls of `fire`, in order.
pub record ReadFanOut : Type 0 where
  pub reducer : ReadReducer
  pub fired : Bool
  pub decisions : List ReadDecision

abbrev pub key_not_found : Error
key_not_found = record { code = Errc.not_found; message = "key not found" }

abbrev pub decide_for : Option VersionedEntry → Bool → ReadDecision
decide_for none needs_repair = record { answer = err key_not_found; repair = false }
decide_for (some entry) needs_repair = record { answer = ok entry; repair = needs_repair }

unfoldable pub decide_read : ReadReducer → ReadDecision
decide_read q = decide_for (take_best q) q.needs_repair

-- One turn of the draining loop.
unfoldable pub receive_answer : Clock → ReadFanOut → Option Response → ReadFanOut
unfolding decide_read
receive_answer clock f a =
    let reduced = note_remote clock f.reducer a (not f.fired) in
    if not f.fired && should_fire reduced
    then record {
      reducer = reduced;
      fired = true;
      decisions = f.decisions ++ (decide_read reduced ∷ []);
    }
    else record f { reducer = reduced }

unfoldable pub drain_answers : Clock → ReadFanOut → List (Option Response) → ReadFanOut
unfolding receive_answer
drain_answers clock f [] = f
drain_answers clock f (a ∷ answers) = drain_answers clock (receive_answer clock f a) answers

-- readAsync of the leader of a flight, from the local entry; without replicas, or for one answer, the
-- local entry decides.
unfoldable pub read_async :
    Clock → ℕ → ℕ → Option VersionedEntry → List (Option Response) → ReadFanOut
unfolding drain_answers
read_async clock r replicas local answers =
    let begun : ReadFanOut = record {
      reducer = new_reducer r replicas local;
      fired = false;
      decisions = [];
    } in
    if (replicas == 0) || leb r 1
    then record begun { decisions = decide_for local false ∷ [] }
    else drain_answers clock begun answers
