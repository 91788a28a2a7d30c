-- ===== src/WriteQuorum.antt =====
-- The quorum write: fanOutWrite of node/replication_manager.cpp over the reduction of
-- include/cinder/node/fanout.hpp. A run is the sequence of the targets' reports in the order in which
-- the single consumer receives them; a report says whether the send succeeded. The transport may report
-- for a target twice. Metrics, spans and log lines are left out, and so is the failure of the
-- coroutine itself.
pub mod Verdict
pub mod Targets
pub mod Decision
use cinder.Prelude.{
  ℕ, ◌+◌, ◌-◌, ◌/◌, ◌%◌, ◌^◌, Bool, true, false, not, ◌&&◌, ◌||◌, List, [], ◌∷◌, ◌++◌, ltb, leb,
  ◌==◌, if◌then◌else◌,
}
use cinder.Status.{Result, Error, Errc, ok, err}
use cinder.Ring.{seen_before}

-- The drain's state and the reducer's. `delivered` holds the targets whose flag is set; `hints` the
-- targets that enqueueHint was called for, and `decisions` the calls of on_done, in order.
pub record WriteQuorum : Type 0 where
  pub replicas : ℕ
  pub fired : Bool
  pub seen : ℕ
  pub delivered : List ℕ
  pub acks : ℕ
  pub pending : ℕ
  pub w : ℕ
  pub hints : List ℕ
  pub decisions : List (Result (Unit {0}))

-- W of so many replicas and the local node.
abbrev pub majority : ℕ → ℕ
majority replicas = (replicas + 1) / 2 + 1

unfoldable pub start : ℕ → WriteQuorum
start replicas = record {
  replicas = replicas;
  fired = false;
  seen = 0;
  delivered = [];
  acks = 1;
  pending = replicas;
  w = majority replicas;
  hints = [];
  decisions = [];
}

unfoldable pub on_each : WriteQuorum → ℕ → Bool → Bool → WriteQuorum
on_each q i succeeded active =
    let counted =
      if not succeeded
      then record q { hints = q.hints ++ (i ∷ []) }
      else if active
      then record q { acks = q.acks + 1 }
      else q in
    record counted { pending = (q.pending + 2 ^ 64 - 1) % 2 ^ 64 }

unfoldable pub should_fire : WriteQuorum → Bool
should_fire q = leb q.w q.acks || (q.pending == 0 || ltb (q.acks + q.pending) q.w)

abbrev pub quorum_not_reached : Error
quorum_not_reached = record { code = Errc.not_ready; message = "quorum not reached" }

unfoldable pub fire : WriteQuorum → WriteQuorum
fire q = record q {
  fired = true;
  decisions = q.decisions ++ ((if leb q.w q.acks then ok tt else err quorum_not_reached) ∷ []);
}

-- One turn of the draining loop.
unfoldable pub receive : WriteQuorum → ℕ → Bool → WriteQuorum
unfolding on_each should_fire fire
receive q i succeeded =
    let reduced = on_each (record q { seen = q.seen + 1 }) i succeeded (not q.fired) in
    if not q.fired && should_fire reduced then fire reduced else reduced

-- report_once, and the turn that receives what it has sent.
unfoldable pub report : WriteQuorum → ℕ → Bool → WriteQuorum
unfolding receive
report q i succeeded =
    if ltb i q.replicas && not (seen_before i q.delivered)
    then (let marked = record q { delivered = q.delivered ++ (i ∷ []) } in
        if ltb q.seen q.replicas then receive marked i succeeded else marked)
    else q

unfoldable pub drain : WriteQuorum → List (ℕ × Bool) → WriteQuorum
unfolding report
drain q [] = q
drain q ((i, succeeded) ∷ reports) = drain (report q i succeeded) reports

-- The whole write in quorum mode.
unfoldable pub fan_out_write : ℕ → List (ℕ × Bool) → WriteQuorum
unfolding start drain
fan_out_write replicas reports =
    if replicas == 0
    then record (start 0) { decisions = ok tt ∷ [] }
    else drain (start replicas) reports
