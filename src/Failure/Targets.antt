-- ===== src/Failure/Targets.antt =====
-- tick: which peer is probed.
use cinder.Prelude.{
  ℕ, zero, suc, ◌+◌, ◌*◌, ◌/◌, ◌%◌, ◌≡◌, refl, ap, ◌∙◌, Bool, true, false, not, ◌&&◌, none, some,
  List, [], ◌∷◌, Bytes, Map, find, same_bytes, same_bytes_iff, length, ◌==◌, arith, Option-cases,
  inl, inr,
}
use cinder.Membership.{MembershipTable, mark_suspect}
use cinder.Failure.{
  notify, mark_all_suspect, PeerState, Detector, Cluster, assign, timed_out, sweep, is_known_dead,
  is_pending, clear_suspected, escalate_suspects, next_target, skips, tick, to_dead,
  set_probe_pending, set_suspected, probe_pending,
}
use cinder.Failure.Streaks.{find-assign, notify_fields}
use cinder.Failure.Silence.{known_dead-mark_suspect}
use cinder.Failure.Escalation.{member, is_listed, all_dead-known, all_suspect-listed}

-- A probe of the peer was sent and may still be answered in time.
abbrev pub is_awaited : ℕ → ℕ → Map PeerState → Bytes → Bool
is_awaited now timeout m peer = elim (find m peer) [
  | none ↦ false
  | some p ↦ probe_pending p && not (timed_out now timeout p)
]

answered : (p : PeerState) → probe_pending (set_probe_pending p false) ≡ false
unfolding probe_pending set_probe_pending
answered p = let even : (p.flags / 2 * 2 + 0) % 2 ≡ 0 = omega arith in ap (λ (x : ℕ). x == 1) even

pending-sweep :
    (now timeout : ℕ) (m : Map PeerState) (peer : Bytes)
    → is_pending (sweep now timeout m).0 peer ≡ is_awaited now timeout m peer
unfolding sweep find
pending-sweep now timeout [] peer = refl
pending-sweep now timeout ((j, p) ∷ m) peer =
    ground (arith, answered p, pending-sweep now timeout m peer)

cleared :
    (p : PeerState)
    → probe_pending (record (set_suspected p false) { consecutive_failures = 0 }) ≡ probe_pending p
unfolding probe_pending set_suspected
cleared p = ap (λ (x : ℕ). x == 1) (omega arith)

pending-clear_suspected :
    (peers : List Bytes) (m : Map PeerState) (peer : Bytes)
    → is_pending (clear_suspected m peers) peer ≡ is_pending m peer
unfolding clear_suspected
pending-clear_suspected [] m peer = refl
pending-clear_suspected (j ∷ peers) m peer = elim (Option-cases (find m j)) [
  | inl e ↦ rw (e, clear_suspected) (pending-clear_suspected peers m peer)
  | inr (p, e) ↦
      let q : PeerState = record (set_suspected p false) { consecutive_failures = 0 } in
      rw (e, clear_suspected)
        (pending-clear_suspected peers (assign m j q) peer
          ∙ ground (arith, e, same_bytes_iff j peer, find-assign m j peer q, cleared p))
]

target_allowed :
    (attempts now : ℕ) (d : Detector) (t : MembershipTable) (peer : Bytes)
    → (next_target attempts now d t).1 ≡ some peer
    → skips d t peer ≡ false
unfolding next_target skips
target_allowed zero now d t peer h = cc
target_allowed (suc attempts) now d t peer h =
    let moved = record d { next_peer = (d.next_peer + 1) % length d.peers } in
    ground (arith, h, target_allowed attempts now moved t peer)

known_dead-all_suspect :
    (peers : List Bytes) (c : Cluster) (id : Bytes)
    → is_known_dead (mark_all_suspect c peers).table id ≡ is_known_dead c.table id
unfolding mark_all_suspect
known_dead-all_suspect [] c id = refl
known_dead-all_suspect (j ∷ peers) c id =
    let r = mark_suspect c.table j in
    known_dead-all_suspect peers (notify c.detector r) id
    ∙ ap (λ (t : MembershipTable). is_known_dead t id) (notify_fields c.detector r).1
    ∙ known_dead-mark_suspect c.table j id

listed-to_dead :
    (now timeout : ℕ) (t : MembershipTable) (m : Map PeerState) (peer : Bytes)
    → member peer (to_dead now timeout t m) ≡ true
    → is_listed t peer ≡ true
unfolding to_dead
listed-to_dead now timeout t [] peer h = cc
listed-to_dead now timeout t ((j, p) ∷ m) peer h =
    ground (arith, h, same_bytes_iff j peer, listed-to_dead now timeout t m peer)

-- The peers whose suspicion a tick ends.
abbrev pub ended : ℕ → Cluster → List Bytes
ended now c =
    let d = c.detector in
    (escalate_suspects now (record d { peer_state = (sweep now d.suspect_timeout d.peer_state).0 })
      c.table).1

-- The peer that tick pings is not the node itself, is not dead in the table that the tick finds, and is not
-- one whose last probe may still be answered in time. In the table that the tick leaves it is dead exactly
-- if this tick has ended its suspicion.
pub tick_target :
    (now : ℕ) (c : Cluster) (peer : Bytes)
    → (tick now c).1 ≡ some peer
    → (same_bytes peer c.detector.self ≡ false)
      × (is_known_dead c.table peer ≡ false)
      × (is_awaited now c.detector.suspect_timeout c.detector.peer_state peer ≡ false)
      × (is_known_dead (tick now c).0.table peer ≡ member peer (ended now c))
unfolding tick escalate_suspects skips
tick_target now c peer h =
    let d = c.detector in
    let (swept, late) = sweep now d.suspect_timeout d.peer_state in
    let killed = to_dead now d.suspect_timeout c.table swept in
    let escalated = record d { peer_state = clear_suspected swept killed } in
    let probing : Cluster = record c {
      detector = (next_target (length d.peers) now escalated c.table).0;
    } in
    let allowed = target_allowed (length d.peers) now escalated c.table peer h in
    let not_dead : is_known_dead c.table peer ≡ false = ground (arith, allowed) in
    (
      ground (arith, allowed),
      not_dead,
      ground (
        arith,
        allowed,
        pending-clear_suspected killed swept peer,
        pending-sweep now d.suspect_timeout d.peer_state peer,
      ),
      all_dead-known killed (mark_all_suspect probing late) peer
          ∙ ground (
            arith,
            all_suspect-listed late probing peer,
            known_dead-all_suspect late probing peer,
            not_dead,
            listed-to_dead now d.suspect_timeout c.table swept peer,
          ),
    )
