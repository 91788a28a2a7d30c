-- ===== src/Failure.antt =====
-- src/cluster/failure_detector.cpp: probing the peers in turn, and what a probe's result or its
-- absence does to the membership table. The clock is an argument `now`, the time-out a count of its
-- ticks. A probe that tick sends is its last result; its answer is a later on_probe_result.
pub mod Streaks
pub mod Silence
pub mod Targets
pub mod Escalation
pub mod Spared
pub mod Runs
use cinder.Prelude.{
  ℕ, zero, suc, ◌+◌, ◌*◌, ◌/◌, ◌%◌, Bool, true, false, not, ◌&&◌, ◌||◌, Option, none, some, List,
  [], ◌∷◌, Bytes, bytes_lt, same_bytes, Map, find, length, ltb, leb, ◌==◌, if◌then◌else◌,
}
use cinder.Lww.{bit}
use cinder.Membership.{
  NodeInfo, MembershipTable, is_dead, is_suspect, snapshot, get, mark_suspect, mark_dead,
  mark_alive,
}

abbrev pub suspect_threshold : ℕ
suspect_threshold = 2

-- Bit 0 of `flags` is a pending probe, bit 1 a suspicion. consecutive_failures is an int; 2^31
-- failures in a row are out of the model.
pub record PeerState : Type 0 where
  pub sent_at : ℕ
  pub suspect_since : ℕ
  pub flags : ℕ
  pub consecutive_failures : ℕ

abbrev pub fresh_peer : PeerState
fresh_peer = record { sent_at = 0; suspect_since = 0; flags = 0; consecutive_failures = 0 }

unfoldable pub probe_pending : PeerState → Bool
probe_pending p = p.flags % 2 == 1

-- (flags & ~1) | pending
unfoldable pub set_probe_pending : PeerState → Bool → PeerState
set_probe_pending p pending = record p { flags = p.flags / 2 * 2 + bit pending }

unfoldable pub is_suspected : PeerState → Bool
is_suspected p = p.flags / 2 % 2 == 1

-- (flags & ~2) | (suspected ? 2 : 0)
unfoldable pub set_suspected : PeerState → Bool → PeerState
set_suspected p suspected = record p { flags = p.flags / 4 * 4 + bit suspected * 2 + p.flags % 2 }

pub record Detector : Type 0 where
  pub self : Bytes
  pub suspect_timeout : ℕ
  pub peers : List Bytes
  pub next_peer : ℕ
  pub peer_state : Map PeerState

-- A detector and the table that it shares with the node.
pub record Cluster : Type 0 where
  pub detector : Detector
  pub table : MembershipTable

-- peer_state_[k] = v; a new key goes to the end, as in ankerl::unordered_dense.
unfoldable pub assign : Map PeerState → Bytes → PeerState → Map PeerState
assign [] k v = (k, v) ∷ []
assign ((j, w) ∷ m) k v = if same_bytes j k then (k, v) ∷ m else (j, w) ∷ assign m k v

-- std::ranges::sort of the peers.
abbrev pub insert_sorted : Bytes → List Bytes → List Bytes
insert_sorted x [] = x ∷ []
insert_sorted x (y ∷ ys) = if bytes_lt y x then y ∷ insert_sorted x ys else x ∷ y ∷ ys

abbrev pub sort : List Bytes → List Bytes
sort [] = []
sort (x ∷ xs) = insert_sorted x (sort xs)

abbrev pub other_ids : Bytes → List NodeInfo → List Bytes
other_ids self [] = []
other_ids self (info ∷ infos) =
    let rest = other_ids self infos in if same_bytes info.id self then rest else info.id ∷ rest

unfoldable pub rebuild_peers : Detector → MembershipTable → Detector
rebuild_peers d t = record d { peers = sort (other_ids d.self (snapshot t.nodes)) }

-- A method of the table, and the callback that start registers if the table changed.
unfoldable pub notify : Detector → MembershipTable × Bool → Cluster
notify d (t, changed) = record { detector = if changed then rebuild_peers d t else d; table = t }

-- start: the first rebuild; the callback is in `notify`.
unfoldable pub start : Cluster → Cluster
start c = record c { detector = rebuild_peers c.detector c.table }

-- `now - then > timeout`
abbrev pub overdue : ℕ → ℕ → ℕ → Bool
overdue now since timeout = ltb (since + timeout) now

abbrev pub timed_out : ℕ → ℕ → PeerState → Bool
timed_out now timeout p = probe_pending p && overdue now p.sent_at timeout

-- The sweep of tick: the states it leaves and the peers that timed out.
unfoldable pub sweep : ℕ → ℕ → Map PeerState → Map PeerState × List Bytes
sweep now timeout [] = ([], [])
sweep now timeout ((peer, p) ∷ m) =
    let (swept, late) = sweep now timeout m in
    if timed_out now timeout p
    then ((peer, set_probe_pending p false) ∷ swept, peer ∷ late)
    else ((peer, p) ∷ swept, late)

abbrev pub is_overdue_suspect : ℕ → ℕ → MembershipTable → Bytes → PeerState → Bool
is_overdue_suspect now timeout t peer p = is_suspected p && elim (get t peer) [
  | none ↦ false
  | some info ↦ is_suspect info.state && overdue now p.suspect_since timeout
]

-- The first loop of escalateSuspectsLocked: the peers to mark dead.
unfoldable pub to_dead : ℕ → ℕ → MembershipTable → Map PeerState → List Bytes
to_dead now timeout t [] = []
to_dead now timeout t ((peer, p) ∷ m) =
    let rest = to_dead now timeout t m in
    if is_overdue_suspect now timeout t peer p then peer ∷ rest else rest

-- Its second loop.
unfoldable pub clear_suspected : Map PeerState → List Bytes → Map PeerState
clear_suspected m [] = m
clear_suspected m (peer ∷ peers) =
    clear_suspected
      (elim (find m peer) [
        | none ↦ m
        | some p ↦ assign m peer (record (set_suspected p false) { consecutive_failures = 0 })
      ])
      peers

unfoldable pub escalate_suspects : ℕ → Detector → MembershipTable → Detector × List Bytes
escalate_suspects now d t =
    let dead = to_dead now d.suspect_timeout t d.peer_state in
    (record d { peer_state = clear_suspected d.peer_state dead }, dead)

-- peers_[i], with `none` out of range.
abbrev pub nth : List Bytes → ℕ → Option Bytes
nth [] i = none
nth (x ∷ xs) zero = some x
nth (x ∷ xs) (suc i) = nth xs i

abbrev pub is_pending : Map PeerState → Bytes → Bool
is_pending m peer = elim (find m peer) [ none ↦ false | some p ↦ probe_pending p ]

abbrev pub is_known_dead : MembershipTable → Bytes → Bool
is_known_dead t peer = elim (get t peer) [ none ↦ false | some info ↦ is_dead info.state ]

-- The tests on which the round robin goes on to the next peer.
unfoldable pub skips : Detector → MembershipTable → Bytes → Bool
skips d t peer = same_bytes peer d.self || is_pending d.peer_state peer || is_known_dead t peer

-- peer_state_[peer], made if it is missing, with a probe sent now.
unfoldable pub start_probe : ℕ → Detector → Bytes → Detector
start_probe now d peer =
    let p : PeerState = elim (find d.peer_state peer) [ none ↦ fresh_peer | some p ↦ p ] in
    record d {
      peer_state = assign d.peer_state peer (record (set_probe_pending p true) { sent_at = now });
    }

-- The round robin; the first argument counts the attempts that are left.
unfoldable pub next_target : ℕ → ℕ → Detector → MembershipTable → Detector × Option Bytes
next_target zero now d t = (d, none)
next_target (suc attempts) now d t =
    let moved = record d { next_peer = (d.next_peer + 1) % length d.peers } in
    let rest = next_target attempts now moved t in
    elim (nth d.peers (d.next_peer % length d.peers)) [
      | none ↦ (d, none)
      | some peer ↦ if skips moved t peer then rest else (start_probe now moved peer, some peer)
    ]

unfoldable pub mark_all_suspect : Cluster → List Bytes → Cluster
mark_all_suspect c [] = c
mark_all_suspect c (peer ∷ peers) =
    mark_all_suspect (notify c.detector (mark_suspect c.table peer)) peers

unfoldable pub mark_all_dead : Cluster → List Bytes → Cluster
mark_all_dead c [] = c
mark_all_dead c (peer ∷ peers) = mark_all_dead (notify c.detector (mark_dead c.table peer)) peers

-- tick: the cluster it leaves and the peer that it pings.
unfoldable pub tick : ℕ → Cluster → Cluster × Option Bytes
tick now c =
    let d = c.detector in
    let (swept, late) = sweep now d.suspect_timeout d.peer_state in
    let (escalated, dead) = escalate_suspects now (record d { peer_state = swept }) c.table in
    let (probing, target) = next_target (length d.peers) now escalated c.table in
    (mark_all_dead (mark_all_suspect (record c { detector = probing }) late) dead, target)

-- What a probe's result does to the peer's state.
unfoldable pub note_result : ℕ → Bool → PeerState → PeerState
note_result now true p = record (set_suspected (set_probe_pending p false) false) {
  consecutive_failures = 0;
}
note_result now false p =
    let failed : PeerState = record (set_probe_pending p false) {
      consecutive_failures = p.consecutive_failures + 1;
    } in
    if is_suspected failed
    then failed
    else record (set_suspected failed true) { suspect_since = now }

unfoldable pub on_probe_result : ℕ → Cluster → Bytes → Bool → Cluster
on_probe_result now c peer acked = elim (find c.detector.peer_state peer) [
  | none ↦ c
  | some p ↦
      let noted = note_result now acked p in
      let d = record (c.detector) { peer_state = assign c.detector.peer_state peer noted } in
      if acked
      then notify d (
          mark_alive now c.table peer
            (elim (get c.table peer) [ none ↦ 0 | some info ↦ info.incarnation ]))
      else if ltb noted.consecutive_failures suspect_threshold
      then record c { detector = d }
      else notify d (mark_suspect c.table peer)
]
