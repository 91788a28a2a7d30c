-- ===== src/Failure/Silence.antt =====
-- tick: what the passing of time alone does to the peers.
use cinder.Prelude.{
  ℕ, zero, suc, ◌+◌, ◌%◌, ◌≡◌, refl, sym, ap, ◌∙◌, subst, Bool, true, false, some, List, [], ◌∷◌,
  Bytes, Map, find, find-insert_or_assign, same_bytes_iff, length, ◌==◌, arith, Option-cases,
  Bool-cases, inl, inr,
}
use cinder.Membership.{suspect, MembershipTable, get, mark_suspect}
use cinder.Failure.{
  PeerState, Detector, Cluster, assign, notify, fresh_peer, sweep, to_dead, is_known_dead,
  clear_suspected, escalate_suspects, next_target, start_probe, skips, mark_all_suspect,
  mark_all_dead, tick, set_probe_pending, is_suspected, nth,
}
use cinder.Failure.Streaks.{notify_fields}

-- No peer is under suspicion from a failed probe.
abbrev pub IsCalm : Map PeerState → Type 0
IsCalm [] = Unit {0}
IsCalm ((peer, p) ∷ m) = (is_suspected p ≡ false) × IsCalm m

assign-IsCalm :
    (m : Map PeerState) (k : Bytes) (v : PeerState)
    → IsCalm m
    → is_suspected v ≡ false
    → IsCalm (assign m k v)
unfolding assign
assign-IsCalm [] k v h e = (e, tt)
assign-IsCalm ((j, w) ∷ m) k v h e = ground (arith, h, e, assign-IsCalm m k v h.1 e)

find-IsCalm :
    (m : Map PeerState) (k : Bytes) (v : PeerState)
    → IsCalm m
    → find m k ≡ some v
    → is_suspected v ≡ false
unfolding find
find-IsCalm [] k v h e = cc
find-IsCalm ((j, w) ∷ m) k v h e = ground (arith, h, e, find-IsCalm m k v h.1)

pub pending_keeps :
    (p : PeerState) (b : Bool) → is_suspected (set_probe_pending p b) ≡ is_suspected p
unfolding is_suspected set_probe_pending
pending_keeps p true = ap (λ (f : ℕ). f % 2 == 1) (omega arith)
pending_keeps p false = ap (λ (f : ℕ). f % 2 == 1) (omega arith)

sweep-IsCalm : (now timeout : ℕ) (m : Map PeerState) → IsCalm m → IsCalm (sweep now timeout m).0
unfolding sweep
sweep-IsCalm now timeout [] h = tt
sweep-IsCalm now timeout ((peer, p) ∷ m) h =
    ground (arith, h, sweep-IsCalm now timeout m h.1, pending_keeps p false)

none_dead :
    (now timeout : ℕ) (t : MembershipTable) (m : Map PeerState)
    → IsCalm m
    → to_dead now timeout t m ≡ []
unfolding to_dead
none_dead now timeout t [] h = refl
none_dead now timeout t ((peer, p) ∷ m) h = ground (arith, h.0, none_dead now timeout t m h.1)

sent_calm :
    (now : ℕ) (p : PeerState)
    → is_suspected (record (set_probe_pending p true) { sent_at = now }) ≡ is_suspected p
unfolding is_suspected set_probe_pending
sent_calm now p = ap (λ (f : ℕ). f % 2 == 1) (omega arith)

fresh_calm : is_suspected fresh_peer ≡ false
unfolding is_suspected
fresh_calm = refl

start_probe-IsCalm :
    (now : ℕ) (d : Detector) (peer : Bytes)
    → IsCalm d.peer_state
    → IsCalm (start_probe now d peer).peer_state
unfolding start_probe
start_probe-IsCalm now d peer h = elim (Option-cases (find d.peer_state peer)) [
  | inl e ↦
      rw (e, start_probe)
        (assign-IsCalm d.peer_state peer
          (record (set_probe_pending fresh_peer true) { sent_at = now }) h
          (sent_calm now fresh_peer ∙ fresh_calm))
  | inr (p, e) ↦
      rw (e, start_probe)
        (assign-IsCalm d.peer_state peer (record (set_probe_pending p true) { sent_at = now }) h
          (sent_calm now p ∙ find-IsCalm d.peer_state peer p h e))
]

next_target-IsCalm :
    (attempts now : ℕ) (d : Detector) (t : MembershipTable)
    → IsCalm d.peer_state
    → IsCalm (next_target attempts now d t).0.peer_state
unfolding next_target
next_target-IsCalm zero now d t h = h
next_target-IsCalm (suc attempts) now d t h =
    let moved = record d { next_peer = (d.next_peer + 1) % length d.peers } in
    elim (Option-cases (nth d.peers (d.next_peer % length d.peers))) [
      | inl e ↦ rw (e, next_target) h
      | inr (peer, e) ↦ elim (Bool-cases (skips moved t peer)) [
        | inl s ↦ rw (e, next_target) (rw s (next_target-IsCalm attempts now moved t h))
        | inr s ↦ rw (e, next_target) (rw s (start_probe-IsCalm now moved peer h))
      ]
    ]

pub known_dead-mark_suspect :
    (t : MembershipTable) (peer id : Bytes)
    → is_known_dead (mark_suspect t peer).0 id ≡ is_known_dead t id
unfolding get mark_suspect
known_dead-mark_suspect t peer id = elim (Option-cases (find t.nodes peer)) [
  | inl e ↦ rw (e, mark_suspect, get) refl
  | inr (info, e) ↦ ground (
    arith,
    e,
    same_bytes_iff peer id,
    find-insert_or_assign t.nodes peer id (record info { state = suspect }),
  )
]

marked_suspect :
    (peers : List Bytes) (c : Cluster) (id : Bytes)
    → IsCalm c.detector.peer_state
    → IsCalm (mark_all_suspect c peers).detector.peer_state
      × (is_known_dead (mark_all_suspect c peers).table id ≡ is_known_dead c.table id)
unfolding mark_all_suspect
marked_suspect [] c id h = (h, refl)
marked_suspect (peer ∷ peers) c id h =
    let r = mark_suspect c.table peer in
    let (same_peers, same_table) = notify_fields c.detector r in
    let (calm, same_dead) =
      marked_suspect peers (notify c.detector r) id (subst IsCalm (sym same_peers) h) in
    (
      calm,
      same_dead
          ∙ ap (λ (t : MembershipTable). is_known_dead t id) same_table
          ∙ known_dead-mark_suspect c.table peer id,
    )

-- tick at each of the times, with no probe's result in between.
unfoldable pub ticks : List ℕ → Cluster → Cluster
ticks [] c = c
ticks (now ∷ times) c = ticks times (tick now c).0

silent_tick :
    (now : ℕ) (c : Cluster) (id : Bytes)
    → IsCalm c.detector.peer_state
    → IsCalm (tick now c).0.detector.peer_state
      × (is_known_dead (tick now c).0.table id ≡ is_known_dead c.table id)
unfolding tick escalate_suspects mark_all_dead clear_suspected
silent_tick now c id h =
    let d = c.detector in
    let swept = (sweep now d.suspect_timeout d.peer_state).0 in
    let late = (sweep now d.suspect_timeout d.peer_state).1 in
    let calm = sweep-IsCalm now d.suspect_timeout d.peer_state h in
    let nobody = none_dead now d.suspect_timeout c.table swept calm in
    let escalated = record d { peer_state = swept } in
    let probing = (next_target (length d.peers) now escalated c.table).0 in
    rw (nobody, tick, escalate_suspects)
      (marked_suspect late (record c { detector = probing }) id
        (next_target-IsCalm (length d.peers) now escalated c.table calm))

-- While no peer is suspected after a failed probe and no result of a probe comes back, tick marks no
-- node dead, however often and however late it runs: exactly the nodes that were dead are dead.
pub silence_kills_nobody :
    (times : List ℕ) (c : Cluster) (id : Bytes)
    → IsCalm c.detector.peer_state
    → is_known_dead (ticks times c).table id ≡ is_known_dead c.table id
unfolding ticks
silence_kills_nobody [] c id h = refl
silence_kills_nobody (now ∷ times) c id h =
    let (calm, same_dead) = silent_tick now c id h in
    silence_kills_nobody times (tick now c).0 id calm ∙ same_dead
