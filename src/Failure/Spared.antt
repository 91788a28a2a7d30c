-- ===== src/Failure/Spared.antt =====
-- What tick and the results of other peers leave alone: a peer's count of failures and its entry in the
-- table, unless the tick times its probe out or ends its suspicion.
use cinder.Prelude.{
  ℕ, zero, suc, ◌+◌, ◌%◌, ◌≡◌, refl, ap, ◌∙◌, Bool, true, false, not, Option, none, some, List, [],
  ◌∷◌, Bytes, Map, find, find-insert_or_assign, same_bytes, same_bytes_iff, length, if◌then◌else◌,
  arith, Bool-cases, Option-cases, inl, inr,
}
use cinder.Membership.{
  suspect, dead, alive, MembershipTable, get, mark_suspect, mark_dead, mark_alive, is_alive,
}
use cinder.Failure.{
  PeerState, Detector, Cluster, assign, notify, fresh_peer, sweep, clear_suspected, next_target,
  start_probe, skips, nth, mark_all_suspect, mark_all_dead, set_probe_pending, set_suspected,
}
use cinder.Failure.Streaks.{find-assign, notify_fields}
use cinder.Failure.Escalation.{member}

-- The failures in a row that are counted for a peer.
abbrev pub count_for : Map PeerState → Bytes → Option ℕ
count_for m peer = elim (find m peer) [ none ↦ none | some p ↦ some p.consecutive_failures ]

pub find-sweep_spared :
    (now timeout : ℕ) (m : Map PeerState) (peer : Bytes)
    → member peer (sweep now timeout m).1 ≡ false
    → find (sweep now timeout m).0 peer ≡ find m peer
unfolding sweep find
find-sweep_spared now timeout [] peer h = refl
find-sweep_spared now timeout ((j, p) ∷ m) peer h =
    ground (arith, h, find-sweep_spared now timeout m peer)

pub find-clear_spared :
    (peers : List Bytes) (m : Map PeerState) (peer : Bytes)
    → member peer peers ≡ false
    → find (clear_suspected m peers) peer ≡ find m peer
unfolding clear_suspected
find-clear_spared [] m peer h = refl
find-clear_spared (j ∷ peers) m peer h = elim (Option-cases (find m j)) [
  | inl e ↦ rw (e, clear_suspected) (find-clear_spared peers m peer (ground (arith, h)))
  | inr (p, e) ↦
      let q : PeerState = record (set_suspected p false) { consecutive_failures = 0 } in
      rw (e, clear_suspected)
        (find-clear_spared peers (assign m j q) peer (ground (arith, h))
          ∙ ground (arith, h, find-assign m j peer q))
]

count-start_probe :
    (now : ℕ) (d : Detector) (j peer : Bytes) (k : ℕ)
    → count_for d.peer_state peer ≡ some k
    → count_for (start_probe now d j).peer_state peer ≡ some k
unfolding start_probe set_probe_pending
count-start_probe now d j peer k h = elim (Option-cases (find d.peer_state j)) [
  | inl e ↦
      rw (e, start_probe)
        (ground (
          arith,
          e,
          h,
          same_bytes_iff j peer,
          find-assign d.peer_state j peer
              (record (set_probe_pending fresh_peer true) { sent_at = now }),
        ))
  | inr (p, e) ↦
      rw (e, start_probe)
        (ground (
          arith,
          e,
          h,
          same_bytes_iff j peer,
          find-assign d.peer_state j peer (record (set_probe_pending p true) { sent_at = now }),
        ))
]

pub count-next_target :
    (attempts now : ℕ) (d : Detector) (t : MembershipTable) (peer : Bytes) (k : ℕ)
    → count_for d.peer_state peer ≡ some k
    → count_for (next_target attempts now d t).0.peer_state peer ≡ some k
unfolding next_target
count-next_target zero now d t peer k h = h
count-next_target (suc attempts) now d t peer k h =
    let moved = record d { next_peer = (d.next_peer + 1) % length d.peers } in
    elim (Option-cases (nth d.peers (d.next_peer % length d.peers))) [
      | inl e ↦ rw (e, next_target) h
      | inr (j, e) ↦ elim (Bool-cases (skips moved t j)) [
        | inl s ↦ rw (e, next_target) (rw s (count-next_target attempts now moved t peer k h))
        | inr s ↦ rw (e, next_target) (rw s (count-start_probe now moved j peer k h))
      ]
    ]

pub get-mark_suspect_other :
    (t : MembershipTable) (j peer : Bytes)
    → same_bytes j peer ≡ false
    → get (mark_suspect t j).0 peer ≡ get t peer
unfolding get mark_suspect
get-mark_suspect_other t j peer h = elim (Option-cases (find t.nodes j)) [
  | inl e ↦ rw (e, mark_suspect, get) refl
  | inr (info, e) ↦
      ground (arith, e, h, find-insert_or_assign t.nodes j peer (record info { state = suspect }))
]

get-mark_dead_other :
    (t : MembershipTable) (j peer : Bytes)
    → same_bytes j peer ≡ false
    → get (mark_dead t j).0 peer ≡ get t peer
unfolding get mark_dead
get-mark_dead_other t j peer h = elim (Option-cases (find t.nodes j)) [
  | inl e ↦ rw (e, mark_dead, get) refl
  | inr (info, e) ↦
      ground (arith, e, h, find-insert_or_assign t.nodes j peer (record info { state = dead }))
]

pub get-mark_alive_other :
    (now : ℕ) (t : MembershipTable) (j peer : Bytes) (incarnation : ℕ)
    → same_bytes j peer ≡ false
    → get (mark_alive now t j incarnation).0 peer ≡ get t peer
unfolding get mark_alive
get-mark_alive_other now t j peer incarnation h = elim (Option-cases (find t.nodes j)) [
  | inl e ↦ rw (e, mark_alive, get) refl
  | inr (info, e) ↦ ground (
    arith,
    e,
    h,
    find-insert_or_assign t.nodes j peer (record info {
      joined_at = if not (is_alive info.state) then now else info.joined_at;
      state = alive;
      incarnation = incarnation;
    }),
  )
]

-- What is kept of a peer from one cluster to another.
abbrev pub IsKept : Bytes → Cluster → Cluster → Type 0
IsKept peer c c' =
    (count_for c'.detector.peer_state peer ≡ count_for c.detector.peer_state peer)
    × (get c'.table peer ≡ get c.table peer)

pub notify-IsKept :
    (c : Cluster) (d : Detector) (r : MembershipTable × Bool) (peer : Bytes)
    → count_for d.peer_state peer ≡ count_for c.detector.peer_state peer
    → get r.0 peer ≡ get c.table peer
    → IsKept peer c (notify d r)
notify-IsKept c d r peer h k =
    let (same_peers, same_table) = notify_fields d r in
    (
      ap (λ (m : Map PeerState). count_for m peer) same_peers ∙ h,
      ap (λ (t : MembershipTable). get t peer) same_table ∙ k,
    )

pub all_suspect-IsKept :
    (peers : List Bytes) (c : Cluster) (peer : Bytes)
    → member peer peers ≡ false
    → IsKept peer c (mark_all_suspect c peers)
unfolding mark_all_suspect
all_suspect-IsKept [] c peer h = (refl, refl)
all_suspect-IsKept (j ∷ peers) c peer h =
    let r = mark_suspect c.table j in
    let here =
      notify-IsKept c c.detector r peer refl
        (get-mark_suspect_other c.table j peer (ground (arith, h))) in
    let later = all_suspect-IsKept peers (notify c.detector r) peer (ground (arith, h)) in
    (later.0 ∙ here.0, later.1 ∙ here.1)

pub all_dead-IsKept :
    (peers : List Bytes) (c : Cluster) (peer : Bytes)
    → member peer peers ≡ false
    → IsKept peer c (mark_all_dead c peers)
unfolding mark_all_dead
all_dead-IsKept [] c peer h = (refl, refl)
all_dead-IsKept (j ∷ peers) c peer h =
    let r = mark_dead c.table j in
    let here =
      notify-IsKept c c.detector r peer refl
        (get-mark_dead_other c.table j peer (ground (arith, h))) in
    let later = all_dead-IsKept peers (notify c.detector r) peer (ground (arith, h)) in
    (later.0 ∙ here.0, later.1 ∙ here.1)
