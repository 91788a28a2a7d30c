-- ===== src/Failure/Escalation.antt =====
-- escalateSuspectsLocked: how tick ends a suspicion.
use cinder.Prelude.{
  ℕ, ◌+◌, ◌<◌, ◌≡◌, refl, sym, ap, ◌∙◌, subst, Bool, true, false, ◌||◌, ◌&&◌, none, some, is_some,
  List, [], ◌∷◌, Bytes, Map, find, find-insert_or_assign, same_bytes, same_bytes_iff, same_bytes→eq,
  length, if◌then◌else◌, arith, Option-cases, Bool-cases, inl, inr,
}
use cinder.Membership.{
  NodeInfo, suspect, dead, MembershipTable, get, mark_suspect, mark_dead, is_suspect,
}
use cinder.Failure.{
  PeerState, Cluster, notify, timed_out, overdue, sweep, to_dead, is_overdue_suspect, is_known_dead,
  escalate_suspects, next_target, mark_all_suspect, mark_all_dead, tick, set_probe_pending,
  is_suspected,
}
use cinder.Failure.Streaks.{notify_fields}
use cinder.Failure.Silence.{pending_keeps}

abbrev pub is_listed : MembershipTable → Bytes → Bool
is_listed t id = is_some (get t id)

abbrev pub member : Bytes → List Bytes → Bool
member x [] = false
member x (y ∷ ys) = same_bytes y x || member x ys

-- A peer's state after the sweep.
abbrev swept_state : ℕ → ℕ → PeerState → PeerState
swept_state now timeout p = if timed_out now timeout p then set_probe_pending p false else p

find-sweep :
    (now timeout : ℕ) (m : Map PeerState) (peer : Bytes) (p : PeerState)
    → find m peer ≡ some p
    → find (sweep now timeout m).0 peer ≡ some (swept_state now timeout p)
unfolding sweep find
find-sweep now timeout [] peer p h = cc
find-sweep now timeout ((j, q) ∷ m) peer p h = ground (arith, h, find-sweep now timeout m peer p)

still_since : (p : PeerState) → (set_probe_pending p false).suspect_since ≡ p.suspect_since
unfolding set_probe_pending
still_since p = refl

abbrev due : ℕ → ℕ → MembershipTable → Bytes → Bool → ℕ → Bool
due now timeout t peer suspected since = suspected && elim (get t peer) [
  | none ↦ false
  | some info ↦ is_suspect info.state && overdue now since timeout
]

still_overdue :
    (now timeout : ℕ) (t : MembershipTable) (peer : Bytes) (p : PeerState)
    → is_overdue_suspect now timeout t peer (swept_state now timeout p)
      ≡ is_overdue_suspect now timeout t peer p
still_overdue now timeout t peer p = elim (Bool-cases (timed_out now timeout p)) [
  | inl late ↦
      ap (is_overdue_suspect now timeout t peer) (swept_late late)
      ∙ ap (λ b. due now timeout t peer b (set_probe_pending p false).suspect_since)
          (pending_keeps p false)
      ∙ ap (due now timeout t peer (is_suspected p)) (still_since p)
  | inr soon ↦ ap (is_overdue_suspect now timeout t peer) (swept_soon soon)
]
  where
    swept_late :
        timed_out now timeout p ≡ true → swept_state now timeout p ≡ set_probe_pending p false
    swept_late h = ap (λ b. if b then set_probe_pending p false else p) h

    swept_soon : timed_out now timeout p ≡ false → swept_state now timeout p ≡ p
    swept_soon h = ap (λ b. if b then set_probe_pending p false else p) h

member-to_dead :
    (now timeout : ℕ) (t : MembershipTable) (m : Map PeerState) (peer : Bytes) (p : PeerState)
    → find m peer ≡ some p
    → is_overdue_suspect now timeout t peer p ≡ true
    → member peer (to_dead now timeout t m) ≡ true
unfolding to_dead find
member-to_dead now timeout t [] peer p h o = cc
member-to_dead now timeout t ((j, q) ∷ m) peer p h o = elim (Bool-cases (same_bytes j peer)) [
  | inl same ↦
      let due_here : is_overdue_suspect now timeout t j q ≡ true =
        subst (λ k. is_overdue_suspect now timeout t k q ≡ true) (sym (same_bytes→eq j peer same))
          (subst (λ v. is_overdue_suspect now timeout t peer v ≡ true) (sym (found_here same h))
            o) in
      rw (due_here, same) refl
  | inr other ↦
      let later = member-to_dead now timeout t m peer p (rw (← found_later other) h) o in
      elim (Bool-cases (is_overdue_suspect now timeout t j q)) [
        | inl here ↦ rw here (rw other later)
        | inr not_here ↦ rw not_here later
      ]
]
  where
    found_here : same_bytes j peer ≡ true → find ((j, q) ∷ m) peer ≡ some p → q ≡ p
    found_here e f = ground (arith, e, f)

    found_later : same_bytes j peer ≡ false → find ((j, q) ∷ m) peer ≡ find m peer
    found_later e = ground (arith, e)

mark_dead-known :
    (t : MembershipTable) (j id : Bytes)
    → (is_listed (mark_dead t j).0 id ≡ is_listed t id)
      × (is_known_dead (mark_dead t j).0 id
          ≡ ((same_bytes j id && is_listed t id) || is_known_dead t id))
unfolding get mark_dead
mark_dead-known t j id = elim (Option-cases (find t.nodes j)) [
  | inl e ↦ ground (arith, e, same_bytes_iff j id)
  | inr (info, e) ↦ ground (
    arith,
    e,
    same_bytes_iff j id,
    find-insert_or_assign t.nodes j id (record info { state = dead }),
  )
]

mark_suspect-listed :
    (t : MembershipTable) (j id : Bytes) → is_listed (mark_suspect t j).0 id ≡ is_listed t id
unfolding get mark_suspect
mark_suspect-listed t j id = elim (Option-cases (find t.nodes j)) [
  | inl e ↦ ground (arith, e)
  | inr (info, e) ↦ ground (
    arith,
    e,
    same_bytes_iff j id,
    find-insert_or_assign t.nodes j id (record info { state = suspect }),
  )
]

pub all_suspect-listed :
    (peers : List Bytes) (c : Cluster) (id : Bytes)
    → is_listed (mark_all_suspect c peers).table id ≡ is_listed c.table id
unfolding mark_all_suspect
all_suspect-listed [] c id = refl
all_suspect-listed (j ∷ peers) c id =
    all_suspect-listed peers (notify c.detector (mark_suspect c.table j)) id
    ∙ ap (λ t. is_listed t id) (notify_fields c.detector (mark_suspect c.table j)).1
    ∙ mark_suspect-listed c.table j id

pub all_dead-known :
    (peers : List Bytes) (c : Cluster) (id : Bytes)
    → is_known_dead (mark_all_dead c peers).table id
      ≡ ((member id peers && is_listed c.table id) || is_known_dead c.table id)
unfolding mark_all_dead
all_dead-known [] c id = refl
all_dead-known (j ∷ peers) c id =
    let r = mark_dead c.table j in
    let later = all_dead-known peers (notify c.detector r) id in
    let same_table = (notify_fields c.detector r).1 in
    let (listed, known) = mark_dead-known c.table j id in
    ground (
      arith,
      later ∙ ap (λ t. (member id peers && is_listed t id) || is_known_dead t id) same_table,
      listed,
      known,
    )

-- A peer whose suspicion, from a failed probe, is older than the time-out and that the table holds for
-- suspect, is dead in the table after the next tick, whatever else that tick finds.
pub suspicion_ends :
    (now : ℕ) (c : Cluster) (peer : Bytes) (p : PeerState) (info : NodeInfo)
    → find c.detector.peer_state peer ≡ some p
    → is_suspected p ≡ true
    → p.suspect_since + c.detector.suspect_timeout < now
    → get c.table peer ≡ some info
    → info.state ≡ suspect
    → is_known_dead (tick now c).0.table peer ≡ true
unfolding tick escalate_suspects
suspicion_ends now c peer p info f s late g e =
    let d = c.detector in
    let swept = (sweep now d.suspect_timeout d.peer_state).0 in
    let timed = (sweep now d.suspect_timeout d.peer_state).1 in
    let killed = to_dead now d.suspect_timeout c.table swept in
    let overdue_peer : is_overdue_suspect now d.suspect_timeout c.table peer p ≡ true =
      ground (arith, s, late, g, e) in
    let chosen : member peer killed ≡ true =
      member-to_dead now d.suspect_timeout c.table swept peer (swept_state now d.suspect_timeout p)
        (find-sweep now d.suspect_timeout d.peer_state peer p f)
        (still_overdue now d.suspect_timeout c.table peer p ∙ overdue_peer) in
    let escalated = (escalate_suspects now (record d { peer_state = swept }) c.table).0 in
    let probing = (next_target (length d.peers) now escalated c.table).0 in
    let marked = mark_all_suspect (record c { detector = probing }) timed in
    let listed : is_listed marked.table peer ≡ true =
      all_suspect-listed timed (record c { detector = probing }) peer ∙ ap is_some g in
    all_dead-known killed marked peer
    ∙ ap (λ b. (b && is_listed marked.table peer) || is_known_dead marked.table peer) chosen
    ∙ ap (λ b. b || is_known_dead marked.table peer) listed
