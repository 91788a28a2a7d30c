-- ===== src/Failure/Streaks.antt =====
-- onProbeResult for a peer: the streak of failed probes, and the state that it gives it in the table.
use cinder.Prelude.{
  ℕ, suc, ◌+◌, ◌≡◌, refl, ap, ◌∙◌, Bool, true, false, not, ◌||◌, some, [], ◌∷◌, Bytes, Map, find,
  find-insert_or_assign, same_bytes, same_bytes_refl, same_bytes_iff, ltb, if◌then◌else◌, arith,
  Bool-cases, inl, inr,
}
use cinder.Membership.{
  NodeInfo, NodeState, alive, suspect, MembershipTable, get, mark_suspect, mark_alive, is_dead,
  is_suspect, is_alive,
}
use cinder.Failure.{
  PeerState, Detector, Cluster, assign, notify, note_result, on_probe_result, suspect_threshold,
  set_probe_pending, set_suspected, rebuild_peers,
}

pub find-assign :
    (m : Map PeerState) (k j : Bytes) (v : PeerState)
    → find (assign m k v) j ≡ (if same_bytes k j then some v else find m j)
unfolding find assign
find-assign [] k j v = refl
find-assign ((i, w) ∷ m) k j v =
    ground (arith, same_bytes_iff k j, same_bytes_iff i k, same_bytes_iff i j, find-assign m k j v)

-- What a streak of failures makes of an alive peer.
abbrev pub state_after : ℕ → NodeState
state_after failures = if ltb failures 2 then alive else suspect

-- The detector counts `failures` failures of the peer in a row, and the table holds it accordingly: for
-- alive up to one failure, and for suspect from the second on.
pub record IsStreak (failures : ℕ) (c : Cluster) (peer : Bytes) : Type 0 where
  pub known : PeerState
  pub found : find c.detector.peer_state peer ≡ some known
  pub counted : known.consecutive_failures ≡ failures
  pub info : NodeInfo
  pub listed : get c.table peer ≡ some info
  pub stated : info.state ≡ state_after failures

pub notify_fields :
    (d : Detector) (r : MembershipTable × Bool)
    → ((notify d r).detector.peer_state ≡ d.peer_state) × ((notify d r).table ≡ r.0)
unfolding notify rebuild_peers
notify_fields d (t, changed) = ground arith

note_failure :
    (now : ℕ) (p : PeerState)
    → (note_result now false p).consecutive_failures ≡ p.consecutive_failures + 1
unfolding note_result set_probe_pending set_suspected
note_failure now p = ground arith

note_ack : (now : ℕ) (p : PeerState) → (note_result now true p).consecutive_failures ≡ 0
unfolding note_result
note_ack now p = refl

get-mark_suspect :
    (t : MembershipTable) (id : Bytes) (info : NodeInfo)
    → get t id ≡ some info
    → get (mark_suspect t id).0 id
      ≡ some (
          if is_dead info.state || is_suspect info.state
          then info
          else record info { state = suspect })
unfolding get mark_suspect
get-mark_suspect t id info h = ground (
  arith,
  h,
  find-insert_or_assign t.nodes id id (record info { state = suspect }),
  same_bytes_refl id,
)

revived : ℕ → NodeInfo → NodeInfo
revived now info = record info {
  joined_at = if not (is_alive info.state) then now else info.joined_at;
  state = alive;
}

get-mark_alive :
    (now : ℕ) (t : MembershipTable) (id : Bytes) (info : NodeInfo)
    → get t id ≡ some info
    → get (mark_alive now t id info.incarnation).0 id ≡ some (revived now info)
unfolding get mark_alive revived
get-mark_alive now t id info h =
    ground (arith, h, find-insert_or_assign t.nodes id id (revived now info), same_bytes_refl id)

pub answered :
    (now : ℕ) (c : Cluster) (peer : Bytes) (p : PeerState) (info : NodeInfo)
    → find c.detector.peer_state peer ≡ some p
    → get c.table peer ≡ some info
    → IsStreak 0 (on_probe_result now c peer true) peer
unfolding on_probe_result revived
answered now c peer p info f g =
    let noted = note_result now true p in
    let m = assign c.detector.peer_state peer noted in
    let d = record (c.detector) { peer_state = m } in
    let r = mark_alive now c.table peer info.incarnation in
    let (same_peers, same_table) = notify_fields d r in
    rw (f, on_probe_result)
      (rw g (record {
        known = noted;
        found =
            ap (λ (m : Map PeerState). find m peer) same_peers
            ∙ find-assign c.detector.peer_state peer peer noted
            ∙ rw (same_bytes_refl peer) refl;
        counted = note_ack now p;
        info = revived now info;
        listed =
            ap (λ (t : MembershipTable). get t peer) same_table
            ∙ get-mark_alive now c.table peer info g;
        stated = refl;
      }))

noted_failure : (now : ℕ) (c : Cluster) (peer : Bytes) (p : PeerState) → Detector
noted_failure now c peer p = record (c.detector) {
  peer_state = assign c.detector.peer_state peer (note_result now false p);
}

pub failed :
    (now failures : ℕ) (c : Cluster) (peer : Bytes)
    → IsStreak failures c peer
    → IsStreak (suc failures) (on_probe_result now c peer false) peer
unfolding on_probe_result noted_failure
failed now failures c peer s =
    let noted = note_result now false s.known in
    let d = noted_failure now c peer s.known in
    let count : noted.consecutive_failures ≡ suc failures =
      note_failure now s.known ∙ omega (arith, s.counted) in
    let here : find d.peer_state peer ≡ some noted =
      find-assign c.detector.peer_state peer peer noted ∙ rw (same_bytes_refl peer) refl in
    elim (Bool-cases (ltb noted.consecutive_failures suspect_threshold)) [
      | inl few ↦
          rw (s.found, on_probe_result)
            (rw few (record {
              known = noted;
              found = here;
              counted = count;
              info = s.info;
              listed = s.listed;
              stated = s.stated ∙ ground (arith, few, count);
            }))
      | inr many ↦
          let r = mark_suspect c.table peer in
          let (same_peers, same_table) = notify_fields d r in
          let i : NodeInfo =
            if is_dead s.info.state || is_suspect s.info.state
            then s.info
            else record (s.info) { state = suspect } in
          rw (s.found, on_probe_result)
            (rw many (record {
              known = noted;
              found = ap (λ (m : Map PeerState). find m peer) same_peers ∙ here;
              counted = count;
              info = i;
              listed =
                  ap (λ (t : MembershipTable). get t peer) same_table
                  ∙ get-mark_suspect c.table peer s.info s.listed;
              stated = ground (arith, many, count, s.stated);
            }))
    ]
