-- ===== src/Failure/Runs.antt =====
-- Runs of the failure detector, of ticks and of results of probes of any peers, in any order.
use cinder.Prelude.{
  ℕ, suc, ◌≡◌, refl, sym, ap, ◌∙◌, subst, Bool, true, false, none, some, List, [], ◌∷◌, Bytes, Map,
  find, same_bytes, same_bytes→eq, length, ltb, if◌then◌else◌, arith, Bool-cases, Option-cases, inl,
  inr,
}
use cinder.Membership.{NodeInfo, get, mark_suspect, mark_alive}
use cinder.Failure.{
  PeerState, Cluster, assign, sweep, to_dead, clear_suspected, escalate_suspects, next_target,
  mark_all_suspect, tick, on_probe_result, note_result, suspect_threshold,
}
use cinder.Failure.Streaks.{find-assign, IsStreak, answered, failed}
use cinder.Failure.Escalation.{member}
use cinder.Failure.Spared.{
  count_for, find-sweep_spared, find-clear_spared, count-next_target, IsKept, notify-IsKept,
  all_suspect-IsKept, all_dead-IsKept, get-mark_suspect_other, get-mark_alive_other,
}

pub data Step : Type 0 where
  ticked : ℕ → Step
  reported : ℕ → Bytes → Bool → Step

abbrev pub step : Step → Cluster → Cluster
step (ticked now) c = (tick now c).0
step (reported now j acked) c = on_probe_result now c j acked

abbrev pub run : List Step → Cluster → Cluster
run [] c = c
run (s ∷ steps) c = run steps (step s c)

-- A tick neither times the peer's probe out nor ends its suspicion.
abbrev pub IsSpared : Bytes → Step → Cluster → Type 0
IsSpared peer (reported now j acked) c = Unit {0}
IsSpared peer (ticked now) c =
    let d = c.detector in
    let (swept, late) = sweep now d.suspect_timeout d.peer_state in
    (member peer late ≡ false)
    × (member peer (escalate_suspects now (record d { peer_state = swept }) c.table).1 ≡ false)

abbrev pub AllSpared : Bytes → List Step → Cluster → Type 0
AllSpared peer [] c = Unit {0}
AllSpared peer (s ∷ steps) c = IsSpared peer s c × AllSpared peer steps (step s c)

-- The failed probes of the peer since its last answer, of which there were `failures` before the steps.
abbrev pub failures_after : Bytes → ℕ → List Step → ℕ
failures_after peer failures [] = failures
failures_after peer failures (ticked now ∷ steps) = failures_after peer failures steps
failures_after peer failures (reported now j acked ∷ steps) =
    failures_after peer
      (if same_bytes j peer then (if acked then 0 else suc failures) else failures) steps

count-IsStreak :
    (failures : ℕ) (c : Cluster) (peer : Bytes)
    → IsStreak failures c peer
    → count_for c.detector.peer_state peer ≡ some failures
count-IsStreak failures c peer s = rw (s.found, count_for) (ap some s.counted)

kept-IsStreak :
    (failures : ℕ) (c c' : Cluster) (peer : Bytes)
    → IsStreak failures c peer
    → count_for c'.detector.peer_state peer ≡ some failures
    → get c'.table peer ≡ get c.table peer
    → IsStreak failures c' peer
kept-IsStreak failures c c' peer s count same =
    elim (Option-cases (find c'.detector.peer_state peer)) [
      | inl e ↦ absurd (ground (arith, e, count))
      | inr (p, e) ↦ record {
        known = p;
        found = e;
        counted = ground (arith, e, count);
        info = s.info;
        listed = same ∙ s.listed;
        stated = s.stated;
      }
    ]

tick-IsStreak :
    (now failures : ℕ) (c : Cluster) (peer : Bytes)
    → IsStreak failures c peer
    → IsSpared peer (ticked now) c
    → IsStreak failures (tick now c).0 peer
unfolding tick escalate_suspects
tick-IsStreak now failures c peer s (in_time, not_due) =
    let d = c.detector in
    let swept = (sweep now d.suspect_timeout d.peer_state).0 in
    let late = (sweep now d.suspect_timeout d.peer_state).1 in
    let dead = to_dead now d.suspect_timeout c.table swept in
    let escalated = record d { peer_state = clear_suspected swept dead } in
    let probing = (next_target (length d.peers) now escalated c.table).0 in
    let found : find escalated.peer_state peer ≡ find d.peer_state peer =
      find-clear_spared dead swept peer not_due
      ∙ find-sweep_spared now d.suspect_timeout d.peer_state peer in_time in
    let count : count_for escalated.peer_state peer ≡ some failures =
      rw (found, count_for) (count-IsStreak failures c peer s) in
    let sent = count-next_target (length d.peers) now escalated c.table peer failures count in
    let probed : Cluster = record c { detector = probing } in
    let suspected = all_suspect-IsKept late probed peer in_time in
    let killed = all_dead-IsKept dead (mark_all_suspect probed late) peer not_due in
    kept-IsStreak failures c (tick now c).0 peer s (killed.0 ∙ suspected.0 ∙ sent)
      (killed.1 ∙ suspected.1)

noted_other :
    (m : Map PeerState) (j peer : Bytes) (v : PeerState)
    → same_bytes j peer ≡ false
    → count_for (assign m j v) peer ≡ count_for m peer
noted_other m j peer v h = ground (arith, h, find-assign m j peer v)

other-IsKept :
    (now : ℕ) (c : Cluster) (j peer : Bytes) (acked : Bool)
    → same_bytes j peer ≡ false
    → IsKept peer c (on_probe_result now c j acked)
unfolding on_probe_result
other-IsKept now c j peer true h = elim (Option-cases (find c.detector.peer_state j)) [
  | inl e ↦ rw (e, on_probe_result) (refl, refl)
  | inr (p, e) ↦
      let m = assign c.detector.peer_state j (note_result now true p) in
      let incarnation : ℕ = elim (get c.table j) [ none ↦ 0 | some info ↦ info.incarnation ] in
      rw (e, on_probe_result)
        (notify-IsKept c (record (c.detector) { peer_state = m })
          (mark_alive now c.table j incarnation) peer
          (noted_other c.detector.peer_state j peer (note_result now true p) h)
          (get-mark_alive_other now c.table j peer incarnation h))
]
other-IsKept now c j peer false h = elim (Option-cases (find c.detector.peer_state j)) [
  | inl e ↦ rw (e, on_probe_result) (refl, refl)
  | inr (p, e) ↦
      let noted = note_result now false p in
      let m = assign c.detector.peer_state j noted in
      let same = noted_other c.detector.peer_state j peer noted h in
      elim (Bool-cases (ltb noted.consecutive_failures suspect_threshold)) [
        | inl few ↦ rw (e, on_probe_result) (rw few (same, refl))
        | inr many ↦
            rw (e, on_probe_result)
              (rw many (
                notify-IsKept c (record (c.detector) { peer_state = m }) (mark_suspect c.table j)
                  peer same (get-mark_suspect_other c.table j peer h)))
      ]
]

step-IsStreak :
    (s : Step) (failures : ℕ) (c : Cluster) (peer : Bytes)
    → IsStreak failures c peer
    → IsSpared peer s c
    → IsStreak (failures_after peer failures (s ∷ [])) (step s c) peer
step-IsStreak (ticked now) failures c peer k spared = tick-IsStreak now failures c peer k spared
step-IsStreak (reported now j acked) failures c peer k spared =
    elim (Bool-cases (same_bytes j peer)) [
      | inr other ↦
          let kept = other-IsKept now c j peer acked other in
          rw other (
            kept-IsStreak failures c (on_probe_result now c j acked) peer k
              (kept.0 ∙ count-IsStreak failures c peer k) kept.1)
      | inl same ↦ rw same (
          subst
            (λ (i : Bytes).
              IsStreak (if acked then 0 else suc failures) (on_probe_result now c i acked) peer)
            (sym (same_bytes→eq j peer same)) (own acked))
    ]
  where
    own : (b : Bool) → IsStreak (if b then 0 else suc failures) (on_probe_result now c peer b) peer
    own true = answered now c peer k.known k.info k.found k.listed
    own false = failed now failures c peer k

kept_up :
    (steps : List Step) (failures : ℕ) (c : Cluster) (peer : Bytes)
    → IsStreak failures c peer
    → AllSpared peer steps c
    → IsStreak (failures_after peer failures steps) (run steps c) peer
kept_up [] failures c peer k spared = k
kept_up (ticked now ∷ steps) failures c peer k spared =
    kept_up steps failures (tick now c).0 peer
      (step-IsStreak (ticked now) failures c peer k spared.0) spared.1
kept_up (reported now j acked ∷ steps) failures c peer k spared =
    kept_up steps (failures_after peer failures (reported now j acked ∷ []))
      (on_probe_result now c j acked) peer
      (step-IsStreak (reported now j acked) failures c peer k tt) spared.1

-- Once a peer that the detector knows and the table lists has answered a probe, then after every sequence
-- of ticks and of results of probes of any peers, in which no tick times the peer's own probe out or ends
-- its suspicion: the detector counts for the peer exactly the probes of it that failed since its last
-- answer, and the table holds it for alive if these are none or one, and for suspect if they are more.
pub run-IsStreak :
    (now : ℕ) (steps : List Step) (c : Cluster) (peer : Bytes) (p : PeerState) (info : NodeInfo)
    → find c.detector.peer_state peer ≡ some p
    → get c.table peer ≡ some info
    → AllSpared peer steps (on_probe_result now c peer true)
    → IsStreak (failures_after peer 0 steps) (run steps (on_probe_result now c peer true)) peer
run-IsStreak now steps c peer p info f g spared =
    kept_up steps 0 (on_probe_result now c peer true) peer (answered now c peer p info f g) spared
