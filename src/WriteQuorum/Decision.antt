-- ===== src/WriteQuorum/Decision.antt =====
-- A whole quorum write: the decision and the hints, for every sequence of reports.
use mathlib.Core.List.{append_assoc, append-nil}
use cinder.Prelude.{
  ℕ, suc, ◌+◌, ◌-◌, ◌*◌, ◌^◌, ◌<◌, ◌≡◌, refl, sym, ap, ◌∙◌, subst, Bool, true, false, not, ◌&&◌,
  List, [], ◌∷◌, ◌++◌, length, length-append, ltb, leb, ◌==◌, if◌then◌else◌, arith, Bool-cases, inl,
  inr,
}
use cinder.Status.{Result, ok, err}
use cinder.Lww.{bit}
use cinder.Buffer.Lists.{Each}
use cinder.Ring.{seen_before}
use cinder.Ring.Walk.{Different, Different-append}
use cinder.Ring.Replicas.{Each-append}
use cinder.WriteQuorum.{
  WriteQuorum, start, receive, report, drain, fan_out_write, quorum_not_reached,
}
use cinder.WriteQuorum.Verdict.{IsAt, verdict, start-IsAt, receive-IsAt, fields-receive}
use cinder.WriteQuorum.Targets.{at_most}

-- The first report of each target, in order; `seen` are the targets before.
abbrev pub firsts : ℕ → List ℕ → List (ℕ × Bool) → List (ℕ × Bool)
firsts n seen [] = []
firsts n seen ((i, good) ∷ reports) =
    if ltb i n && not (seen_before i seen)
    then (i, good) ∷ firsts n (seen ++ (i ∷ [])) reports
    else firsts n seen reports

abbrev pub successes : List (ℕ × Bool) → ℕ
successes [] = 0
successes ((i, good) ∷ fs) = bit good + successes fs

abbrev pub failed : List (ℕ × Bool) → List ℕ
failed [] = []
failed ((i, true) ∷ fs) = failed fs
failed ((i, false) ∷ fs) = i ∷ failed fs

record IsDraining (n s : ℕ) (q : WriteQuorum) : Type 0 where
  position : IsAt n (length q.delivered) s q
  different : Different q.delivered
  targets : Each (λ i. i < n) q.delivered

start-IsDraining : (n : ℕ) → 0 < n → n < 2 ^ 64 → IsDraining n 0 (start n)
unfolding start
start-IsDraining n h k = record { position = start-IsAt n h k; different = tt; targets = tt }

abbrev AreTargets : ℕ → List ℕ → Type 0
AreTargets n is = Different is × Each (λ i. i < n) is

abbrev marked : WriteQuorum → ℕ → WriteQuorum
marked q i = record q { delivered = q.delivered ++ (i ∷ []) }

room :
    (n s i : ℕ) (q : WriteQuorum)
    → IsDraining n s q
    → (ltb i n && not (seen_before i q.delivered)) ≡ true
    → (length q.delivered < n) × AreTargets n (q.delivered ++ (i ∷ []))
room n s i q w h =
    let new : seen_before i q.delivered ≡ false = ground (arith, h) in
    let below : i < n = ground (arith, h) in
    let apart = Different-append i q.delivered w.different new in
    let all = Each-append (λ j. j < n) q.delivered (i ∷ []) w.targets (below, tt) in
    (
      omega (
        arith,
        at_most n (q.delivered ++ (i ∷ [])) apart all,
        length-append q.delivered (i ∷ []),
      ),
      (apart, all),
    )

received :
    (n s i : ℕ) (good : Bool) (q : WriteQuorum)
    → IsDraining n s q
    → (ltb i n && not (seen_before i q.delivered)) ≡ true
    → IsDraining n (s + bit good) (receive (marked q i) i good)
received n s i good q w h =
    let (less, (apart, all)) = room n s i q w h in
    let kept : (receive (marked q i) i good).delivered ≡ q.delivered ++ (i ∷ []) =
      (fields-receive i good (marked q i)).3 in
    let at_marked : IsAt n (length q.delivered) s (marked q i) = record {
      count = w.position.count;
      needed = w.position.needed;
      seen = w.position.seen;
      pending = w.position.pending;
      bounded = w.position.bounded;
      small = w.position.small;
      plain = w.position.plain;
      acks = w.position.acks;
      decided = w.position.decided;
      fired = w.position.fired;
    } in
    record {
      position =
          subst (λ (k : ℕ). IsAt n k (s + bit good) (receive (marked q i) i good))
            (omega (arith, ap length kept, length-append q.delivered (i ∷ [])))
            (receive-IsAt n (length q.delivered) s i good (marked q i) at_marked less);
      different = subst Different (sym kept) apart;
      targets = subst (Each (λ j. j < n)) (sym kept) all;
    }

-- What a report does.
report_first :
    (n s i : ℕ) (good : Bool) (q : WriteQuorum)
    → IsDraining n s q
    → (ltb i n && not (seen_before i q.delivered)) ≡ true
    → report q i good ≡ receive (marked q i) i good
unfolding report
report_first n s i good q w h =
    let test : (ltb i q.replicas && not (seen_before i q.delivered)) ≡ true =
      ap (λ (m : ℕ). ltb i m && not (seen_before i q.delivered)) w.position.count ∙ h in
    let open_still : ltb q.seen q.replicas ≡ true =
      ground (arith, w.position.seen, w.position.count, (room n s i q w h).0) in
    rw test (rw open_still refl)

report_again :
    (n s i : ℕ) (good : Bool) (q : WriteQuorum)
    → IsDraining n s q
    → (ltb i n && not (seen_before i q.delivered)) ≡ false
    → report q i good ≡ q
unfolding report
report_again n s i good q w h =
    let test : (ltb i q.replicas && not (seen_before i q.delivered)) ≡ false =
      ap (λ (m : ℕ). ltb i m && not (seen_before i q.delivered)) w.position.count ∙ h in
    rw test refl

-- The end of a run, from what it has drained and what it received before.
abbrev Ends : ℕ → ℕ → List ℕ → List ℕ → List (ℕ × Bool) → WriteQuorum → Type 0
Ends n s seen hints fs q =
    IsAt n (length seen + length fs) (s + successes fs) q × (q.hints ≡ hints ++ failed fs)

Ends-first :
    (n s i : ℕ) (good : Bool) (seen hints : List ℕ) (fs : List (ℕ × Bool)) (q : WriteQuorum)
    → Ends n (s + bit good) (seen ++ (i ∷ [])) (if good then hints else hints ++ (i ∷ [])) fs q
    → Ends n s seen hints ((i, good) ∷ fs) q
Ends-first n s i good seen hints fs q (at_end, h) =
    (subst (λ (m : ℕ × ℕ). IsAt n m.0 m.1 q) (λ k. (longer k, more k)) at_end, h ∙ hinted good)
  where
    longer : length (seen ++ (i ∷ [])) + length fs ≡ length seen + suc (length fs)
    longer = omega (arith, length-append seen (i ∷ []))

    more : s + bit good + successes fs ≡ s + (bit good + successes fs)
    more = omega arith

    hinted :
        (g : Bool)
        → (if g then hints else hints ++ (i ∷ [])) ++ failed fs ≡ hints ++ failed ((i, g) ∷ fs)
    hinted true = refl
    hinted false = append_assoc hints (i ∷ []) (failed fs)

drain_all :
    (reports : List (ℕ × Bool)) (n s : ℕ) (q : WriteQuorum) (seen hints : List ℕ)
    → IsDraining n s q
    → q.delivered ≡ seen
    → q.hints ≡ hints
    → Ends n s seen hints (firsts n seen reports) (drain q reports)
unfolding drain
drain_all [] n s q seen hints w d e = (
  subst (λ (m : ℕ × ℕ). IsAt n m.0 m.1 q) (λ k. (count k, plain k)) w.position,
  e ∙ sym (append-nil hints),
)
  where
    count : length q.delivered ≡ length seen + 0
    count = omega (arith, ap length d)

    plain : s ≡ s + 0
    plain = omega arith
drain_all ((i, good) ∷ reports) n s q seen hints w d e =
    elim (Bool-cases (ltb i n && not (seen_before i seen))) [
      | inl new ↦
          let test : (ltb i n && not (seen_before i q.delivered)) ≡ true =
            ap (λ is. ltb i n && not (seen_before i is)) d ∙ new in
          rw (new, firsts)
            (Ends-first n s i good seen hints (firsts n (seen ++ (i ∷ [])) reports) _ (
              subst
                (λ r.
                  Ends n (s + bit good) (seen ++ (i ∷ []))
                    (if good then hints else hints ++ (i ∷ []))
                    (firsts n (seen ++ (i ∷ [])) reports) (drain r reports))
                (sym (report_first n s i good q w test))
                (drain_all reports n (s + bit good) (receive (marked q i) i good) (seen ++ (i ∷ []))
                  _ (received n s i good q w test)
                  ((fields-receive i good (marked q i)).3 ∙ ap (λ is. is ++ (i ∷ [])) d)
                  ((fields-receive i good (marked q i)).4
                    ∙ ap (λ hs. if good then hs else hs ++ (i ∷ [])) e))))
      | inr old ↦
          let test : (ltb i n && not (seen_before i q.delivered)) ≡ false =
            ap (λ is. ltb i n && not (seen_before i is)) d ∙ old in
          rw (old, firsts)
            (subst (λ r. Ends n s seen hints (firsts n seen reports) (drain r reports))
              (sym (report_again n s i good q w test)) (drain_all reports n s q seen hints w d e))
    ]

-- With the local node there are n + 1 nodes, and 1 + good of them have the write.
abbrev pub outcome : ℕ → ℕ → ℕ → List (Result (Unit {0}))
outcome n good missing =
    if ltb (n + 1) (2 * (1 + good))
    then ok tt ∷ []
    else if leb (2 * (1 + good + missing)) (n + 1)
    then err quorum_not_reached ∷ []
    else []

verdict-outcome : (n good missing : ℕ) → verdict n good missing ≡ outcome n good missing
verdict-outcome n good missing = ground arith

no_targets : (n : ℕ) → (start n).delivered ≡ []
unfolding start
no_targets n = refl

no_hints : (n : ℕ) → (start n).hints ≡ []
unfolding start
no_hints n = refl

-- For every number of replicas from 1 and every sequence of reports, of any targets and with
-- repetitions, with good reports counted over the first report of each target: on_done has been called
-- once with ok if strictly more than half of all nodes, the local one included, have the write, once with
-- NotReady if they cannot any more, and has not been called otherwise; enqueueHint has been called
-- exactly for the targets whose first report is a failure, in their order, also after the decision.
pub write_decision :
    (n : ℕ) (reports : List (ℕ × Bool))
    → 0 < n
    → n < 2 ^ 64
    → ((fan_out_write n reports).decisions
        ≡ outcome n (successes (firsts n [] reports)) (n - length (firsts n [] reports)))
      × ((fan_out_write n reports).hints ≡ failed (firsts n [] reports))
unfolding fan_out_write
write_decision n reports h k =
    let plain : (n == 0) ≡ false = ground (arith, h) in
    let (at_end, hints) =
      drain_all reports n 0 (start n) [] [] (start-IsDraining n h k) (no_targets n) (no_hints n) in
    let fs = firsts n [] reports in
    let good : 0 + successes fs ≡ successes fs = omega arith in
    let missing : n - (0 + length fs) ≡ n - length fs = omega arith in
    rw plain (at_end.decided ∙ (λ k. verdict n (good k) (missing k)) ∙ verdict-outcome n _ _, hints)
