-- ===== src/WriteQuorum/Verdict.antt =====
-- What a quorum write decides, and when.
use cinder.Prelude.{
  ℕ, ◌+◌, ◌-◌, ◌^◌, ◌<◌, ◌≤◌, ◌≡◌, refl, sym, ap, ◌∙◌, Bool, true, false, not, ◌&&◌, ◌||◌, List, [],
  ◌∷◌, ◌++◌, length, ltb, leb, ◌==◌, if◌then◌else◌, arith,
}
use cinder.Status.{Result, ok, err}
use cinder.Lww.{bit}
use cinder.WriteQuorum.{
  WriteQuorum, majority, start, on_each, should_fire, fire, receive, quorum_not_reached,
}

-- From the number of successes and of targets without a report: a decision as soon as one of the two
-- answers is certain.
abbrev verdict_for : ℕ → ℕ → ℕ → List (Result (Unit {0}))
verdict_for m successes missing =
    if leb m (1 + successes)
    then ok tt ∷ []
    else if ltb (1 + successes + missing) m
    then err quorum_not_reached ∷ []
    else []

abbrev pub verdict : ℕ → ℕ → ℕ → List (Result (Unit {0}))
verdict replicas successes missing = verdict_for (majority replicas) successes missing

-- The state after `received` reports, of which `successes` were good.
pub record IsAt (replicas received successes : ℕ) (q : WriteQuorum) : Type 0 where
  pub count : q.replicas ≡ replicas
  pub needed : q.w ≡ majority replicas
  pub seen : q.seen ≡ received
  pub pending : q.pending ≡ replicas - received
  pub bounded : received ≤ replicas
  pub small : replicas < 2 ^ 64
  pub plain : successes ≤ received
  pub acks : q.fired ≡ false → q.acks ≡ 1 + successes
  pub decided : q.decisions ≡ verdict replicas successes (replicas - received)
  pub fired : q.fired ≡ not (length (verdict replicas successes (replicas - received)) == 0)

pub start-IsAt :
    (replicas : ℕ) → 0 < replicas → replicas < 2 ^ 64 → IsAt replicas 0 0 (start replicas)
unfolding start
start-IsAt replicas h k = record {
  count = refl;
  needed = refl;
  seen = refl;
  pending = omega arith;
  bounded = omega arith;
  small = k;
  plain = omega arith;
  acks = λ e. omega arith;
  decided = ground (arith, h);
  fired = ground (arith, h);
}

-- The fields after a turn.
received_acks : WriteQuorum → Bool → ℕ
received_acks q succeeded = if q.fired then q.acks else q.acks + bit succeeded

pending-receive :
    (i : ℕ) (succeeded : Bool) (q : WriteQuorum)
    → 0 < q.pending
    → q.pending < 2 ^ 64
    → (receive q i succeeded).pending ≡ q.pending - 1
unfolding receive on_each should_fire fire
pending-receive i succeeded q h k = ground (arith, h, k)

acks-receive :
    (i : ℕ) (succeeded : Bool) (q : WriteQuorum)
    → (receive q i succeeded).acks ≡ received_acks q succeeded
unfolding receive on_each should_fire fire received_acks
acks-receive i true q = ground arith
acks-receive i false q = ground arith

-- Whether a turn decides.
decides : ℕ → ℕ → ℕ → Bool
decides w acks pending = leb w acks || (pending == 0 || ltb (acks + pending) w)

fired-receive :
    (i : ℕ) (succeeded : Bool) (q : WriteQuorum)
    → 0 < q.pending
    → q.pending < 2 ^ 64
    → (receive q i succeeded).fired
      ≡ (q.fired || decides q.w (received_acks q succeeded) (q.pending - 1))
unfolding receive on_each should_fire fire received_acks decides
fired-receive i true q h k = ground (arith, h, k)
fired-receive i false q h k = ground (arith, h, k)

decisions-receive :
    (i : ℕ) (succeeded : Bool) (q : WriteQuorum)
    → 0 < q.pending
    → q.pending < 2 ^ 64
    → (receive q i succeeded).decisions ≡ (
        if not q.fired && decides q.w (received_acks q succeeded) (q.pending - 1)
        then q.decisions
          ++ ((if leb q.w (received_acks q succeeded) then ok tt else err quorum_not_reached) ∷ [])
        else q.decisions)
unfolding receive on_each should_fire fire received_acks decides
decisions-receive i true q h k = ground (arith, h, k)
decisions-receive i false q h k = ground (arith, h, k)

verdict_stays :
    (m s missing b : ℕ)
    → 0 < missing
    → b ≤ 1
    → (length (verdict_for m s missing) == 0) ≡ false
    → verdict_for m (s + b) (missing - 1) ≡ verdict_for m s missing
verdict_stays m s missing b h k e = ground (arith, h, k, e)

verdict_comes :
    (m s missing b : ℕ)
    → 0 < missing
    → b ≤ 1
    → (length (verdict_for m s missing) == 0) ≡ true
    → verdict_for m (s + b) (missing - 1) ≡ (
        if decides m (1 + (s + b)) (missing - 1)
        then (if leb m (1 + (s + b)) then ok tt else err quorum_not_reached) ∷ []
        else [])
unfolding decides
verdict_comes m s missing b h k e = ground (arith, h, k, e)

pub fields-receive :
    (i : ℕ) (succeeded : Bool) (q : WriteQuorum)
    → ((receive q i succeeded).replicas ≡ q.replicas)
      × ((receive q i succeeded).w ≡ q.w)
      × ((receive q i succeeded).seen ≡ q.seen + 1)
      × ((receive q i succeeded).delivered ≡ q.delivered)
      × ((receive q i succeeded).hints ≡ (if succeeded then q.hints else q.hints ++ (i ∷ [])))
unfolding receive on_each should_fire fire
fields-receive i true q = (ground arith, ground arith, ground arith, ground arith, ground arith)
fields-receive i false q = (ground arith, ground arith, ground arith, ground arith, ground arith)

or_left : (a b : Bool) → (a || b) ≡ false → a ≡ false
or_left a b h = ground (arith, h)

bit_le : (b : Bool) → bit b ≤ 1
bit_le true = omega arith
bit_le false = omega arith

-- One turn on the numbers: the decisions and the flag follow the verdict.
turn_decisions :
    (m s missing b acks : ℕ) (fired : Bool) (decisions : List (Result (Unit {0})))
    → 0 < missing
    → b ≤ 1
    → decisions ≡ verdict_for m s missing
    → fired ≡ not (length (verdict_for m s missing) == 0)
    → (fired ≡ false → acks ≡ 1 + s)
    → (if not fired && decides m (if fired then acks else acks + b) (missing - 1)
        then decisions
          ++ ((if leb m (if fired then acks else acks + b) then ok tt else err quorum_not_reached)
              ∷ [])
        else decisions)
      ≡ verdict_for m (s + b) (missing - 1)
unfolding decides
turn_decisions m s missing b acks true decisions h k d f c =
    d ∙ sym (verdict_stays m s missing b h k (ground (arith, f)))
turn_decisions m s missing b acks false decisions h k d f c = rw d (ground (arith, h, k, f, c refl))

turn_fired :
    (m s missing b acks : ℕ) (fired : Bool)
    → 0 < missing
    → b ≤ 1
    → fired ≡ not (length (verdict_for m s missing) == 0)
    → (fired ≡ false → acks ≡ 1 + s)
    → (fired || decides m (if fired then acks else acks + b) (missing - 1))
      ≡ not (length (verdict_for m (s + b) (missing - 1)) == 0)
unfolding decides
turn_fired m s missing b acks true h k f c =
    f
    ∙ ap (λ (d : List (Result (Unit {0}))). not (length d == 0))
        (sym (verdict_stays m s missing b h k (ground (arith, f))))
turn_fired m s missing b acks false h k f c = ground (arith, h, k, f, c refl)

pub receive-IsAt :
    (replicas received successes i : ℕ) (succeeded : Bool) (q : WriteQuorum)
    → IsAt replicas received successes q
    → received < replicas
    → IsAt replicas (received + 1) (successes + bit succeeded) (receive q i succeeded)
unfolding received_acks
receive-IsAt replicas received successes i succeeded q w h =
    let some_left : 0 < q.pending = omega (arith, h, w.pending) in
    let in_range : q.pending < 2 ^ 64 = omega (arith, w.pending, w.small) in
    let next_left : q.pending - 1 ≡ replicas - (received + 1) = omega (arith, w.pending) in
    let known : q.decisions ≡ verdict_for q.w successes q.pending =
      w.decided ∙ (λ k. verdict_for (sym w.needed k) successes (sym w.pending k)) in
    let flag : q.fired ≡ not (length (verdict_for q.w successes q.pending) == 0) =
      w.fired
      ∙ (λ k. not (length (verdict_for (sym w.needed k) successes (sym w.pending k)) == 0)) in
    let after : verdict_for q.w (successes + bit succeeded) (q.pending - 1)
        ≡ verdict replicas (successes + bit succeeded) (replicas - (received + 1)) =
      λ k. verdict_for (w.needed k) (successes + bit succeeded) (next_left k) in
    record {
      count = (fields-receive i succeeded q).0 ∙ w.count;
      needed = (fields-receive i succeeded q).1 ∙ w.needed;
      seen = omega (arith, (fields-receive i succeeded q).2, w.seen);
      pending = omega (arith, pending-receive i succeeded q some_left in_range, next_left);
      bounded = omega (arith, h);
      small = w.small;
      plain = omega (arith, w.plain, bit_le succeeded);
      acks = λ e.
          let open_still : q.fired ≡ false =
            or_left q.fired _ (sym (fired-receive i succeeded q some_left in_range) ∙ e) in
          acks-receive i succeeded q
          ∙ ap (λ (b : Bool). if b then q.acks else q.acks + bit succeeded) open_still
          ∙ omega (arith, w.acks open_still);
      decided =
          decisions-receive i succeeded q some_left in_range
          ∙ turn_decisions q.w successes q.pending (bit succeeded) q.acks q.fired q.decisions
              some_left (bit_le succeeded) known flag w.acks
          ∙ after;
      fired =
          fired-receive i succeeded q some_left in_range
          ∙ turn_fired q.w successes q.pending (bit succeeded) q.acks q.fired some_left
              (bit_le succeeded) flag w.acks
          ∙ ap (λ (d : List (Result (Unit {0}))). not (length d == 0)) after;
    }
