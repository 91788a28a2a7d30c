-- ===== src/ReadQuorum/Served.antt =====
-- A whole quorum read: when it decides, from which answers, and what it serves.
use cinder.Prelude.{
  ℕ, ◌+◌, ◌-◌, ◌^◌, ◌<◌, ◌≡◌, refl, sym, ◌∙◌, subst, Bool, true, false, ◌&&◌, ◌||◌, Option, none,
  some, is_some, List, [], ◌∷◌, length, leb, ◌==◌, arith, Bool-cases, Option-cases, inl, inr,
}
use cinder.Status.{Result, ok, err}
use cinder.Lww.{VersionedEntry, LwwStamp, bit, stamp_of, lww_covers, compare_lww}
use cinder.Clock.{Clock}
use cinder.Protocol.Response.{Response}
use cinder.Buffer.Lists.{Each}
use cinder.ReadQuorum.{ReadReducer, new_reducer, note_remote, count_vote}
use cinder.ReadQuorum.FanOut.{ReadDecision, key_not_found, decide_read, read_async}
use cinder.ReadQuorum.Reducer.{is_vote, note_all, some_disagree, repair-note_all}
use cinder.ReadQuorum.Winner.{
  Fits, CoversLocal, CoversAll, winner_covers, covers_all, best_all, begin, IsBest,
}
use cinder.ReadQuorum.Decision.{votes, is_enough, until_enough, drained, begin-IsOpen}

-- The stamp that the read begins with.
abbrev pub first_stamp : Option VersionedEntry → LwwStamp
first_stamp none = record { version = 0; writer = 0; tombstone = false }
first_stamp (some e) = stamp_of e

-- What is answered, from the local entry and the answers that count.
abbrev pub Answers : Option VersionedEntry → List (Option Response) → Result VersionedEntry → Type 0
Answers local folded (ok e) = CoversLocal (stamp_of e) local × CoversAll (stamp_of e) folded
Answers local folded (err x) = (x ≡ key_not_found) × (is_some local ≡ false) × (votes folded ≡ 0)

abbrev is_ok : Result VersionedEntry → Bool
is_ok (ok e) = true
is_ok (err x) = false

-- The winner is written back if some answer disagrees with what the read begins with.
abbrev pub Serves : Option VersionedEntry → List (Option Response) → ReadDecision → Type 0
Serves local folded d =
    Answers local folded d.answer
    × (d.repair ≡ (is_ok d.answer && some_disagree (first_stamp local) folded))

until_enough-Fits :
    (needed pending : ℕ) (xs : List (Option Response))
    → Fits xs
    → Fits (until_enough needed pending xs)
until_enough-Fits needed pending [] f = tt
until_enough-Fits needed pending (none ∷ xs) f =
    elim (Bool-cases (is_enough needed pending (none ∷ []))) [
      | inl e ↦ rw e tt
      | inr e ↦ rw e (until_enough-Fits (needed - 0) (pending - 1) xs f)
    ]
until_enough-Fits needed pending (some res ∷ xs) f =
    elim (Bool-cases (is_enough needed pending (some res ∷ []))) [
      | inl e ↦ rw e (f.0, tt)
      | inr e ↦
          rw e (f.0, until_enough-Fits (needed - bit (is_vote (some res))) (pending - 1) xs f.1)
    ]

entry_kept :
    (clock : Clock) (q : ReadReducer) (a : Option Response)
    → is_some q.best_entry ≡ true
    → is_some (note_remote clock q a true).best_entry ≡ true
unfolding note_remote count_vote
entry_kept clock q none h = h
entry_kept clock q (some res) h = ground (arith, h)

entry_kept_all :
    (clock : Clock) (xs : List (Option Response)) (q : ReadReducer)
    → is_some q.best_entry ≡ true
    → is_some (note_all clock q xs).best_entry ≡ true
unfolding note_all
entry_kept_all clock [] q h = h
entry_kept_all clock (a ∷ xs) q h =
    entry_kept_all clock xs (note_remote clock q a true) (entry_kept clock q a h)

none_covered :
    (xs : List (Option Response))
    → CoversAll (record { version = 0; writer = 0; tombstone = false }) xs
    → votes xs ≡ 0
unfolding lww_covers compare_lww
none_covered [] c = refl
none_covered (none ∷ xs) c = omega (arith, none_covered xs c)
none_covered (some res ∷ xs) c = ground (arith, c.0, none_covered xs c.1)

begin-IsSettled :
    (r n : ℕ) (local : Option VersionedEntry)
    → ((new_reducer r n local).best ≡ first_stamp local)
      × ((new_reducer r n local).needs_repair ≡ false)
      × (is_some (new_reducer r n local).best_entry ≡ is_some local)
unfolding new_reducer stamp_of
begin-IsSettled r n none = (refl, refl, refl)
begin-IsSettled r n (some e) = (refl, refl, refl)

module _ (clock : Clock) (r n : ℕ) (local : Option VersionedEntry) (folded : List (Option Response))
    (f : Fits folded) where
  abbrev last : ReadReducer
  last = note_all clock (new_reducer r n local) folded

  winner-Serves :
      (w : VersionedEntry) → last.best_entry ≡ some w → Serves local folded (decide_read last)
  unfolding decide_read
  winner-Serves w e =
      let (same, calm, kept) = begin-IsSettled r n local in
      let repair =
        repair-note_all clock folded (new_reducer r n local) (first_stamp local) (λ h. same) in
      rw (e, decide_read) (winner_covers clock r n local folded w f e, repair ∙ rw calm refl)

  miss-Serves : last.best_entry ≡ none → Serves local folded (decide_read last)
  unfolding decide_read
  miss-Serves e =
      let q = new_reducer r n local in
      let best : last.best ≡ record { version = 0; writer = 0; tombstone = false } =
        subst (λ (o : Option VersionedEntry). IsBest o last.best) e
          (best_all clock folded q f (begin r n local).0) in
      let no_votes =
        none_covered folded (subst (λ s. CoversAll s folded) best (covers_all clock folded q)) in
      let no_local : is_some local ≡ false = elim (Bool-cases (is_some local)) [
        | inl here ↦ absurd (
            ground (arith, e, entry_kept_all clock folded q ((begin-IsSettled r n local).2 ∙ here)))
        | inr gone ↦ gone
      ] in
      rw (e, decide_read) ((refl, no_local, no_votes), refl)

  serves : Serves local folded (decide_read last)
  serves = elim (Option-cases last.best_entry) [
    | inl e ↦ miss-Serves e
    | inr (w, e) ↦ winner-Serves w e
  ]

-- A quorum read for more than one answer, from at least one replica and fewer than 2^64 - 1, the
-- versions of the answers fitting into 62 bits: it decides once, as soon as the local entry and the
-- versioned answers are `r` together or all replicas have answered, and not before; the answers
-- that come later change nothing. It serves an entry that covers, in the last-writer-wins order,
-- the local entry and every versioned answer up to then, tombstones included, and writes it back
-- exactly if one of these answers is NotFound, or is versioned with another stamp than the local
-- entry or where there is none; or it serves NotFound, where there was no local entry and no
-- versioned answer, and writes nothing back.
pub read_decision :
    (clock : Clock) (r n : ℕ) (local : Option VersionedEntry) (answers : List (Option Response))
    → 0 < n
    → n + 1 < 2 ^ 64
    → 1 < r
    → Fits answers
    → (length (read_async clock r n local answers).decisions
        ≡ bit (is_enough (r - bit (is_some local)) n answers))
      × Each
          (Serves local (until_enough (r - bit (is_some local)) n answers))
          (read_async clock r n local answers).decisions
unfolding read_async
read_decision clock r n local answers h k more f =
    let needed = r - bit (is_some local) in
    let folded = until_enough needed n answers in
    let far : ((n == 0) || leb r 1) ≡ false = ground (arith, h, more) in
    let run = drained clock answers needed n (new_reducer r n local) (begin-IsOpen r n local h k) in
    rw far (
      subst
        (λ (ds : List ReadDecision).
          (length ds ≡ bit (is_enough needed n answers)) × Each (Serves local folded) ds)
        (sym run)
        (elim (Bool-cases (is_enough needed n answers)) [
          | inl e ↦
              rw e
                (refl, (serves clock r n local folded (until_enough-Fits needed n answers f), tt))
          | inr e ↦ rw e (refl, tt)
        ]))
