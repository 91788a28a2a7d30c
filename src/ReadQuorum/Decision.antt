-- ===== src/ReadQuorum/Decision.antt =====
-- A whole quorum read: when it decides, and from which answers.
use cinder.Prelude.{
  ℕ, ◌+◌, ◌-◌, ◌^◌, ◌<◌, ◌≡◌, refl, ◌∙◌, Bool, true, false, ◌||◌, Option, none, some, is_some, List,
  [], ◌∷◌, length, leb, if◌then◌else◌, arith, Bool-cases, inl, inr,
}
use cinder.Lww.{VersionedEntry, bit}
use cinder.Clock.{Clock}
use cinder.Protocol.Response.{Response}
use cinder.ReadQuorum.{ReadReducer, new_reducer, note_remote, should_fire}
use cinder.ReadQuorum.FanOut.{ReadDecision, decide_read, receive_answer, drain_answers}
use cinder.ReadQuorum.Reducer.{
  is_vote, note_all, acks-note_remote, pending-note_remote, r-note_remote,
}

-- The answers with a version.
abbrev pub votes : List (Option Response) → ℕ
votes [] = 0
votes (a ∷ xs) = bit (is_vote a) + votes xs

-- There are enough of `needed` votes, or all `pending` replicas have answered.
abbrev pub is_enough : ℕ → ℕ → List (Option Response) → Bool
is_enough needed pending [] = false
is_enough needed pending (a ∷ xs) = leb needed (votes (a ∷ xs)) || leb pending (length (a ∷ xs))

-- The answers up to the first with which there are enough.
abbrev pub until_enough : ℕ → ℕ → List (Option Response) → List (Option Response)
until_enough needed pending [] = []
until_enough needed pending (a ∷ xs) =
    let rest = until_enough (needed - bit (is_vote a)) (pending - 1) xs in
    if is_enough needed pending (a ∷ []) then a ∷ [] else a ∷ rest

late_answers :
    (clock : Clock) (xs : List (Option Response)) (q : ReadReducer) (ds : List ReadDecision)
    → (drain_answers clock (record { reducer = q; fired = true; decisions = ds }) xs).decisions ≡ ds
unfolding drain_answers receive_answer
late_answers clock [] q ds = refl
late_answers clock (a ∷ xs) q ds = late_answers clock xs (note_remote clock q a false) ds

-- A reducer that needs so many more votes and waits for so many more answers.
pub record IsOpen (needed pending : ℕ) (q : ReadReducer) : Type 0 where
  pub needs : q.r - q.acks ≡ needed
  pub waits : q.pending ≡ pending
  pub some_wait : 0 < pending
  pub small : q.acks + pending < 2 ^ 64

module _ (clock : Clock) (needed pending : ℕ) (q : ReadReducer) (a : Option Response)
    (h : IsOpen needed pending q) where
  fires : should_fire (note_remote clock q a true) ≡ is_enough needed pending (a ∷ [])
  unfolding should_fire
  fires = ground (
    arith,
    h.needs,
    h.waits,
    h.some_wait,
    acks-note_remote clock q a (omega (arith, h.small, h.some_wait)),
    pending-note_remote clock q a (omega (arith, h.waits, h.some_wait))
        (omega (arith, h.waits, h.small)),
    r-note_remote clock q a,
  )

  still-IsOpen :
      is_enough needed pending (a ∷ []) ≡ false
      → IsOpen (needed - bit (is_vote a)) (pending - 1) (note_remote clock q a true)
  still-IsOpen e =
      let acks = acks-note_remote clock q a (omega (arith, h.small, h.some_wait)) in
      let waits =
        pending-note_remote clock q a (omega (arith, h.waits, h.some_wait))
          (omega (arith, h.waits, h.small)) in
      record {
        needs = omega (arith, h.needs, acks, r-note_remote clock q a);
        waits = omega (arith, waits, h.waits);
        some_wait = ground (arith, e);
        small = ground (arith, h.small, acks, h.some_wait);
      }

enough_later :
    (needed pending : ℕ) (a : Option Response) (xs : List (Option Response))
    → is_enough needed pending (a ∷ []) ≡ false
    → is_enough needed pending (a ∷ xs) ≡ is_enough (needed - bit (is_vote a)) (pending - 1) xs
enough_later needed pending a [] e = e
enough_later needed pending a (b ∷ xs) e = ground (arith, e)

enough_now :
    (needed pending : ℕ) (a : Option Response) (xs : List (Option Response))
    → is_enough needed pending (a ∷ []) ≡ true
    → is_enough needed pending (a ∷ xs) ≡ true
enough_now needed pending a xs e = ground (arith, e)

pub drained :
    (clock : Clock) (xs : List (Option Response)) (needed pending : ℕ) (q : ReadReducer)
    → IsOpen needed pending q
    → (drain_answers clock (record { reducer = q; fired = false; decisions = [] }) xs).decisions ≡ (
        if is_enough needed pending xs
        then decide_read (note_all clock q (until_enough needed pending xs)) ∷ []
        else [])
unfolding drain_answers receive_answer note_all
drained clock [] needed pending q h = refl
drained clock (a ∷ xs) needed pending q h =
    let next = note_remote clock q a true in
    elim (Bool-cases (is_enough needed pending (a ∷ []))) [
      | inl e ↦
          rw (fires clock needed pending q a h ∙ e, drain_answers)
            (late_answers clock xs next (decide_read next ∷ [])
              ∙ rw (e, enough_now needed pending a xs e) refl)
      | inr e ↦
          rw (fires clock needed pending q a h ∙ e, drain_answers)
            (drained clock xs (needed - bit (is_vote a)) (pending - 1) next
                (still-IsOpen clock needed pending q a h e)
              ∙ rw (e, enough_later needed pending a xs e) refl)
    ]

pub begin-IsOpen :
    (r n : ℕ) (local : Option VersionedEntry)
    → 0 < n
    → n + 1 < 2 ^ 64
    → IsOpen (r - bit (is_some local)) n (new_reducer r n local)
unfolding new_reducer
begin-IsOpen r n none h k = record {
  needs = refl;
  waits = refl;
  some_wait = h;
  small = omega arith;
}
begin-IsOpen r n (some e) h k = record {
  needs = refl;
  waits = refl;
  some_wait = h;
  small = omega arith;
}
