-- ===== src/ReadQuorum/Winner.antt =====
-- noteRemote: the entry that a quorum read returns.
use cinder.Prelude.{
  ℕ, ◌^◌, ◌<◌, ◌≡◌, refl, sym, subst, true, false, not, ◌&&◌, Option, none, some, List, [], ◌∷◌,
  ◌==◌, if◌then◌else◌, arith,
}
use cinder.Status.{Errc, errc_code}
use cinder.Lww.{
  VersionedEntry, LwwStamp, stamp_of, compare_lww, lww_wins_over, lww_covers, set_version,
  set_tombstone, set_has_ttl, is_tombstone, version,
}
use cinder.Protocol.Response.{Response}
use cinder.Clock.{Clock}
use cinder.ReadQuorum.{
  ReadReducer, new_reducer, vote_of, count_vote, note_remote, entry_of, take_best,
}
use cinder.ReadQuorum.Reducer.{note_all}

stamp-entry_of :
    (clock : Clock) (res : Response)
    → res.version < 2 ^ 62
    → stamp_of (entry_of clock res) ≡ vote_of res
unfolding entry_of stamp_of version is_tombstone set_version set_tombstone set_has_ttl
stamp-entry_of clock res h = ground arith

-- The versions that fit into a versioned entry.
abbrev pub Fits : List (Option Response) → Type 0
Fits [] = Unit {0}
Fits (none ∷ answers) = Fits answers
Fits (some res ∷ answers) = (res.version < 2 ^ 62) × Fits answers

-- The winner is the entry with the best stamp, and there is none only before the first vote.
abbrev pub IsBest : Option VersionedEntry → LwwStamp → Type 0
IsBest none best = best ≡ record { version = 0; writer = 0; tombstone = false }
IsBest (some e) best = stamp_of e ≡ best

note_remote-IsBest :
    (clock : Clock) (q : ReadReducer) (a : Option Response)
    → Fits (a ∷ [])
    → IsBest q.best_entry q.best
    → IsBest (note_remote clock q a true).best_entry (note_remote clock q a true).best
unfolding note_remote count_vote
note_remote-IsBest clock q none f h = h
note_remote-IsBest clock q (some res) f h = ground (arith, h, stamp-entry_of clock res f.0)

covers_step :
    (clock : Clock) (q : ReadReducer) (a : Option Response) (s : LwwStamp)
    → lww_covers q.best s ≡ true
    → lww_covers (note_remote clock q a true).best s ≡ true
unfolding note_remote count_vote lww_covers lww_wins_over compare_lww
covers_step clock q none s h = h
covers_step clock q (some res) s h = ground (arith, h)

covers_vote :
    (clock : Clock) (q : ReadReducer) (res : Response)
    → res.status ≡ errc_code Errc.ok
    → (res.version == 0) ≡ false
    → lww_covers (note_remote clock q (some res) true).best (vote_of res) ≡ true
unfolding note_remote count_vote lww_covers lww_wins_over compare_lww
covers_vote clock q res h k = ground (arith, h, k)

-- Every vote among the answers is covered by a stamp.
abbrev pub CoversAll : LwwStamp → List (Option Response) → Type 0
CoversAll s [] = Unit {0}
CoversAll s (none ∷ answers) = CoversAll s answers
CoversAll s (some res ∷ answers) =
    ((if (res.status == errc_code Errc.ok) && not (res.version == 0)
        then lww_covers s (vote_of res)
        else true)
      ≡ true)
    × CoversAll s answers

covers_later :
    (clock : Clock) (answers : List (Option Response)) (q : ReadReducer) (s : LwwStamp)
    → lww_covers q.best s ≡ true
    → lww_covers (note_all clock q answers).best s ≡ true
unfolding note_all
covers_later clock [] q s h = h
covers_later clock (a ∷ answers) q s h =
    covers_later clock answers (note_remote clock q a true) s (covers_step clock q a s h)

pub covers_all :
    (clock : Clock) (answers : List (Option Response)) (q : ReadReducer)
    → CoversAll (note_all clock q answers).best answers
unfolding note_all
covers_all clock [] q = tt
covers_all clock (none ∷ answers) q = covers_all clock answers (note_remote clock q none true)
covers_all clock (some res ∷ answers) q =
    let next = note_remote clock q (some res) true in
    (
      ground (arith, covers_vote clock q res, covers_later clock answers next (vote_of res)),
      covers_all clock answers next,
    )

pub best_all :
    (clock : Clock) (answers : List (Option Response)) (q : ReadReducer)
    → Fits answers
    → IsBest q.best_entry q.best
    → IsBest (note_all clock q answers).best_entry (note_all clock q answers).best
unfolding note_all
best_all clock [] q f h = h
best_all clock (none ∷ answers) q f h =
    best_all clock answers (note_remote clock q none true) f (note_remote-IsBest clock q none tt h)
best_all clock (some res ∷ answers) q f h =
    best_all clock answers (note_remote clock q (some res) true) f.1
      (note_remote-IsBest clock q (some res) (f.0, tt) h)

-- The local entry is covered by a stamp, if there is one.
abbrev pub CoversLocal : LwwStamp → Option VersionedEntry → Type 0
CoversLocal s none = Unit {0}
CoversLocal s (some e) = lww_covers s (stamp_of e) ≡ true

pub begin :
    (r total : ℕ) (local : Option VersionedEntry)
    → IsBest (new_reducer r total local).best_entry (new_reducer r total local).best
      × CoversLocal (new_reducer r total local).best local
unfolding new_reducer stamp_of lww_covers compare_lww
begin r total none = (refl, tt)
begin r total (some e) = (refl, ground arith)

pub winner_covers :
    (clock : Clock) (r total : ℕ) (local : Option VersionedEntry) (answers : List (Option Response))
    (winner : VersionedEntry)
    → Fits answers
    → take_best (note_all clock (new_reducer r total local) answers) ≡ some winner
    → CoversLocal (stamp_of winner) local × CoversAll (stamp_of winner) answers
winner_covers clock r total local answers winner f h =
    let q = new_reducer r total local in
    let last = note_all clock q answers in
    let is_best =
      subst (λ e. IsBest e last.best) h (best_all clock answers q f (begin r total local).0) in
    (
      local_covered clock answers q local winner is_best (begin r total local).1,
      subst (λ s. CoversAll s answers) (sym is_best) (covers_all clock answers q),
    )
  where
    local_covered :
        (clock : Clock) (answers : List (Option Response)) (q : ReadReducer)
        (l : Option VersionedEntry) (winner : VersionedEntry)
        → stamp_of winner ≡ (note_all clock q answers).best
        → CoversLocal q.best l
        → CoversLocal (stamp_of winner) l
    local_covered clock answers q none winner e h = tt
    local_covered clock answers q (some l) winner e h =
        subst (λ s. lww_covers s (stamp_of l) ≡ true) (sym e)
          (covers_later clock answers q (stamp_of l) h)
