-- ===== src/ReadQuorum/Reducer.antt =====
-- noteRemote: what an answer that is folded does to the counts and to the need for repair.
use cinder.Prelude.{
  ◌+◌, ◌-◌, ◌%◌, ◌^◌, ◌<◌, ◌≡◌, refl, ◌∙◌, Bool, true, false, not, ◌&&◌, ◌||◌, Option, none, some,
  List, [], ◌∷◌, ◌==◌, if◌then◌else◌, arith, Bool-cases, inl, inr,
}
use cinder.Status.{Errc, errc_code}
use cinder.Lww.{LwwStamp, bit, compare_lww, lww_wins_over}
use cinder.Protocol.Response.{Response}
use cinder.Clock.{Clock}
use cinder.ReadQuorum.{ReadReducer, vote_of, count_vote, note_remote}

-- What an answer is to the reducer: a vote, or a replica that lacks the key.
abbrev pub is_vote : Option Response → Bool
is_vote none = false
is_vote (some res) = (res.status == errc_code Errc.ok) && not (res.version == 0)

abbrev pub is_missing : Option Response → Bool
is_missing none = false
is_missing (some res) = res.status == errc_code Errc.not_found

-- The answers as they arrive before the decision.
unfoldable pub note_all : Clock → ReadReducer → List (Option Response) → ReadReducer
note_all clock q [] = q
note_all clock q (a ∷ xs) = note_all clock (note_remote clock q a true) xs

module _ (clock : Clock) (q : ReadReducer) where
  pub acks-note_remote :
      (a : Option Response)
      → q.acks + 1 < 2 ^ 64
      → (note_remote clock q a true).acks ≡ q.acks + bit (is_vote a)
  unfolding note_remote count_vote
  acks-note_remote none h = omega arith
  acks-note_remote (some res) h = ground (arith, h)

  pub pending-note_remote :
      (a : Option Response)
      → 0 < q.pending
      → q.pending < 2 ^ 64
      → (note_remote clock q a true).pending ≡ q.pending - 1
  unfolding note_remote count_vote
  pending-note_remote none h k = ground (arith, h, k)
  pending-note_remote (some res) h k = ground (arith, h, k)

  pub r-note_remote : (a : Option Response) → (note_remote clock q a true).r ≡ q.r
  unfolding note_remote count_vote
  r-note_remote none = refl
  r-note_remote (some res) = ground arith

  pub note_late : (a : Option Response) → note_remote clock q a false ≡ q
  unfolding note_remote
  note_late none = refl
  note_late (some res) = refl

-- An answer of another version than the one that the read began with, or a replica without the key.
abbrev pub same_stamp : LwwStamp → LwwStamp → Bool
same_stamp a b =
    (a.version == b.version)
    && ((a.writer == b.writer) && (if a.tombstone then b.tombstone else not b.tombstone))

abbrev pub disagrees : LwwStamp → Option Response → Bool
disagrees base none = false
disagrees base (some res) =
    is_missing (some res) || (is_vote (some res) && not (same_stamp (vote_of res) base))

abbrev pub some_disagree : LwwStamp → List (Option Response) → Bool
some_disagree base [] = false
some_disagree base (a ∷ xs) = disagrees base a || some_disagree base xs

-- Until an answer disagrees the best stamp is the first one.
abbrev pub IsSettled : LwwStamp → ReadReducer → Type 0
IsSettled base q = q.needs_repair ≡ false → q.best ≡ base

same_stamp-eq : (a b : LwwStamp) → same_stamp a b ≡ true → a ≡ b
same_stamp-eq a b h = ground arith

module _ (clock : Clock) (q : ReadReducer) (base : LwwStamp) (res : Response)
    (s : IsSettled base q) where
  repair-count_vote :
      (count_vote clock q res).needs_repair
      ≡ (q.needs_repair || not (same_stamp (vote_of res) base))
  unfolding count_vote lww_wins_over compare_lww
  repair-count_vote = elim (Bool-cases q.needs_repair) [
    | inl e ↦ ground (arith, e)
    | inr e ↦ ground (arith, e, s e)
  ]

  count_vote-IsSettled : IsSettled base (count_vote clock q res)
  unfolding count_vote lww_wins_over compare_lww
  count_vote-IsSettled h = elim (Bool-cases q.needs_repair) [
    | inl e ↦ ground (arith, e, h)
    | inr e ↦ ground (arith, e, s e, h)
  ]

repair-note_remote :
    (clock : Clock) (q : ReadReducer) (base : LwwStamp) (a : Option Response)
    → IsSettled base q
    → ((note_remote clock q a true).needs_repair ≡ (q.needs_repair || disagrees base a))
      × IsSettled base (note_remote clock q a true)
unfolding note_remote
repair-note_remote clock q base none s = (ground arith, s)
repair-note_remote clock q base (some res) s =
    let answered = record q { pending = (q.pending + 2 ^ 64 - 1) % 2 ^ 64 } in
    let repair = repair-count_vote clock answered base res s in
    elim (Bool-cases (is_vote (some res))) [
      | inl v ↦
          rw (v, note_remote)
            (repair ∙ ground (arith, v), count_vote-IsSettled clock answered base res s)
      | inr n ↦
          rw (n, note_remote)
            (elim (Bool-cases (is_missing (some res))) [
              | inl m ↦ rw (m, note_remote) (ground (arith, m), λ h. absurd (ground (arith, h)))
              | inr f ↦ rw (f, note_remote) (ground (arith, f), s)
            ])
    ]

pub repair-note_all :
    (clock : Clock) (xs : List (Option Response)) (q : ReadReducer) (base : LwwStamp)
    → IsSettled base q
    → (note_all clock q xs).needs_repair ≡ (q.needs_repair || some_disagree base xs)
unfolding note_all
repair-note_all clock [] q base s = ground arith
repair-note_all clock (a ∷ xs) q base s =
    let (here, settled) = repair-note_remote clock q base a s in
    ground (arith, here, repair-note_all clock xs (note_remote clock q a true) base settled)
