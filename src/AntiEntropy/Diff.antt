-- ===== src/AntiEntropy/Diff.antt =====
-- diffRows of src/node/anti_entropy/core.cpp: what a node fetches and what it sends, from its own entries
-- and the metadata rows of a partner. The hash map of rows is a list with one row for each hash; the
-- buckets of divergent, covered_buckets and the partner's rows are below the number of buckets. The
-- final sorts are insertion sorts: they give what any sort gives, but for two keys to send that share a
-- hash, whose order std::ranges::sort leaves open.
pub mod Single
pub mod Answers
pub mod Sorted
pub mod Decision
use cinder.Prelude.{
  ℕ, ◌+◌, ◌<◌, ◌≡◌, refl, sym, ap, ◌∙◌, Bool, true, false, not, ◌&&◌, ◌||◌, Option, none, some,
  List, [], ◌∷◌, ◌++◌, Bytes, ltb, ◌==◌, ==_iff, if◌then◌else◌, arith, Bool-cases, Option-cases,
  inl, inr,
}
use cinder.Lww.{VersionedEntry, LwwStamp, lww_wins_over, stamp_of}
use cinder.AntiEntropy.{MetaRow}

pub record MetaDiff : Type 0 where
  pub need : List ℕ
  pub have : List (ℕ × Bytes)

abbrev pub Entry : Type 0
Entry = Bytes × VersionedEntry

abbrev row_stamp : MetaRow → LwwStamp
row_stamp r = record { version = r.version; writer = r.writer; tombstone = r.tombstone }

unfoldable pub find_row : List MetaRow → ℕ → Option MetaRow
find_row [] h = none
find_row (r ∷ rs) h = if r.key_hash == h then some r else find_row rs h

-- by_hash[row.key_hash] = &row
unfoldable pub put_row : List MetaRow → MetaRow → List MetaRow
put_row [] row = row ∷ []
put_row (r ∷ rs) row = if r.key_hash == row.key_hash then row ∷ rs else r ∷ put_row rs row

unfoldable pub index_rows : List MetaRow → List MetaRow → List MetaRow
unfolding put_row
index_rows m [] = m
index_rows m (r ∷ rs) = index_rows (put_row m r) rs

-- by_hash.erase(it)
unfoldable pub erase_row : List MetaRow → ℕ → List MetaRow
erase_row [] h = []
erase_row (r ∷ rs) h = if r.key_hash == h then rs else r ∷ erase_row rs h

abbrev pub contains : List ℕ → ℕ → Bool
contains [] x = false
contains (y ∷ ys) x = y == x || contains ys x

-- The vector `covered`: without covered buckets all are.
unfoldable pub is_covered : List ℕ → ℕ → Bool
is_covered [] bucket = true
is_covered (b ∷ bs) bucket = contains (b ∷ bs) bucket

abbrev pub push_need : MetaDiff → ℕ → MetaDiff
push_need d h = record d { need = d.need ++ (h ∷ []) }

abbrev pub push_have : MetaDiff → ℕ → Bytes → MetaDiff
push_have d h key = record d { have = d.have ++ ((h, key) ∷ []) }

-- What one entry adds, for the partner's row of its hash.
unfoldable pub decide_row : Bool → ℕ → Entry → Option MetaRow → MetaDiff → MetaDiff
decide_row covered h (key, entry) none d = if covered then push_have d h key else d
decide_row covered h (key, entry) (some row) d =
    if lww_wins_over (row_stamp row) (stamp_of entry)
    then push_need d h
    else if lww_wins_over (stamp_of entry) (row_stamp row)
    then push_have d h key
    else d

-- std::ranges::sort(diff.need)
unfoldable pub insert_hash : ℕ → List ℕ → List ℕ
insert_hash x [] = x ∷ []
insert_hash x (y ∷ ys) = if ltb y x then y ∷ insert_hash x ys else x ∷ y ∷ ys

unfoldable pub sort_hashes : List ℕ → List ℕ
unfolding insert_hash
sort_hashes [] = []
sort_hashes (x ∷ xs) = insert_hash x (sort_hashes xs)

-- std::ranges::sort(diff.have, {}, &pair::first)
unfoldable pub insert_pair : ℕ × Bytes → List (ℕ × Bytes) → List (ℕ × Bytes)
insert_pair x [] = x ∷ []
insert_pair x (y ∷ ys) = if ltb y.0 x.0 then y ∷ insert_pair x ys else x ∷ y ∷ ys

unfoldable pub sort_pairs : List (ℕ × Bytes) → List (ℕ × Bytes)
unfolding insert_pair
sort_pairs [] = []
sort_pairs (x ∷ xs) = insert_pair x (sort_pairs xs)

abbrev pub sorted : MetaDiff → MetaDiff
sorted d = record { need = sort_hashes d.need; have = sort_pairs d.have }

abbrev pub no_buckets : List ℕ → Bool
no_buckets [] = true
no_buckets (x ∷ xs) = false

module _ (xxh3 : Bytes → ℕ) (bucket_for : Bytes → ℕ) (divergent covered_buckets : List ℕ) where
  abbrev pub hash_of : Entry → ℕ
  hash_of e = xxh3 e.0

  -- The loop over the store, with the rows that are left.
  unfoldable pub scan_entries : List Entry → List MetaRow → MetaDiff → MetaDiff × List MetaRow
  unfolding find_row erase_row
  scan_entries [] rows d = (d, rows)
  scan_entries (e ∷ es) rows d =
      if contains divergent (bucket_for e.0)
      then scan_entries es (erase_row rows (hash_of e)) (
          decide_row (is_covered covered_buckets (bucket_for e.0)) (hash_of e) e
            (find_row rows (hash_of e)) d)
      else scan_entries es rows d

  -- The rows that no entry has taken.
  unfoldable pub fetch_rest : List MetaRow → MetaDiff → MetaDiff
  fetch_rest [] d = d
  fetch_rest (r ∷ rs) d =
      fetch_rest rs (if is_covered covered_buckets r.bucket then push_need d r.key_hash else d)

  unfoldable pub diff_rows : List Entry → List MetaRow → MetaDiff
  unfolding index_rows scan_entries fetch_rest sort_hashes sort_pairs
  diff_rows entries rows =
      let (d, left) = scan_entries entries (index_rows [] rows) (record { need = []; have = [] }) in
      if no_buckets divergent then record { need = []; have = [] } else sorted (fetch_rest left d)
