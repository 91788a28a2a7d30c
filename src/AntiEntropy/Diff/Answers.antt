-- ===== src/AntiEntropy/Diff/Answers.antt =====
-- What one decision of diffRows, its sorts and the erased rows do to the answers for a hash.
use mathlib.Core.List.{append-nil}
use cinder.Prelude.{
  ℕ, ◌+◌, ◌≡◌, refl, ap, ◌∙◌, Bool, true, false, not, ◌&&◌, ◌||◌, Option, none, some, List, [], ◌∷◌,
  ◌++◌, Bytes, ltb, ◌==◌, ==_iff, if◌then◌else◌, arith, Bool-cases, inl, inr,
}
use cinder.Lww.{VersionedEntry, bit, lww_wins_over, compare_lww, stamp_of, version, is_tombstone}
use cinder.AntiEntropy.{MetaRow}
use cinder.AntiEntropy.Diff.{
  MetaDiff, Entry, find_row, contains, is_covered, decide_row, no_buckets, insert_hash, sort_hashes,
  insert_pair, sort_pairs,
}
use cinder.AntiEntropy.Diff.Single.{UniqueRows, rows_without}

-- How often a hash stands in a list.
abbrev pub occurrences : List ℕ → ℕ → ℕ
occurrences [] h = 0
occurrences (x ∷ xs) h = bit (x == h) + occurrences xs h

-- The keys that are sent with a hash.
abbrev pub keys_sent : List (ℕ × Bytes) → ℕ → List Bytes
keys_sent [] h = []
keys_sent ((k, key) ∷ m) h = if k == h then key ∷ keys_sent m h else keys_sent m h

-- A row is newer than an entry, and an entry than a row: the version decides, then the writer, and at
-- equal stamps a tombstone is newer than a value.
abbrev pub row_newer : MetaRow → VersionedEntry → Bool
row_newer r e =
    ltb (version e) r.version
    || ((version e == r.version)
        && (ltb e.writer_node_hash r.writer
            || ((e.writer_node_hash == r.writer) && (r.tombstone && not (is_tombstone e)))))

abbrev pub entry_newer : VersionedEntry → MetaRow → Bool
entry_newer e r =
    ltb r.version (version e)
    || ((version e == r.version)
        && (ltb r.writer e.writer_node_hash
            || ((e.writer_node_hash == r.writer) && (is_tombstone e && not r.tombstone))))

-- The partner has sent all that it has in a bucket; it lists no buckets if it has sent everything.
abbrev pub complete : List ℕ → ℕ → Bool
complete covered_buckets bucket = no_buckets covered_buckets || contains covered_buckets bucket

row_newer_lem :
    (r : MetaRow) (e : VersionedEntry)
    → lww_wins_over
        (record { version = r.version; writer = r.writer; tombstone = r.tombstone })
        (stamp_of e)
      ≡ row_newer r e
unfolding lww_wins_over compare_lww stamp_of
row_newer_lem r e = ground (arith, ==_iff r.version (version e), ==_iff r.writer e.writer_node_hash)

entry_newer_lem :
    (r : MetaRow) (e : VersionedEntry)
    → lww_wins_over
        (stamp_of e)
        (record { version = r.version; writer = r.writer; tombstone = r.tombstone })
      ≡ entry_newer e r
unfolding lww_wins_over compare_lww stamp_of
entry_newer_lem r e =
    ground (arith, ==_iff r.version (version e), ==_iff r.writer e.writer_node_hash)

one_newer : (r : MetaRow) (e : VersionedEntry) → row_newer r e ≡ true → entry_newer e r ≡ false
one_newer r e h = ground arith

pub is_covered-complete : (bs : List ℕ) (bucket : ℕ) → is_covered bs bucket ≡ complete bs bucket
unfolding is_covered
is_covered-complete [] bucket = refl
is_covered-complete (b ∷ bs) bucket = refl

pub occurrences-append :
    (xs ys : List ℕ) (h : ℕ) → occurrences (xs ++ ys) h ≡ occurrences xs h + occurrences ys h
occurrences-append [] ys h = omega arith
occurrences-append (x ∷ xs) ys h = omega (arith, occurrences-append xs ys h)

keys_sent-append :
    (m n : List (ℕ × Bytes)) (h : ℕ) → keys_sent (m ++ n) h ≡ keys_sent m h ++ keys_sent n h
keys_sent-append [] n h = refl
keys_sent-append ((k, key) ∷ m) n h = ground (arith, keys_sent-append m n h)

occurrences-insert_hash :
    (x : ℕ) (xs : List ℕ) (h : ℕ)
    → occurrences (insert_hash x xs) h ≡ bit (x == h) + occurrences xs h
unfolding insert_hash
occurrences-insert_hash x [] h = refl
occurrences-insert_hash x (y ∷ ys) h = ground (arith, occurrences-insert_hash x ys h)

pub occurrences-sort_hashes :
    (xs : List ℕ) (h : ℕ) → occurrences (sort_hashes xs) h ≡ occurrences xs h
unfolding sort_hashes
occurrences-sort_hashes [] h = refl
occurrences-sort_hashes (x ∷ xs) h =
    occurrences-insert_hash x (sort_hashes xs) h
    ∙ ap (λ (n : ℕ). bit (x == h) + n) (occurrences-sort_hashes xs h)

keys_sent-insert_pair :
    (k : ℕ) (key : Bytes) (m : List (ℕ × Bytes)) (h : ℕ)
    → keys_sent (insert_pair (k, key) m) h ≡ keys_sent ((k, key) ∷ m) h
unfolding insert_pair
keys_sent-insert_pair k key [] h = refl
keys_sent-insert_pair k key ((j, other) ∷ m) h =
    ground (arith, keys_sent-insert_pair k key m h, ==_iff k h, ==_iff j h)

pub keys_sent-sort_pairs :
    (m : List (ℕ × Bytes)) (h : ℕ) → keys_sent (sort_pairs m) h ≡ keys_sent m h
unfolding sort_pairs
keys_sent-sort_pairs [] h = refl
keys_sent-sort_pairs ((k, key) ∷ m) h =
    keys_sent-insert_pair k key (sort_pairs m) h
    ∙ ap (λ (o : List Bytes). if k == h then key ∷ o else o) (keys_sent-sort_pairs m h)

pub find_row-rows_without :
    (hs : List ℕ) (m : List MetaRow) (h : ℕ)
    → find_row (rows_without hs m) h ≡ (if contains hs h then none else find_row m h)
unfolding find_row rows_without
find_row-rows_without hs [] h = ground arith
find_row-rows_without hs (r ∷ rs) h = elim (Bool-cases (r.key_hash == h)) [
  | inl e ↦ ground (arith, e, ==_iff r.key_hash h, find_row-rows_without hs rs h)
  | inr f ↦ ground (arith, f, find_row-rows_without hs rs h)
]

pub rows_without-UniqueRows :
    (hs : List ℕ) (m : List MetaRow) → UniqueRows m → UniqueRows (rows_without hs m)
unfolding rows_without
rows_without-UniqueRows hs [] u = u
rows_without-UniqueRows hs (r ∷ rs) u = elim (Bool-cases (contains hs r.key_hash)) [
  | inl e ↦ rw e (rows_without-UniqueRows hs rs u.1)
  | inr f ↦
      rw f (find_row-rows_without hs rs r.key_hash ∙ rw f u.0, rows_without-UniqueRows hs rs u.1)
]

-- Whether an entry of the store is fetched, by the row that the partner has for its hash.
abbrev pub older : Entry → Option MetaRow → Bool
older e none = false
older e (some r) = row_newer r e.1

-- Whether it is sent.
abbrev pub lacking : Bool → Entry → Option MetaRow → Bool
lacking covered e none = covered
lacking covered e (some r) = entry_newer e.1 r

abbrev pub key_if : Bool → Bytes → List Bytes
key_if b key = if b then key ∷ [] else []

pub need-decide_row :
    (covered : Bool) (k : ℕ) (e : Entry) (o : Option MetaRow) (d : MetaDiff) (h : ℕ)
    → occurrences (decide_row covered k e o d).need h
      ≡ occurrences d.need h + bit ((k == h) && older e o)
unfolding decide_row
need-decide_row covered k (key, e) none d h = ground arith
need-decide_row covered k (key, e) (some r) d h =
    ground (arith, row_newer_lem r e, entry_newer_lem r e, occurrences-append d.need (k ∷ []) h)

pub have-decide_row :
    (covered : Bool) (k : ℕ) (e : Entry) (o : Option MetaRow) (d : MetaDiff) (h : ℕ)
    → keys_sent (decide_row covered k e o d).have h
      ≡ keys_sent d.have h ++ key_if ((k == h) && lacking covered e o) e.0
unfolding decide_row
have-decide_row covered k (key, e) none d h =
    ground (arith, keys_sent-append d.have ((k, key) ∷ []) h, append-nil (keys_sent d.have h))
have-decide_row covered k (key, e) (some r) d h = ground (
  arith,
  row_newer_lem r e,
  entry_newer_lem r e,
  one_newer r e,
  keys_sent-append d.have ((k, key) ∷ []) h,
  append-nil (keys_sent d.have h),
)
