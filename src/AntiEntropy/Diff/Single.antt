-- ===== src/AntiEntropy/Diff/Single.antt =====
-- The single pass with erasure comes to a decision for each entry on its own.
use cinder.Prelude.{
  ℕ, ◌≡◌, refl, ap, ◌∙◌, false, Option, none, some, List, [], ◌∷◌, Bytes, ◌==◌, ==_iff,
  if◌then◌else◌, arith, Bool-cases, inl, inr,
}
use cinder.Buffer.Lists.{Each}
use cinder.AntiEntropy.{MetaRow}
use cinder.AntiEntropy.Diff.{
  MetaDiff, Entry, find_row, put_row, index_rows, erase_row, contains, is_covered, decide_row,
  scan_entries, fetch_rest, diff_rows, no_buckets, sorted,
}

-- The last of the rows with the hash.
unfoldable pub last_row : List MetaRow → ℕ → Option MetaRow → Option MetaRow
last_row [] h found = found
last_row (r ∷ rs) h found = last_row rs h (if r.key_hash == h then some r else found)

find_row-put_row :
    (m : List MetaRow) (r : MetaRow) (h : ℕ)
    → find_row (put_row m r) h ≡ (if r.key_hash == h then some r else find_row m h)
unfolding find_row put_row
find_row-put_row [] r h = refl
find_row-put_row (q ∷ qs) r h = ground (arith, find_row-put_row qs r h)

pub find_row-index_rows :
    (m rows : List MetaRow) (h : ℕ)
    → find_row (index_rows m rows) h ≡ last_row rows h (find_row m h)
unfolding index_rows last_row
find_row-index_rows m [] h = refl
find_row-index_rows m (r ∷ rs) h =
    find_row-index_rows (put_row m r) rs h ∙ ap (last_row rs h) (find_row-put_row m r h)

abbrev pub UniqueRows : List MetaRow → Type 0
UniqueRows [] = Unit
UniqueRows (r ∷ rs) = (find_row rs r.key_hash ≡ none) × UniqueRows rs

empty_row : (h : ℕ) → find_row [] h ≡ none
unfolding find_row
empty_row h = refl

put_row-UniqueRows : (m : List MetaRow) (r : MetaRow) → UniqueRows m → UniqueRows (put_row m r)
unfolding put_row
put_row-UniqueRows [] r u = (empty_row r.key_hash, tt)
put_row-UniqueRows (q ∷ qs) r u = elim (Bool-cases (q.key_hash == r.key_hash)) [
  | inl e ↦ rw e (ground (arith, e, u.0), u.1)
  | inr e ↦
      rw e (ground (arith, e, u.0, find_row-put_row qs r q.key_hash), put_row-UniqueRows qs r u.1)
]

pub index_rows-UniqueRows : (m rows : List MetaRow) → UniqueRows m → UniqueRows (index_rows m rows)
unfolding index_rows
index_rows-UniqueRows m [] u = u
index_rows-UniqueRows m (r ∷ rs) u =
    index_rows-UniqueRows (put_row m r) rs (put_row-UniqueRows m r u)

find_row-erase_row :
    (rows : List MetaRow) (h k : ℕ)
    → (h == k) ≡ false
    → find_row (erase_row rows h) k ≡ find_row rows k
unfolding find_row erase_row
find_row-erase_row [] h k e = refl
find_row-erase_row (r ∷ rs) h k e = ground (arith, e, find_row-erase_row rs h k)

-- The rows with no hash of the list.
unfoldable pub rows_without : List ℕ → List MetaRow → List MetaRow
rows_without hs [] = []
rows_without hs (r ∷ rs) =
    if contains hs r.key_hash then rows_without hs rs else r ∷ rows_without hs rs

without_absent :
    (h : ℕ) (hs : List ℕ) (rows : List MetaRow)
    → find_row rows h ≡ none
    → rows_without (h ∷ hs) rows ≡ rows_without hs rows
unfolding rows_without find_row
without_absent h hs [] e = refl
without_absent h hs (r ∷ rs) e = ground (arith, e, without_absent h hs rs)

without-erase_row :
    (h : ℕ) (hs : List ℕ) (rows : List MetaRow)
    → UniqueRows rows
    → rows_without hs (erase_row rows h) ≡ rows_without (h ∷ hs) rows
unfolding rows_without erase_row
without-erase_row h hs [] u = refl
without-erase_row h hs (r ∷ rs) u = elim (Bool-cases (r.key_hash == h)) [
  | inl e ↦ ground (arith, e, without_absent h hs rs, u.0, ==_iff r.key_hash h)
  | inr e ↦ ground (arith, e, without-erase_row h hs rs u.1)
]

erase_row-UniqueRows :
    (rows : List MetaRow) (h : ℕ) → UniqueRows rows → UniqueRows (erase_row rows h)
unfolding erase_row
erase_row-UniqueRows [] h u = tt
erase_row-UniqueRows (r ∷ rs) h u = elim (Bool-cases (r.key_hash == h)) [
  | inl e ↦ rw e u.1
  | inr e ↦
      rw e (
        find_row-erase_row rs h r.key_hash (ground (arith, e)) ∙ u.0,
        erase_row-UniqueRows rs h u.1,
      )
]

all_left : (rows : List MetaRow) → rows ≡ rows_without [] rows
unfolding rows_without
all_left [] = refl
all_left (r ∷ rs) = ap (λ t. r ∷ t) (all_left rs)

module _ (xxh3 : Bytes → ℕ) (bucket_for : Bytes → ℕ) (divergent covered_buckets : List ℕ) where
  abbrev pub hashes : List Entry → List ℕ
  hashes [] = []
  hashes (e ∷ es) = xxh3 e.0 ∷ hashes es

  -- The hashes of the entries in divergent buckets.
  unfoldable pub compared : List Entry → List ℕ
  compared [] = []
  compared (e ∷ es) =
      if contains divergent (bucket_for e.0) then xxh3 e.0 ∷ compared es else compared es

  abbrev pub HashesDiffer : List Entry → Type 0
  HashesDiffer [] = Unit
  HashesDiffer (e ∷ es) = (contains (hashes es) (xxh3 e.0) ≡ false) × HashesDiffer es

  -- A decision for each entry in a divergent bucket, from the row that `look` has for its hash.
  unfoldable pub decide_each : List Entry → (ℕ → Option MetaRow) → MetaDiff → MetaDiff
  decide_each [] look d = d
  decide_each (e ∷ es) look d =
      if contains divergent (bucket_for e.0)
      then decide_each es look (
          decide_row (is_covered covered_buckets (bucket_for e.0)) (xxh3 e.0) e (look (xxh3 e.0)) d)
      else decide_each es look d

  each_same :
      (es : List Entry) (look other : ℕ → Option MetaRow) (d : MetaDiff)
      → Each (λ e. look (xxh3 e.0) ≡ other (xxh3 e.0)) es
      → decide_each es look d ≡ decide_each es other d
  unfolding decide_each
  each_same [] look other d h = refl
  each_same (e ∷ es) look other d h = elim (Bool-cases (contains divergent (bucket_for e.0))) [
    | inr f ↦ rw f (each_same es look other d h.1)
    | inl f ↦ rw f (
        ap
          (λ (o : Option MetaRow).
            decide_each es look
              (decide_row (is_covered covered_buckets (bucket_for e.0)) (xxh3 e.0) e o d))
          h.0
        ∙ each_same es look other
            (decide_row (is_covered covered_buckets (bucket_for e.0)) (xxh3 e.0) e
              (other (xxh3 e.0)) d)
            h.1)
  ]

  erased_same :
      (es : List Entry) (rows : List MetaRow) (h : ℕ)
      → contains (hashes es) h ≡ false
      → Each (λ e. find_row (erase_row rows h) (xxh3 e.0) ≡ find_row rows (xxh3 e.0)) es
  erased_same [] rows h c = tt
  erased_same (e ∷ es) rows h c = (
    find_row-erase_row rows h (xxh3 e.0) (ground (arith, c)),
    erased_same es rows h (ground (arith, c)),
  )

  looked_same :
      (es : List Entry) (rows : List MetaRow)
      → Each (λ e. find_row (index_rows [] rows) (xxh3 e.0) ≡ last_row rows (xxh3 e.0) none) es
  looked_same [] rows = tt
  looked_same (e ∷ es) rows = (
    find_row-index_rows [] rows (xxh3 e.0) ∙ ap (last_row rows (xxh3 e.0)) (empty_row (xxh3 e.0)),
    looked_same es rows,
  )

  scanned :
      (es : List Entry) (rows : List MetaRow) (d : MetaDiff)
      → UniqueRows rows
      → HashesDiffer es
      → scan_entries xxh3 bucket_for divergent covered_buckets es rows d
        ≡ (decide_each es (find_row rows) d, rows_without (compared es) rows)
  unfolding scan_entries decide_each compared
  scanned [] rows d u h = ap (λ (t : List MetaRow). (d, t)) (all_left rows)
  scanned (e ∷ es) rows d u h = elim (Bool-cases (contains divergent (bucket_for e.0))) [
    | inr f ↦ rw f (scanned es rows d u h.1)
    | inl f ↦ rw f (
        let next : MetaDiff =
          decide_row (is_covered covered_buckets (bucket_for e.0)) (xxh3 e.0) e
            (find_row rows (xxh3 e.0)) d in
        scanned es (erase_row rows (xxh3 e.0)) next (erase_row-UniqueRows rows (xxh3 e.0) u) h.1
        ∙ ap (λ (t : MetaDiff). (t, rows_without (compared es) (erase_row rows (xxh3 e.0))))
            (each_same es (find_row (erase_row rows (xxh3 e.0))) (find_row rows) next
              (erased_same es rows (xxh3 e.0) h.0))
        ∙ ap (λ (t : List MetaRow). (decide_each es (find_row rows) next, t))
            (without-erase_row (xxh3 e.0) (compared es) rows u))
  ]

  -- Where no two entries of the store share a hash and some bucket diverges, the pass with erasure is a
  -- decision for each entry on its own, and then one for each row with no hash of those entries.
  pub diff_rows-decide_each :
      (es : List Entry) (rows : List MetaRow)
      → no_buckets divergent ≡ false
      → HashesDiffer es
      → diff_rows xxh3 bucket_for divergent covered_buckets es rows
        ≡ sorted (
            fetch_rest xxh3 bucket_for divergent covered_buckets
              (rows_without (compared es) (index_rows [] rows))
              (decide_each es (λ h. last_row rows h none) (record { need = []; have = [] })))
  unfolding diff_rows
  diff_rows-decide_each es rows e h =
      let none_yet : MetaDiff = record { need = []; have = [] } in
      let m : List MetaRow = index_rows [] rows in
      rw e (
        ap
          (λ (p : MetaDiff × List MetaRow).
            sorted (fetch_rest xxh3 bucket_for divergent covered_buckets p.1 p.0))
          (scanned es m none_yet (index_rows-UniqueRows [] rows tt) h)
        ∙ ap
            (λ (d : MetaDiff). sorted (
              fetch_rest xxh3 bucket_for divergent covered_buckets (rows_without (compared es) m)
                d))
            (each_same es (find_row m) (λ k. last_row rows k none) none_yet (looked_same es rows)))
