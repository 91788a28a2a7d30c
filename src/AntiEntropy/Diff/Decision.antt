-- ===== src/AntiEntropy/Diff/Decision.antt =====
-- What diffRows answers for a hash, from the entry of the store and the last row that have it.
use mathlib.Core.List.{append-nil}
use cinder.Prelude.{
  true, ℕ, ◌+◌, ◌≡◌, refl, sym, ap, ◌∙◌, Bool, false, ◌&&◌, Option, none, some, is_some, List, [],
  ◌∷◌, ◌++◌, Bytes, ◌==◌, ==_iff, if◌then◌else◌, arith, subst, Bool-cases, inl, inr,
}
use cinder.Lww.{bit}
use cinder.AntiEntropy.{MetaRow}
use cinder.AntiEntropy.Diff.{
  MetaDiff, Entry, find_row, index_rows, contains, is_covered, decide_row, fetch_rest, diff_rows,
  no_buckets,
}
use cinder.AntiEntropy.Diff.Single.{
  last_row, UniqueRows, rows_without, hashes, compared, HashesDiffer, decide_each,
  find_row-index_rows, index_rows-UniqueRows, diff_rows-decide_each,
}
use cinder.AntiEntropy.Diff.Answers.{
  occurrences, keys_sent, complete, is_covered-complete, occurrences-append,
  occurrences-sort_hashes, keys_sent-sort_pairs, find_row-rows_without, rows_without-UniqueRows,
  older, lacking, key_if, need-decide_row, have-decide_row,
}
use cinder.AntiEntropy.Diff.Sorted.{
  is_ascending, first_hashes, ascending-sort_hashes, ascending-sort_pairs,
}

-- What the partner's row alone decides, where no entry has its hash.
abbrev left_over : List ℕ → Option MetaRow → Bool
left_over covered_buckets none = false
left_over covered_buckets (some r) = complete covered_buckets r.bucket

module _ (xxh3 : Bytes → ℕ) (bucket_for : Bytes → ℕ) (divergent covered_buckets : List ℕ) where
  -- The first entry in a divergent bucket that has the hash.
  unfoldable pub entry_with : List Entry → ℕ → Option Entry
  entry_with [] h = none
  entry_with (e ∷ es) h =
      if contains divergent (bucket_for e.0) && (xxh3 e.0 == h) then some e else entry_with es h

  -- Whether the hash is fetched, and the keys that are sent with it.
  abbrev pub is_fetched : Option Entry → Option MetaRow → Bool
  is_fetched none row = left_over covered_buckets row
  is_fetched (some e) row = older e row

  abbrev pub sent_for : Option Entry → Option MetaRow → List Bytes
  sent_for none row = []
  sent_for (some e) row = key_if (lacking (complete covered_buckets (bucket_for e.0)) e row) e.0

  abbrev older_one : Option Entry → Option MetaRow → Bool
  older_one none row = false
  older_one (some e) row = older e row

  no_entry :
      (es : List Entry) (h : ℕ)
      → contains (hashes xxh3 bucket_for divergent covered_buckets es) h ≡ false
      → entry_with es h ≡ none
  unfolding entry_with
  no_entry [] h c = refl
  no_entry (e ∷ es) h c = ground (arith, c, no_entry es h)

  compared-entry_with :
      (es : List Entry) (h : ℕ)
      → contains (compared xxh3 bucket_for divergent covered_buckets es) h
        ≡ is_some (entry_with es h)
  unfolding compared entry_with
  compared-entry_with [] h = refl
  compared-entry_with (e ∷ es) h = ground (arith, compared-entry_with es h)

  abbrev Decided : List Entry → (ℕ → Option MetaRow) → MetaDiff → ℕ → Type 0
  Decided es look d h =
      (occurrences (decide_each xxh3 bucket_for divergent covered_buckets es look d).need h
        ≡ occurrences d.need h + bit (older_one (entry_with es h) (look h)))
      × (keys_sent (decide_each xxh3 bucket_for divergent covered_buckets es look d).have h
          ≡ keys_sent d.have h ++ sent_for (entry_with es h) (look h))

  decide_each-Decided :
      (es : List Entry) (look : ℕ → Option MetaRow) (d : MetaDiff) (h : ℕ)
      → HashesDiffer xxh3 bucket_for divergent covered_buckets es
      → Decided es look d h
  unfolding decide_each entry_with
  decide_each-Decided [] look d h u = (omega arith, sym (append-nil (keys_sent d.have h)))
  decide_each-Decided (e ∷ es) look d h u =
      let k = xxh3 e.0 in
      let b = bucket_for e.0 in
      let sends = lacking (is_covered covered_buckets b) e (look k) in
      let next = decide_row (is_covered covered_buckets b) k e (look k) d in
      elim (Bool-cases (contains divergent b)) [
        | inr off ↦ rw off (decide_each-Decided es look d h u.1)
        | inl on ↦
            let later = decide_each-Decided es look next h u.1 in
            let fetched = need-decide_row (is_covered covered_buckets b) k e (look k) d h in
            let sent = have-decide_row (is_covered covered_buckets b) k e (look k) d h in
            elim (Bool-cases (k == h)) [
              | inr other ↦ rw on (
                  rw other (
                    later.0 ∙ ground (arith, fetched, other),
                    later.1
                        ∙ ap (λ (xs : List Bytes). xs ++ sent_for (entry_with es h) (look h))
                            (sent
                              ∙ ap (λ (t : Bool). keys_sent d.have h ++ key_if (t && sends) e.0)
                                  other
                              ∙ append-nil (keys_sent d.have h)),
                  ))
              | inl same ↦
                  let at_h : k ≡ h = (==_iff k h).0 same in
                  let gone : entry_with es h ≡ none = no_entry es h (
                    subst
                      (λ (n : ℕ).
                        contains (hashes xxh3 bucket_for divergent covered_buckets es) n ≡ false)
                      at_h u.0) in
                  let one_row = ap look at_h in
                  rw on (
                    rw same (
                      later.0
                          ∙ ap
                              (λ (o : Option Entry).
                                occurrences next.need h + bit (older_one o (look h)))
                              gone
                          ∙ ground (arith, fetched, same, ap (older e) one_row),
                      later.1
                          ∙ ap (λ (o : Option Entry). keys_sent next.have h ++ sent_for o (look h))
                              gone
                          ∙ append-nil (keys_sent next.have h)
                          ∙ sent
                          ∙ ap (λ (t : Bool). keys_sent d.have h ++ key_if (t && sends) e.0) same
                          ∙ ap
                              (λ (t : Bool).
                                keys_sent d.have h ++ key_if (lacking t e (look k)) e.0)
                              (is_covered-complete covered_buckets b)
                          ∙ ap
                              (λ (o : Option MetaRow).
                                keys_sent d.have h
                                ++ key_if (lacking (complete covered_buckets b) e o) e.0)
                              one_row,
                    ))
            ]
      ]

  fetched_rest :
      (rs : List MetaRow) (d : MetaDiff) (h : ℕ)
      → UniqueRows rs
      → (occurrences (fetch_rest xxh3 bucket_for divergent covered_buckets rs d).need h
          ≡ occurrences d.need h + bit (left_over covered_buckets (find_row rs h)))
        × ((fetch_rest xxh3 bucket_for divergent covered_buckets rs d).have ≡ d.have)
  unfolding fetch_rest find_row
  fetched_rest [] d h u = (omega arith, refl)
  fetched_rest (r ∷ rs) d h u =
      let next : MetaDiff =
        if is_covered covered_buckets r.bucket
        then record d { need = d.need ++ (r.key_hash ∷ []) }
        else d in
      let (later, same) = fetched_rest rs next h u.1 in
      (
        elim (Bool-cases (r.key_hash == h)) [
          | inl here ↦
              let gone : find_row rs h ≡ none =
                ap (find_row rs) (sym ((==_iff r.key_hash h).0 here)) ∙ u.0 in
              ground (
                arith,
                later,
                gone,
                here,
                is_covered-complete covered_buckets r.bucket,
                occurrences-append d.need (r.key_hash ∷ []) h,
              )
          | inr other ↦ ground (
            arith,
            later,
            other,
            is_covered-complete covered_buckets r.bucket,
            occurrences-append d.need (r.key_hash ∷ []) h,
          )
        ],
        ground (arith, same),
      )

  both :
      (a : Option Entry) (row rest : Option MetaRow)
      → rest ≡ (if is_some a then none else row)
      → bit (older_one a row) + bit (left_over covered_buckets rest) ≡ bit (is_fetched a row)
  both none row rest h = ground (arith, h)
  both (some e) row rest h = ground (arith, h)

  -- Where no two entries of the store share a hash and some bucket diverges, for every hash h: `need`
  -- holds h once if the last of the partner's rows with h has a higher version than the entry with h in a
  -- divergent bucket, or the same and a higher writer, or the same of both and is a tombstone where the
  -- entry is none, or, where there is no such entry, if that row's bucket is complete; and not at all
  -- otherwise. `have` sends with h the key of that entry, once, if the entry is newer than that row in the
  -- same sense, or, where there is no such row, if the entry's bucket is complete; and no key otherwise. A
  -- bucket is complete if covered_buckets lists it or is empty. Both lists are in ascending order of
  -- their hashes.
  pub diff_rows_lem :
      (es : List Entry) (rows : List MetaRow) (h : ℕ)
      → no_buckets divergent ≡ false
      → HashesDiffer xxh3 bucket_for divergent covered_buckets es
      → (occurrences (diff_rows xxh3 bucket_for divergent covered_buckets es rows).need h
          ≡ bit (is_fetched (entry_with es h) (last_row rows h none)))
        × (keys_sent (diff_rows xxh3 bucket_for divergent covered_buckets es rows).have h
            ≡ sent_for (entry_with es h) (last_row rows h none))
        × (is_ascending (diff_rows xxh3 bucket_for divergent covered_buckets es rows).need ≡ true)
        × (is_ascending
              (first_hashes (diff_rows xxh3 bucket_for divergent covered_buckets es rows).have)
            ≡ true)
  unfolding find_row
  diff_rows_lem es rows h e u =
      let m = index_rows [] rows in
      let hs = compared xxh3 bucket_for divergent covered_buckets es in
      let start : MetaDiff = record { need = []; have = [] } in
      let d =
        decide_each xxh3 bucket_for divergent covered_buckets es (λ k. last_row rows k none)
          start in
      let last = fetch_rest xxh3 bucket_for divergent covered_buckets (rows_without hs m) d in
      let split = diff_rows-decide_each xxh3 bucket_for divergent covered_buckets es rows e u in
      let (fetched, sent) = decide_each-Decided es (λ k. last_row rows k none) start h u in
      let (rest, kept) =
        fetched_rest (rows_without hs m) d h
          (rows_without-UniqueRows hs m (index_rows-UniqueRows [] rows tt)) in
      let found : find_row (rows_without hs m) h
          ≡ (if is_some (entry_with es h) then none else last_row rows h none) =
        find_row-rows_without hs m h
        ∙ ap (λ (t : Bool). if t then none else find_row m h) (compared-entry_with es h)
        ∙ ap (λ (o : Option MetaRow). if is_some (entry_with es h) then none else o)
            (find_row-index_rows [] rows h) in
      (
        ap (λ (x : MetaDiff). occurrences x.need h) split
            ∙ occurrences-sort_hashes last.need h
            ∙ rest
            ∙ ap (λ (n : ℕ). n + bit (left_over covered_buckets (find_row (rows_without hs m) h)))
                fetched
            ∙ omega (
              arith,
              both (entry_with es h) (last_row rows h none) (find_row (rows_without hs m) h) found,
            ),
        ap (λ (x : MetaDiff). keys_sent x.have h) split
            ∙ keys_sent-sort_pairs last.have h
            ∙ ap (λ (x : List (ℕ × Bytes)). keys_sent x h) kept
            ∙ sent,
        ap (λ (x : MetaDiff). is_ascending x.need) split ∙ ascending-sort_hashes last.need,
        ap (λ (x : MetaDiff). is_ascending (first_hashes x.have)) split
            ∙ ascending-sort_pairs last.have,
      )
