-- ===== src/Snapshot/Files.antt =====
-- A whole snapshot file: how the chunks make it up, and what is read from it and from its prefixes.
use cinder.Prelude.{
  ℕ, suc, ◌-◌, ◌*◌, ◌/◌, ◌^◌, ◌<◌, ◌≤◌, ◌≡◌, refl, ap, ◌∙◌, not, List, [], ◌∷◌, ◌++◌, Bytes, length,
  take, length-append, ltb, ltb→le, ◌==◌, arith, Bool-cases, inl, inr, ◌⊎◌,
}
use cinder.Status.{Result, Error, Errc, ok, err, invalid}
use cinder.Buffer.{le, read, write_list}
use cinder.Buffer.Laws.{read-Reads, length-le, take-append_less, take-append_more, Reads}
use cinder.Buffer.Lists.{Each, IsU64}
use cinder.Snapshot.{
  SnapshotEntry, SnapshotFormat, format_v2, Step, Header, ◌>>=◌, field, check, corrupt, done,
  read_snapshot_entry, read_entries, read_format, read_snapshot_header, count_fits, read_body,
  read_all, min_entry_bytes, encode_snapshot_entry, snapshot_header, entry_size, k_snapshot_magic,
  parse_snapshot_format,
}
use cinder.Snapshot.Parses.{Parses, field-Parses, check-Parses, bind-Parses, last-Parses}
use cinder.Snapshot.RoundTrip.{IsTypedEntry, entry-Parses}

abbrev pub encoded : List SnapshotEntry → Bytes
encoded es = write_list encode_snapshot_entry es

read_entries_ok :
    (n : ℕ) (r rest : Bytes) (e : SnapshotEntry)
    → read_snapshot_entry format_v2 r ≡ ok (e, rest)
    → read_entries (suc n) format_v2 r
      ≡ (e ∷ (read_entries n format_v2 rest).0, (read_entries n format_v2 rest).1)
unfolding read_entries
read_entries_ok n r rest e h = rw (h, read_entries) refl

read_entries_err :
    (n : ℕ) (r : Bytes) (e : Error)
    → read_snapshot_entry format_v2 r ≡ err e
    → read_entries (suc n) format_v2 r ≡ ([], err e)
unfolding read_entries
read_entries_err n r e h = rw (h, read_entries) refl

read_entries-encoded :
    (es : List SnapshotEntry)
    → Each IsTypedEntry es
    → read_entries (length es) format_v2 (encoded es) ≡ (es, ok tt)
unfolding read_entries
read_entries-encoded [] t = refl
read_entries-encoded (e ∷ es) t =
    read_entries_ok (length es) _ (encoded es) e ((entry-Parses e t.0).whole (encoded es))
    ∙ ap (λ (p : List SnapshotEntry × Result (Unit {0})). (e ∷ p.0, p.1))
        (read_entries-encoded es t.1)

read_entries_cut :
    (es : List SnapshotEntry) (n : ℕ)
    → Each IsTypedEntry es
    → n < length (encoded es)
    → (e : Error) × ((read_entries (length es) format_v2 (take n (encoded es))).1 ≡ err e)
read_entries_cut [] n t l = absurd (omega (arith, l))
read_entries_cut (e ∷ es) n t l = elim (Bool-cases (ltb n (length (encode_snapshot_entry e)))) [
  | inl less ↦
      let (x, h) = (entry-Parses e t.0).cut n (ground (arith, less)) in
      (
        x,
        ap (λ (r : Bytes). (read_entries (suc (length es)) format_v2 r).1)
              (take-append_less n (encode_snapshot_entry e) (encoded es) (ground (arith, less)))
            ∙ ap (λ (p : List SnapshotEntry × Result (Unit {0})). p.1)
                (read_entries_err (length es) _ x h),
      )
  | inr more ↦
      let k : ℕ = n - length (encode_snapshot_entry e) in
      let (x, h) = read_entries_cut es k t.1 (
        omega (
          arith,
          l,
          ltb→le n (length (encode_snapshot_entry e)) more,
          length-append (encode_snapshot_entry e) (encoded es),
        )) in
      (
        x,
        ap (λ (r : Bytes). (read_entries (suc (length es)) format_v2 r).1)
              (take-append_more n (encode_snapshot_entry e) (encoded es)
                (ltb→le n (length (encode_snapshot_entry e)) more))
            ∙ ap (λ (p : List SnapshotEntry × Result (Unit {0})). p.1)
                (read_entries_ok (length es) _ (take k (encoded es)) e
                  ((entry-Parses e t.0).whole (take k (encoded es))))
            ∙ h,
      )
]

length-encode_snapshot_entry : (e : SnapshotEntry) → length (encode_snapshot_entry e) ≡ entry_size e
unfolding encode_snapshot_entry entry_size
length-encode_snapshot_entry e = simp (length-append, length-le) (omega arith)

length-encoded : (es : List SnapshotEntry) → 42 * length es ≤ length (encoded es)
unfolding entry_size
length-encoded [] = omega arith
length-encoded (e ∷ es) = omega (
  arith,
  length-encoded es,
  length-encode_snapshot_entry e,
  length-append (encode_snapshot_entry e) (encoded es),
)

format-Parses : Parses read_format format_v2 (le 4 2)
unfolding read_format parse_snapshot_format
format-Parses = record {
  whole = λ rest. rw (r.whole rest, read_format) refl;
  cut = λ n l.
      let (s, e) = r.cut n l in
      (
        record { code = Errc.corrupt_data; message = "unsupported snapshot format version" },
        rw (e, read_format) refl,
      );
}
  where
    r : Reads (read 4) 2 (le 4 2)
    r = read-Reads 4 2 (omega arith)

abbrev head_of : ℕ → ℕ → Header
head_of next_version count = record {
  format = format_v2;
  next_version = next_version;
  entry_count = count;
}

header-Parses :
    (next_version count : ℕ)
    → IsU64 next_version
    → count < 2 ^ 32
    → Parses read_snapshot_header (head_of next_version count) (snapshot_header next_version count)
unfolding read_snapshot_header snapshot_header
header-Parses v c h k =
    let counted : SnapshotFormat → ℕ → Step Header = λ format next_version.
      field (read 4) "truncated snapshot entry count" >>= (λ entry_count.
        done
          (record { format = format; next_version = next_version; entry_count = entry_count })) in
    let versioned : SnapshotFormat → Step Header = λ format.
      field (read 8) "truncated snapshot header"
      >>= (λ next_version. counted format next_version) in
    bind-Parses _ _ k_snapshot_magic _ _ _
      (field-Parses (read 4) "invalid snapshot magic" k_snapshot_magic _
        (read-Reads 4 k_snapshot_magic (omega arith)))
      (bind-Parses _ (λ (u : Unit {0}). read_format >>= versioned) tt _ [] _
        (check-Parses (k_snapshot_magic == k_snapshot_magic) (corrupt "invalid snapshot magic")
          refl)
        (bind-Parses read_format versioned format_v2 _ _ _ format-Parses (
          bind-Parses _ (λ next_version. counted format_v2 next_version) v _ _ _
            (field-Parses (read 8) "truncated snapshot header" v _ (read-Reads 8 v h))
            (last-Parses _ (λ entry_count. done (head_of v entry_count)) c _ _
              (field-Parses (read 4) "truncated snapshot entry count" c _ (read-Reads 4 c k))
              (λ r. refl)))))

count_ok :
    (v : ℕ) (es : List SnapshotEntry) (r : Bytes)
    → 42 * length es ≤ length r
    → count_fits (head_of v (length es)) r ≡ ok (tt, r)
unfolding count_fits check
count_ok v es r h = ground (arith, h)

body_whole :
    (v : ℕ) (es : List SnapshotEntry)
    → Each IsTypedEntry es
    → read_body (head_of v (length es)) (encoded es)
      ≡ ok (record { next_version = v; entries = es })
unfolding read_body
body_whole v es t =
    rw (count_ok v es (encoded es) (length-encoded es), read_body)
      (rw
        (
          ap (λ (p : List SnapshotEntry × Result (Unit {0})). p.1) (read_entries-encoded es t),
          read_body,
        )
        (ap
          (λ (p : List SnapshotEntry × Result (Unit {0})).
            ok (record { next_version = v; entries = p.0 }))
          (read_entries-encoded es t)))

count_fits_same :
    (h : Header) (r : Bytes)
    → (count_fits h r ≡ ok (tt, r)) ⊎ ((e : Error) × (count_fits h r ≡ err e))
unfolding count_fits check
count_fits_same h r =
    elim (Bool-cases (not (ltb (length r / min_entry_bytes h.format) h.entry_count))) [
      | inl t ↦ inl (rw t refl)
      | inr f ↦ inr (invalid "entry_count exceeds file size", rw f refl)
    ]

body_cut :
    (v : ℕ) (es : List SnapshotEntry) (n : ℕ)
    → Each IsTypedEntry es
    → n < length (encoded es)
    → (e : Error) × (read_body (head_of v (length es)) (take n (encoded es)) ≡ err e)
unfolding read_body
body_cut v es n t l = elim (count_fits_same (head_of v (length es)) (take n (encoded es))) [
  | inr (e, f) ↦ (e, rw (f, read_body) refl)
  | inl f ↦
      let (e, g) = read_entries_cut es n t l in (e, rw (f, read_body) (rw (g, read_body) refl))
]

-- The bytes of a snapshot.
abbrev pub snapshot_file : ℕ → List SnapshotEntry → Bytes
snapshot_file v es = snapshot_header v (length es) ++ encoded es

all_ok :
    (r rest : Bytes) (h : Header)
    → read_snapshot_header r ≡ ok (h, rest)
    → read_all r ≡ read_body h rest
unfolding read_all
all_ok r rest h e = rw (e, read_all) refl

all_err : (r : Bytes) (e : Error) → read_snapshot_header r ≡ err e → read_all r ≡ err e
unfolding read_all
all_err r e h = rw (h, read_all) refl

pub read_all-file :
    (v : ℕ) (es : List SnapshotEntry)
    → IsU64 v
    → length es < 2 ^ 32
    → Each IsTypedEntry es
    → read_all (snapshot_file v es) ≡ ok (record { next_version = v; entries = es })
read_all-file v es h k t =
    all_ok _ (encoded es) (head_of v (length es))
      ((header-Parses v (length es) h k).whole (encoded es))
    ∙ body_whole v es t

pub read_all_cut :
    (v : ℕ) (es : List SnapshotEntry) (n : ℕ)
    → IsU64 v
    → length es < 2 ^ 32
    → Each IsTypedEntry es
    → n < length (snapshot_file v es)
    → (e : Error) × (read_all (take n (snapshot_file v es)) ≡ err e)
read_all_cut v es n h k t l =
    let p : Parses read_snapshot_header (head_of v (length es)) (snapshot_header v (length es)) =
      header-Parses v (length es) h k in
    let pre : Bytes = snapshot_header v (length es) in
    elim (Bool-cases (ltb n (length pre))) [
      | inl less ↦
          let (e, f) = p.cut n (ground (arith, less)) in
          (
            e,
            ap read_all (take-append_less n pre (encoded es) (ground (arith, less)))
                ∙ all_err _ e f,
          )
      | inr more ↦
          let m : ℕ = n - length pre in
          let (e, f) =
            body_cut v es m t
              (omega (arith, l, ltb→le n (length pre) more, length-append pre (encoded es))) in
          (
            e,
            ap read_all (take-append_more n pre (encoded es) (ltb→le n (length pre) more))
                ∙ all_ok _ (take m (encoded es)) (head_of v (length es))
                    (p.whole (take m (encoded es)))
                ∙ f,
          )
    ]
