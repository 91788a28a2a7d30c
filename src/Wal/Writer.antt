-- ===== src/Wal/Writer.antt =====
-- A batch is appended like its records one by one, in one write.
use mathlib.Core.List.{append_assoc, append-nil}
use cinder.Prelude.{
  ℕ, ◌-◌, ◌≡◌, refl, sym, ap, ◌∙◌, Bool, true, false, ◌||◌, List, [], ◌∷◌, ◌++◌, Bytes, length,
  length-append, arith, Bool-cases, inl, inr,
}
use cinder.Status.{Result, ok, err, invalid, ◌>>=◌}
use cinder.Wal.{
  WalEntry, encode_record, encode_all, too_large, append, any_too_large, total_record_size,
  append_batch,
}
use cinder.Wal.Records.{length-encode_record}

or_left : (a b : Bool) → (a || b) ≡ false → a ≡ false
or_left a b h = ground arith

or_right : (a b : Bool) → (a || b) ≡ false → b ≡ false
or_right a b h = ground arith

or_only : (a b : Bool) → a ≡ false → (a || b) ≡ true → b ≡ true
or_only a b g h = ground arith

module _ (xxh3 : Bytes → ℕ) where
  -- append() for each entry in turn, up to the first that fails.
  unfoldable pub append_each : Bytes → List WalEntry → Result Bytes
  append_each file [] = ok file
  append_each file (e ∷ es) = append xxh3 file e >>= λ longer. append_each longer es

  length-encode_all : (es : List WalEntry) → length (encode_all xxh3 es) ≡ total_record_size es
  unfolding encode_all
  length-encode_all [] = refl
  length-encode_all (e ∷ es) = omega (
    arith,
    length-append (encode_record xxh3 e) (encode_all xxh3 es),
    length-encode_record xxh3 e,
    length-encode_all es,
  )

  append_each_fits :
      (es : List WalEntry) (file : Bytes)
      → any_too_large es ≡ false
      → append_each file es ≡ ok (file ++ encode_all xxh3 es)
  unfolding append_each append encode_all
  append_each_fits [] file h = ap (λ b. ok b) (sym (append-nil file))
  append_each_fits (e ∷ es) file h =
      rw (or_left (too_large e) (any_too_large es) h, append_each)
        (append_each_fits es (file ++ encode_record xxh3 e)
            (or_right (too_large e) (any_too_large es) h)
          ∙ ap (λ b. ok b) (append_assoc file (encode_record xxh3 e) (encode_all xxh3 es)))

  append_each_refuses :
      (es : List WalEntry) (file : Bytes)
      → any_too_large es ≡ true
      → append_each file es ≡ err (invalid "WAL entry too large")
  unfolding append_each append
  append_each_refuses [] file h = absurd (cc)
  append_each_refuses (e ∷ es) file h = elim (Bool-cases (too_large e)) [
    | inl big ↦ rw (big, append_each) refl
    | inr fits ↦
        rw (fits, append_each)
          (append_each_refuses es (file ++ encode_record xxh3 e)
            (or_only (too_large e) (any_too_large es) fits h))
  ]

  -- For every file and list of entries: a batch leaves the file that appending the entries one by one
  -- leaves, and reports the number of bytes that were added; where an entry is too large, both fail with
  -- the same error.
  pub batch_each :
      (file : Bytes) (es : List WalEntry)
      → append_batch xxh3 file es
        ≡ (append_each file es >>= λ out. ok (out, length out - length file))
  unfolding append_batch
  batch_each file es = elim (Bool-cases (any_too_large es)) [
    | inl big ↦ rw (append_each_refuses es file big) (rw (big) refl)
    | inr fits ↦ rw (append_each_fits es file fits) (
        rw (fits) (
          ap (λ (n : ℕ). ok (file ++ encode_all xxh3 es, n))
            (omega (arith, length-append file (encode_all xxh3 es), length-encode_all es))))
  ]
