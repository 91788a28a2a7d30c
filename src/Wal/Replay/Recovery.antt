-- ===== src/Wal/Replay/Recovery.antt =====
-- A log goes on after a crash: replay, the cut of its torn tail, and new records.
use mathlib.Core.List.{append_assoc, append-nil}
use cinder.Prelude.{
  ℕ, ◌^◌, ◌<◌, ◌≤◌, ◌≡◌, refl, sym, ap, ◌∙◌, Option, some, List, [], ◌∷◌, ◌++◌, Bytes, length, take,
  length-append, take-append, ltb, ltb→le, arith, Bool-cases, inl, inr,
}
use cinder.Status.{Result, ok}
use cinder.Clock.{Clock}
use cinder.Buffer.{le, of_le, read}
use cinder.Wal.{
  WalEntry, header, encode_record, encode_all, append_batch, any_too_large, open_append,
  parse_wal_format, encoded_record_size,
}
use cinder.Wal.Records.{IsTyped, length-encode_record}
use cinder.Wal.Replay.{CacheStore, ReplayStats, replay_entries, replay_wal, heal}
use cinder.Wal.Replay.Steps.{AllTyped}
use cinder.Wal.Replay.Crash.{replay_crash, valid_size}

open_append-header : (body : Bytes) → open_append (header ++ body) ≡ header ++ body
unfolding open_append parse_wal_format read of_le le
open_append-header body = ground arith

open_append-empty : open_append [] ≡ header
unfolding open_append read le
open_append-empty = refl

encode_all-append :
    (xxh3 : Bytes → ℕ) (es fs : List WalEntry)
    → encode_all xxh3 es ++ encode_all xxh3 fs ≡ encode_all xxh3 (es ++ fs)
unfolding encode_all
encode_all-append xxh3 [] fs = refl
encode_all-append xxh3 (e ∷ es) fs =
    append_assoc (encode_record xxh3 e) (encode_all xxh3 es) (encode_all xxh3 fs)
    ∙ ap (λ b. encode_record xxh3 e ++ b) (encode_all-append xxh3 es fs)

AllTyped-append : (es fs : List WalEntry) → AllTyped es → AllTyped fs → AllTyped (es ++ fs)
AllTyped-append [] fs t u = u
AllTyped-append (e ∷ es) fs t u = (t.0, AllTyped-append es fs t.1 u)

cut_off :
    (pre tail : Bytes) (n : ℕ)
    → heal (pre ++ tail) (record { records = n; valid_bytes = length pre }) ≡ pre
unfolding heal
cut_off pre tail n = elim (Bool-cases (ltb (length pre) (length (pre ++ tail)))) [
  | inl more ↦ rw more (take-append pre tail)
  | inr same ↦ rw same (
      nothing_behind pre tail
        (omega (arith, ltb→le (length pre) (length (pre ++ tail)) same, length-append pre tail)))
]
  where
    nothing_behind : (p t : Bytes) → length t ≤ 0 → p ++ t ≡ p
    nothing_behind p [] h = append-nil p
    nothing_behind p (x ∷ xs) h = absurd (omega (arith, h))

cut_all :
    (body : Bytes) (n : ℕ) → heal (header ++ body) (record { records = n; valid_bytes = 0 }) ≡ []
unfolding heal le
cut_all body n = ground arith

nothing_encoded : (xxh3 : Bytes → ℕ) → header ++ encode_all xxh3 [] ≡ header
unfolding encode_all
nothing_encoded xxh3 = append-nil header

-- The file that recovery goes on with.
healed :
    (xxh3 : Bytes → ℕ) (es : List WalEntry) (tail : Bytes) (n : ℕ)
    → open_append (
        heal
          (header ++ (encode_all xxh3 es ++ tail))
          (record { records = n; valid_bytes = valid_size xxh3 es }))
      ≡ header ++ encode_all xxh3 es
healed xxh3 [] tail n =
    ap open_append (cut_all (encode_all xxh3 [] ++ tail) n)
    ∙ open_append-empty
    ∙ sym (nothing_encoded xxh3)
healed xxh3 (e ∷ es) tail n =
    ap (λ b. open_append (heal b (record { records = n; valid_bytes = valid_size xxh3 (e ∷ es) })))
      (sym (append_assoc header (encode_all xxh3 (e ∷ es)) tail))
    ∙ ap open_append (cut_off (header ++ encode_all xxh3 (e ∷ es)) tail n)
    ∙ open_append-header (encode_all xxh3 (e ∷ es))

record_positive : (xxh3 : Bytes → ℕ) (e : WalEntry) → 0 < length (encode_record xxh3 e)
unfolding encoded_record_size
record_positive xxh3 e = omega (arith, length-encode_record xxh3 e)

batch_out :
    (xxh3 : Bytes → ℕ) (file out : Bytes) (fs : List WalEntry) (size : ℕ)
    → append_batch xxh3 file fs ≡ ok (out, size)
    → out ≡ file ++ encode_all xxh3 fs
unfolding append_batch
batch_out xxh3 file out fs size h = elim (Bool-cases (any_too_large fs)) [
  | inl big ↦ ground (arith, h, big)
  | inr fits ↦ ground (arith, h, fits)
]

module _ {ℓ} {S : Type ℓ} (store : CacheStore S) (xxh3 : Bytes → ℕ) (clock : Clock)
    (digests : (b : Bytes) → xxh3 b < 2 ^ 64) where
  -- For every store, digest function of 64 bits and clock: where a log with a header and whole records,
  -- cut short inside the next one, is replayed, its torn tail is cut off as the replay says, the file is
  -- opened in append mode, and a batch is appended that is not refused, the next replay gives the old
  -- whole records and those of the batch, in order, and no error, also where there were no old ones. All
  -- records have fields in the ranges of their types.
  pub recovery_continues :
      (es fs : List WalEntry) (e : WalEntry) (n : ℕ) (s t u : S) (stats : ReplayStats) (out : Bytes)
      (size : ℕ)
      → AllTyped es
      → AllTyped fs
      → IsTyped e
      → n < length (encode_record xxh3 e)
      → replay_wal store xxh3 clock s
          (header ++ (encode_all xxh3 es ++ take n (encode_record xxh3 e)))
        ≡ some (t, ok stats)
      → append_batch xxh3
          (open_append
            (heal (header ++ (encode_all xxh3 es ++ take n (encode_record xxh3 e))) stats))
          fs
        ≡ ok (out, size)
      → replay_wal store xxh3 clock u out
        ≡ some (
          replay_entries store xxh3 clock u (es ++ fs),
          ok (record { records = length (es ++ fs); valid_bytes = valid_size xxh3 (es ++ fs) }),
        )
  recovery_continues es fs e n s t u stats out size a b c h first batch =
      let tail = take n (encode_record xxh3 e) in
      let said : stats ≡ record { records = length es; valid_bytes = valid_size xxh3 es } =
        same_stats (sym first ∙ replay_crash store xxh3 clock digests es e n s a c h) in
      let file : out ≡ header ++ (encode_all xxh3 (es ++ fs) ++ []) =
        batch_out xxh3 _ out fs size batch
        ∙ ap
            (λ z.
              open_append (heal (header ++ (encode_all xxh3 es ++ tail)) z) ++ encode_all xxh3 fs)
            said
        ∙ ap (λ z. z ++ encode_all xxh3 fs) (healed xxh3 es tail (length es))
        ∙ append_assoc header (encode_all xxh3 es) (encode_all xxh3 fs)
        ∙ ap (λ z. header ++ z)
            (encode_all-append xxh3 es fs ∙ sym (append-nil (encode_all xxh3 (es ++ fs)))) in
      ap (λ z. replay_wal store xxh3 clock u z) file
      ∙ replay_crash store xxh3 clock digests (es ++ fs) e 0 u (AllTyped-append es fs a b) c
          (record_positive xxh3 e)
    where
      same_stats :
          {x y : S} {p q : ReplayStats}
          → ◌≡◌ {A = Option (S × Result ReplayStats)} (some (x, ok p)) (some (y, ok q))
          → p ≡ q
      same_stats k = cc
