-- ===== src/Wal/Replay/Crash.antt =====
-- Replaying a log that a crash cut short, and one with a damaged record.
use mathlib.Core.List.{append_assoc}
use cinder.Prelude.{
  ℕ, zero, suc, ◌+◌, ◌-◌, ◌^◌, ◌<◌, ◌≤◌, ◌≡◌, refl, sym, ap, ◌∙◌, false, some, List, [], ◌∷◌, ◌++◌,
  Bytes, length, take, length-append, length-take, ◌==◌, arith,
}
use cinder.Status.{Errc, ok, err}
use cinder.Buffer.{le, of_le, read, torn, bad}
use cinder.Buffer.Laws.{length-le}
use cinder.Wal.{
  WalEntry, header, record_bytes, encode_record, encode_all, encoded_record_size, has_more,
  open_reader, parse_wal_format, next, read_record, read_entry_fields,
}
use cinder.Wal.Records.{IsTyped, record-Reads, wrong_digest, length-encode_record}
use cinder.Clock.{Clock}
use cinder.Wal.Replay.{CacheStore, replay_entries, replay_from, replay_wal}
use cinder.Wal.Replay.Steps.{
  at, AllTyped, committed, committed_same, replay_many, has_more-append, next_of, replay_stop,
  replay_end,
}

-- Where the last whole record ends; 0 in a log with none.
abbrev pub valid_size : (Bytes → ℕ) → List WalEntry → ℕ
valid_size xxh3 [] = 0
valid_size xxh3 (e ∷ es) = length (header ++ encode_all xxh3 (e ∷ es))

committed-valid_size :
    (xxh3 : Bytes → ℕ) (es : List WalEntry) → committed xxh3 0 8 es ≡ valid_size xxh3 es
unfolding le encode_all
committed-valid_size xxh3 [] = refl
committed-valid_size xxh3 (e ∷ es) = omega (
  arith,
  committed_same xxh3 (8 + length (encode_record xxh3 e)) es,
  length-append (encode_record xxh3 e) (encode_all xxh3 es),
)

open_header : (body : Bytes) → open_reader (header ++ body) ≡ at (header ++ body) 8 0
unfolding open_reader parse_wal_format read of_le le
open_header body = ground arith

length-header : length header ≡ 8
unfolding le
length-header = refl

nothing_left : (pre : Bytes) (commit : ℕ) → has_more (at (pre ++ []) (length pre) commit) ≡ false
unfolding has_more
nothing_left pre commit = ground (arith, length-append pre [])

records_fit : (xxh3 : Bytes → ℕ) (es : List WalEntry) → length es ≤ length (encode_all xxh3 es)
unfolding encode_all encoded_record_size
records_fit xxh3 [] = omega arith
records_fit xxh3 (e ∷ es) = omega (
  arith,
  records_fit xxh3 es,
  length-append (encode_record xxh3 e) (encode_all xxh3 es),
  length-encode_record xxh3 e,
)

module _ {ℓ} {S : Type ℓ} (store : CacheStore S) (xxh3 : Bytes → ℕ) (clock : Clock)
    (digests : (b : Bytes) → xxh3 b < 2 ^ 64) where
  -- After the header and whole records the loop goes on behind them.
  replay_start :
      (es : List WalEntry) (tail : Bytes) (s : S)
      → AllTyped es
      → (fuel : ℕ) × (replay_wal store xxh3 clock s (header ++ (encode_all xxh3 es ++ tail))
          ≡ replay_from store xxh3 clock
              (suc fuel)
              (replay_entries store xxh3 clock s es)
              (at
                (header ++ (encode_all xxh3 es ++ tail))
                (length (header ++ encode_all xxh3 es))
                (valid_size xxh3 es))
              (length es))
  unfolding replay_wal
  replay_start es tail s t =
      let image = header ++ (encode_all xxh3 es ++ tail) in
      let enough : suc (length image) ≡ length es + suc (length image - length es) = omega (
        arith,
        records_fit xxh3 es,
        length-append header (encode_all xxh3 es ++ tail),
        length-append (encode_all xxh3 es) tail,
      ) in
      (
        length image - length es,
        ap (λ r. replay_from store xxh3 clock (suc (length image)) s r 0)
              (open_header (encode_all xxh3 es ++ tail))
            ∙ ap (λ (n : ℕ). replay_from store xxh3 clock n s (at image 8 0) 0) enough
            ∙ replay_many xxh3 digests store clock es image header tail 8 0
                (suc (length image - length es)) 0 s t (sym length-header) refl
            ∙ ap
                (λ (m : ℕ × ℕ × ℕ).
                  replay_from store xxh3 clock (suc (length image - length es))
                    (replay_entries store xxh3 clock s es) (at image m.0 m.1) m.2)
                (λ i. (sizes i, committed-valid_size xxh3 es i, plain i)),
      )
    where
      sizes : 8 + length (encode_all xxh3 es) ≡ length (header ++ encode_all xxh3 es)
      sizes = omega (arith, length-header, length-append header (encode_all xxh3 es))

      plain : 0 + length es ≡ length es
      plain = omega arith

  -- At a record that stops short, and at the end of the file, the replay ends well.
  replay_torn :
      (e : WalEntry) (n : ℕ) (pre : Bytes) (commit fuel decoded : ℕ) (s : S)
      → IsTyped e
      → n < length (encode_record xxh3 e)
      → replay_from store xxh3 clock
          (suc fuel)
          s
          (at (pre ++ take n (encode_record xxh3 e)) (length pre) commit)
          decoded
        ≡ some (s, ok (record { records = decoded; valid_bytes = commit }))
  replay_torn e zero pre commit fuel decoded s t h =
      replay_end xxh3 digests store clock fuel decoded s _ (nothing_left pre commit)
  replay_torn e (suc n) pre commit fuel decoded s t h =
      let (r, stops) = (record-Reads xxh3 e t (digests (record_bytes e))).cut (suc n) h in
      replay_stop xxh3 digests store clock fuel decoded s _ _
        (has_more-append xxh3 digests pre (take (suc n) (encode_record xxh3 e)) commit
          (omega (arith, length-take (suc n) (encode_record xxh3 e) (omega (arith, h)))))
        (next_of xxh3 digests pre (take (suc n) (encode_record xxh3 e)) commit (torn r) stops)

  replay_bad :
      (e : WalEntry) (digest : ℕ) (pre rest : Bytes) (commit fuel decoded : ℕ) (s : S)
      → IsTyped e
      → digest < 2 ^ 64
      → (xxh3 (record_bytes e) == digest) ≡ false
      → replay_from store xxh3 clock
          (suc fuel)
          s
          (at (pre ++ (record_bytes e ++ (le 8 digest ++ rest))) (length pre) commit)
          decoded
        ≡ some (s, err (record { code = Errc.corrupt_data; message = "WAL checksum mismatch" }))
  replay_bad e digest pre rest commit fuel decoded s t h w =
      replay_stop xxh3 digests store clock fuel decoded s _ _
        (has_more-append xxh3 digests pre (record_bytes e ++ (le 8 digest ++ rest)) commit (
          omega (
            arith,
            length-append (record_bytes e) (le 8 digest ++ rest),
            length-append (le 8 digest) rest,
            length-le 8 digest,
          )))
        (next_of xxh3 digests pre (record_bytes e ++ (le 8 digest ++ rest)) commit (bad rest)
          (wrong_digest xxh3 e digest rest t h w))

  -- For every store, digest function of 64 bits and clock: a log of whole records, whose fields are in
  -- the ranges of their types, that a crash cut short inside the next record, at any byte or before its
  -- first, is replayed without an error. The store has taken exactly the whole records in order, their
  -- number is reported, and the valid size is the end of the last of them, or 0 where there is none.
  pub replay_crash :
      (es : List WalEntry) (e : WalEntry) (n : ℕ) (s : S)
      → AllTyped es
      → IsTyped e
      → n < length (encode_record xxh3 e)
      → replay_wal store xxh3 clock s
          (header ++ (encode_all xxh3 es ++ take n (encode_record xxh3 e)))
        ≡ some (
          replay_entries store xxh3 clock s es,
          ok (record { records = length es; valid_bytes = valid_size xxh3 es }),
        )
  replay_crash es e n s t u h =
      let (fuel, start) = replay_start es (take n (encode_record xxh3 e)) s t in
      let pre = header ++ encode_all xxh3 es in
      start
      ∙ ap
          (λ b.
            replay_from store xxh3 clock (suc fuel) (replay_entries store xxh3 clock s es)
              (at b (length pre) (valid_size xxh3 es)) (length es))
          (sym (append_assoc header (encode_all xxh3 es) (take n (encode_record xxh3 e))))
      ∙ replay_torn e n pre (valid_size xxh3 es) fuel (length es)
          (replay_entries store xxh3 clock s es) u h

  -- A file that holds one to seven bytes of the header that a fresh log starts with is reported as
  -- corrupt: its first byte is read as the operation of a record of the legacy format.
  pub torn_header :
      (n : ℕ) (s : S)
      → 0 < n
      → n < 8
      → replay_wal store xxh3 clock s (take n header)
        ≡ some (s, err (record { code = Errc.corrupt_data; message = "WAL checksum mismatch" }))
  unfolding replay_wal replay_from has_more next open_reader read_record read_entry_fields read
      of_le le
  torn_header zero s h k = absurd (omega (arith, h))
  torn_header (suc zero) s h k = refl
  torn_header (suc (suc zero)) s h k = refl
  torn_header (suc (suc (suc zero))) s h k = refl
  torn_header (suc (suc (suc (suc zero)))) s h k = refl
  torn_header (suc (suc (suc (suc (suc zero))))) s h k = refl
  torn_header (suc (suc (suc (suc (suc (suc zero)))))) s h k = refl
  torn_header (suc (suc (suc (suc (suc (suc (suc zero))))))) s h k = refl
  torn_header (suc (suc (suc (suc (suc (suc (suc (suc n)))))))) s h k = absurd (omega (arith, k))

  -- For every store, digest function of 64 bits and clock: where a record whose fields are in the
  -- ranges of their types is followed by another digest than its own, the replay fails with CorruptData,
  -- whatever stands behind it, and the store has taken exactly the whole records in front of it.
  pub replay_damage :
      (es : List WalEntry) (e : WalEntry) (digest : ℕ) (rest : Bytes) (s : S)
      → AllTyped es
      → IsTyped e
      → digest < 2 ^ 64
      → (xxh3 (record_bytes e) == digest) ≡ false
      → replay_wal store xxh3 clock s
          (header ++ (encode_all xxh3 es ++ (record_bytes e ++ (le 8 digest ++ rest))))
        ≡ some (
          replay_entries store xxh3 clock s es,
          err (record { code = Errc.corrupt_data; message = "WAL checksum mismatch" }),
        )
  replay_damage es e digest rest s t u h w =
      let tail = record_bytes e ++ (le 8 digest ++ rest) in
      let (fuel, start) = replay_start es tail s t in
      let pre = header ++ encode_all xxh3 es in
      start
      ∙ ap
          (λ b.
            replay_from store xxh3 clock (suc fuel) (replay_entries store xxh3 clock s es)
              (at b (length pre) (valid_size xxh3 es)) (length es))
          (sym (append_assoc header (encode_all xxh3 es) tail))
      ∙ replay_bad e digest pre rest (valid_size xxh3 es) fuel (length es)
          (replay_entries store xxh3 clock s es) u h w
