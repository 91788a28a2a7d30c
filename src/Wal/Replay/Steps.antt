-- ===== src/Wal/Replay/Steps.antt =====
-- Reading records that stand whole in a log, one after another.
use mathlib.Core.List.{append_assoc}
use cinder.Prelude.{
  ℕ, suc, ◌+◌, ◌^◌, ◌<◌, ◌≡◌, refl, sym, ap, ◌∙◌, true, false, none, some, List, [], ◌∷◌, ◌++◌,
  Bytes, length, length-append, drop-append, if◌then◌else◌, arith,
}
use cinder.Status.{Errc, ok, err}
use cinder.Buffer.{Outcome, got}
use cinder.Wal.{
  v2, WalEntry, WalReader, record_bytes, encode_record, encode_all, read_record,
  encoded_record_size, next, settle, has_more,
}
use cinder.Wal.Records.{IsTyped, record-Reads, length-encode_record}
use cinder.Clock.{Clock}
use cinder.Wal.Replay.{CacheStore, replay_entry, replay_entries, replay_from}

abbrev pub at : Bytes → ℕ → ℕ → WalReader
at image pos commit = record {
  image = image;
  pos = pos;
  commit_pos = commit;
  format_version = v2;
  corrupted = false;
}

abbrev pub AllTyped : List WalEntry → Type 0
AllTyped [] = Unit
AllTyped (e ∷ es) = IsTyped e × AllTyped es

module _ (xxh3 : Bytes → ℕ) where
  abbrev pub committed : ℕ → ℕ → List WalEntry → ℕ
  committed commit pos [] = commit
  committed commit pos (e ∷ es) =
      committed (pos + length (encode_record xxh3 e)) (pos + length (encode_record xxh3 e)) es

  pub committed_same :
      (pos : ℕ) (es : List WalEntry) → committed pos pos es ≡ pos + length (encode_all xxh3 es)
  unfolding encode_all
  committed_same pos [] = omega arith
  committed_same pos (e ∷ es) = omega (
    arith,
    committed_same (pos + length (encode_record xxh3 e)) es,
    length-append (encode_record xxh3 e) (encode_all xxh3 es),
  )

  module _ (digests : (b : Bytes) → xxh3 b < 2 ^ 64) where
    -- What next() makes of the bytes at the position.
    pub next_of :
        (pre bytes : Bytes) (commit : ℕ) (o : Outcome WalEntry)
        → read_record xxh3 v2 bytes ≡ o
        → next xxh3 (at (pre ++ bytes) (length pre) commit)
          ≡ settle (at (pre ++ bytes) (length pre) commit) o
    unfolding next
    next_of pre bytes commit o h =
        ap (λ b. settle (at (pre ++ bytes) (length pre) commit) (read_record xxh3 v2 b))
          (drop-append pre bytes)
        ∙ ap (settle (at (pre ++ bytes) (length pre) commit)) h

    next_whole :
        (e : WalEntry) (pre rest : Bytes) (commit : ℕ)
        → IsTyped e
        → next xxh3 (at (pre ++ (encode_record xxh3 e ++ rest)) (length pre) commit) ≡ (
          at
              (pre ++ (encode_record xxh3 e ++ rest))
              (length pre + length (encode_record xxh3 e))
              (length pre + length (encode_record xxh3 e)),
          some e,
        )
    next_whole e pre rest commit t =
        next_of pre (encode_record xxh3 e ++ rest) commit (got e rest)
          ((record-Reads xxh3 e t (digests (record_bytes e))).whole rest)
        ∙ ap (λ n. (at (pre ++ (encode_record xxh3 e ++ rest)) n n, some e))
            (omega (
              arith,
              length-append pre (encode_record xxh3 e ++ rest),
              length-append (encode_record xxh3 e) rest,
            ))

    encoded_record_size_positive : (e : WalEntry) → 0 < encoded_record_size e
    unfolding encoded_record_size
    encoded_record_size_positive e = omega arith

    pub has_more-append :
        (pre bytes : Bytes) (commit : ℕ)
        → 0 < length bytes
        → has_more (at (pre ++ bytes) (length pre) commit) ≡ true
    unfolding has_more
    has_more-append pre bytes commit h = ground (arith, length-append pre bytes)

    module _ {ℓ} {S : Type ℓ} (store : CacheStore S) (clock : Clock) where
      replay_next :
          (fuel decoded : ℕ) (s : S) (r r' : WalReader) (e : WalEntry)
          → has_more r ≡ true
          → next xxh3 r ≡ (r', some e)
          → replay_from store xxh3 clock (suc fuel) s r decoded
            ≡ replay_from store xxh3 clock fuel (replay_entry store xxh3 clock s e) r' (suc decoded)
      unfolding replay_from
      replay_next fuel decoded s r r' e more n =
          rw (more, replay_from)
            (rw (ap (λ p. p.1) n, replay_from)
              (ap
                (λ p.
                  replay_from store xxh3 clock fuel (replay_entry store xxh3 clock s e) p.0
                    (suc decoded))
                n))

      pub replay_end :
          (fuel decoded : ℕ) (s : S) (r : WalReader)
          → has_more r ≡ false
          → replay_from store xxh3 clock (suc fuel) s r decoded
            ≡ some (s, ok (record { records = decoded; valid_bytes = r.commit_pos }))
      unfolding replay_from
      replay_end fuel decoded s r more = rw (more, replay_from) refl

      pub replay_stop :
          (fuel decoded : ℕ) (s : S) (r r' : WalReader)
          → has_more r ≡ true
          → next xxh3 r ≡ (r', none)
          → replay_from store xxh3 clock (suc fuel) s r decoded
            ≡ some (
              s,
              (if r'.corrupted
                  then err (record { code = Errc.corrupt_data; message = "WAL checksum mismatch" })
                  else ok (record { records = decoded; valid_bytes = r'.commit_pos })),
            )
      unfolding replay_from
      replay_stop fuel decoded s r r' more n =
          rw (more, replay_from)
            (rw (ap (λ p. p.1) n, replay_from)
              (ap
                (λ p. some (
                  s,
                  (if (p.0).corrupted
                      then err
                          (record { code = Errc.corrupt_data; message = "WAL checksum mismatch" })
                      else ok (record { records = decoded; valid_bytes = (p.0).commit_pos })),
                ))
                n))

      replay_one :
          (e : WalEntry) (image pre rest : Bytes) (pos commit fuel decoded : ℕ) (s : S)
          → IsTyped e
          → pos ≡ length pre
          → image ≡ pre ++ (encode_record xxh3 e ++ rest)
          → replay_from store xxh3 clock (suc fuel) s (at image pos commit) decoded
            ≡ replay_from store xxh3 clock fuel
                (replay_entry store xxh3 clock s e)
                (at image
                  (pos + length (encode_record xxh3 e))
                  (pos + length (encode_record xxh3 e)))
                (suc decoded)
      replay_one e image pre rest pos commit fuel decoded s t p i =
          rw (p, i)
            (replay_next fuel decoded s _ _ e
              (has_more-append pre (encode_record xxh3 e ++ rest) commit (
                omega (
                  arith,
                  length-append (encode_record xxh3 e) rest,
                  length-encode_record xxh3 e,
                  encoded_record_size_positive e,
                )))
              (next_whole e pre rest commit t))

      -- The records of a list that stand at the reader's position, and `tail` behind them.
      pub replay_many :
          (es : List WalEntry) (image pre tail : Bytes) (pos commit fuel decoded : ℕ) (s : S)
          → AllTyped es
          → pos ≡ length pre
          → image ≡ pre ++ (encode_all xxh3 es ++ tail)
          → replay_from store xxh3 clock (length es + fuel) s (at image pos commit) decoded
            ≡ replay_from store xxh3 clock fuel
                (replay_entries store xxh3 clock s es)
                (at image (pos + length (encode_all xxh3 es)) (committed commit pos es))
                (decoded + length es)
      unfolding encode_all replay_entries
      replay_many [] image pre tail pos commit fuel decoded s t p i =
          ap (λ (m : ℕ × ℕ × ℕ). replay_from store xxh3 clock m.0 s (at image m.1 commit) m.2)
            (ground arith)
      replay_many (e ∷ es) image pre tail pos commit fuel decoded s t p i =
          let size = length (encode_record xxh3 e) in
          ap (λ (n : ℕ). replay_from store xxh3 clock n s (at image pos commit) decoded)
            (omega arith)
          ∙ replay_one e image pre (encode_all xxh3 es ++ tail) pos commit (length es + fuel)
              decoded s t.0 p
              (i
                ∙ ap (λ b. pre ++ b)
                    (append_assoc (encode_record xxh3 e) (encode_all xxh3 es) tail))
          ∙ replay_many es image (pre ++ encode_record xxh3 e) tail (pos + size) (pos + size) fuel
              (suc decoded) (replay_entry store xxh3 clock s e) t.1
              (omega (arith, p, length-append pre (encode_record xxh3 e)))
              (i
                ∙ ap (λ b. pre ++ b) (append_assoc (encode_record xxh3 e) (encode_all xxh3 es) tail)
                ∙ sym (append_assoc pre (encode_record xxh3 e) (encode_all xxh3 es ++ tail)))
          ∙ ap
              (λ (m : ℕ × ℕ).
                replay_from store xxh3 clock fuel
                  (replay_entries store xxh3 clock (replay_entry store xxh3 clock s e) es)
                  (at image m.0 (committed commit pos (e ∷ es))) m.1)
              (ground (arith, length-append (encode_record xxh3 e) (encode_all xxh3 es)))
