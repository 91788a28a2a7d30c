-- ===== src/Wal/Replay/Total.antt =====
-- The replay ends on every file: a record that is read takes at least a byte.
use cinder.Prelude.{
  ℕ, zero, suc, ◌+◌, ◌-◌, ◌<◌, ◌≤◌, ◌≡◌, refl, ap, ◌≢◌, Bool, true, false, Option, none, some,
  Bytes, length, drop, length-drop, ltb, ◌==◌, if◌then◌else◌, arith, Bool-cases, Option-cases,
  is_some, inl, inr,
}
use cinder.Status.{Result}
use cinder.Buffer.{
  Outcome, got, torn, bad, Parser, continue, pure, reject, read, read_string, ◌>>=◌,
}
use cinder.Wal.{
  WalFormat, legacy, v1, v2, check_op, read_tombstone, read_entry_fields, read_record, WalEntry,
  WalReader, next, settle, has_more, open_reader, parse_wal_format,
}
use cinder.Clock.{Clock}
use cinder.Wal.Replay.{CacheStore, ReplayStats, replay_entry, replay_from, replay_wal}

-- Nothing that the parser reads puts bytes back.
abbrev IsTaking {ℓ} : {A : Type ℓ} → ℕ → Parser A → Type ℓ
IsTaking {A = A} n p = (r s : Bytes) (a : A) → p r ≡ got a s → n + length s ≤ length r

read-IsTaking : (width : ℕ) → IsTaking width (read width)
unfolding read
read-IsTaking width r s a e = ground (arith, length-drop width r)

read_string-IsTaking : (len : ℕ) → IsTaking 0 (read_string len)
unfolding read_string
read_string-IsTaking len r s a e = ground (arith, length-drop len r)

none-some {ℓ} : {A : Type ℓ} {a : A} → ◌≢◌ {A = Option A} none (some a)
none-some e = absurd (cc)

got-injective {ℓ} : {A : Type ℓ} {a b : A} {r s : Bytes} → got a r ≡ got b s → r ≡ s
got-injective e = cc

continue-IsTaking {ℓ κ} :
    {A : Type ℓ} {B : Type κ} (o : Outcome A) (f : A → Parser B) (n size : ℕ)
    → ((s : Bytes) (a : A) → o ≡ got a s → n + length s ≤ size)
    → ((a : A) → IsTaking 0 (f a))
    → (s : Bytes) (b : B) → continue o f ≡ got b s
    → n + length s ≤ size
continue-IsTaking (got a t) f n size h k s b e = omega (arith, h t a refl, k a t s b e)
continue-IsTaking (torn t) f n size h k s b e = absurd (cc)
continue-IsTaking (bad t) f n size h k s b e = absurd (cc)

bind-IsTaking {ℓ κ} :
    {A : Type ℓ} {B : Type κ} (n : ℕ) (p : Parser A) (f : A → Parser B)
    → IsTaking n p
    → ((a : A) → IsTaking 0 (f a))
    → IsTaking n (p >>= f)
bind-IsTaking n p f h k r s b e =
    continue-IsTaking (p r) f n (length r) (λ t a q. h r t a q) k s b e

pure-IsTaking {ℓ} : {A : Type ℓ} (a : A) → IsTaking 0 (pure a)
pure-IsTaking a r s b e = omega (arith, ap length (got-injective e))

reject-IsTaking {ℓ} : {A : Type ℓ} → IsTaking 0 (reject {A = A})
reject-IsTaking r s a e = absurd (cc)

if-IsTaking {ℓ} :
    {A : Type ℓ} (test : Bool) (p q : Parser A)
    → IsTaking 0 p
    → IsTaking 0 q
    → IsTaking 0 (if test then p else q)
if-IsTaking true p q h k = h
if-IsTaking false p q h k = k

weaker {ℓ} : {A : Type ℓ} (n : ℕ) (p : Parser A) → IsTaking n p → IsTaking 0 p
weaker n p h r s a e = omega (arith, h r s a e)

check_op-IsTaking : (byte : ℕ) → IsTaking 0 (check_op byte)
check_op-IsTaking byte =
    if-IsTaking (byte == 1) _ _ (pure-IsTaking _)
      (if-IsTaking (byte == 2) _ _ (pure-IsTaking _) reject-IsTaking)

tombstone-IsTaking : (format : WalFormat) → IsTaking 0 (read_tombstone format)
tombstone-IsTaking legacy = pure-IsTaking 0
tombstone-IsTaking v1 = pure-IsTaking 0
tombstone-IsTaking v2 =
    bind-IsTaking 0 (read 1) _ (weaker 1 (read 1) (read-IsTaking 1))
      (λ byte. if-IsTaking (ltb 1 byte) _ _ reject-IsTaking (pure-IsTaking byte))

entry_fields-IsTaking : (format : WalFormat) → IsTaking 1 (read_entry_fields format)
unfolding read_entry_fields
entry_fields-IsTaking format = bind-IsTaking 1 (read 1) _ (read-IsTaking 1) (λ op.
    bind-IsTaking 0 (check_op op) _ (check_op-IsTaking op) (λ o.
      bind-IsTaking 0 (read 4) _ (field 4) (λ key_len.
        bind-IsTaking 0 (read_string key_len) _ (read_string-IsTaking key_len) (λ key.
          bind-IsTaking 0 (read 4) _ (field 4) (λ val_len.
            bind-IsTaking 0 (read_string val_len) _ (read_string-IsTaking val_len) (λ value.
              bind-IsTaking 0 (read 8) _ (field 8) (λ version.
                bind-IsTaking 0 (read 8) _ (field 8) (λ writer.
                  bind-IsTaking 0 (read 8) _ (field 8) (λ expires.
                    bind-IsTaking 0 (read 1) _ (field 1) (λ ttl.
                      bind-IsTaking 0 (read_tombstone format) _ (tombstone-IsTaking format)
                        (λ tombstone. pure-IsTaking _)))))))))))
  where
    field : (width : ℕ) → IsTaking 0 (read width)
    field width r s a e = omega (arith, read-IsTaking width r s a e)

open_reader_whole : (image : Bytes) → length (open_reader image).image ≡ length image
unfolding open_reader parse_wal_format
open_reader_whole image = ground arith

some_of {ℓ} : {A : Type ℓ} (o : Option A) → is_some o ≡ true → (a : A) × (o ≡ some a)
some_of none h = absurd (cc)
some_of (some a) h = (a, refl)

module _ (xxh3 : Bytes → ℕ) where
  record-IsTaking : (format : WalFormat) → IsTaking 1 (read_record xxh3 format)
  unfolding read_record
  record-IsTaking legacy =
      bind-IsTaking 1 (read_entry_fields legacy) _ (entry_fields-IsTaking legacy)
        (λ f. pure-IsTaking _)
  record-IsTaking v1 = bind-IsTaking 1 (read_entry_fields v1) _ (entry_fields-IsTaking v1) (λ f.
      bind-IsTaking 0 (read 8) _ (weaker 8 (read 8) (read-IsTaking 8))
        (λ stored. if-IsTaking _ _ _ (pure-IsTaking _) reject-IsTaking))
  record-IsTaking v2 = bind-IsTaking 1 (read_entry_fields v2) _ (entry_fields-IsTaking v2) (λ f.
      bind-IsTaking 0 (read 8) _ (weaker 8 (read 8) (read-IsTaking 8))
        (λ stored. if-IsTaking _ _ _ (pure-IsTaking _) reject-IsTaking))

  -- What is left to read gets shorter by each record, in a file of fixed length.
  settle_progress :
      (r r' : WalReader) (o : Outcome WalEntry) (e : WalEntry)
      → ((s : Bytes) (a : WalEntry) → o ≡ got a s → 1 + length s ≤ length r.image - r.pos)
      → settle r o ≡ (r', some e)
      → length r'.image - r'.pos < length r.image - r.pos
  settle_progress r r' (got a s) e h q = omega (
    arith,
    h s a refl,
    ap (λ (p : WalReader × Option WalEntry). length (p.0).image) q,
    ap (λ (p : WalReader × Option WalEntry). (p.0).pos) q,
  )
  settle_progress r r' (torn s) e h q = absurd (none-some (ap (λ p. p.1) q))
  settle_progress r r' (bad s) e h q = absurd (none-some (ap (λ p. p.1) q))

  next_progress :
      (r r' : WalReader) (e : WalEntry)
      → next xxh3 r ≡ (r', some e)
      → length r'.image - r'.pos < length r.image - r.pos
  unfolding next
  next_progress r r' e q =
      settle_progress r r' (read_record xxh3 r.format_version (drop r.pos r.image)) e
        (λ s a p. omega (
          arith,
          record-IsTaking r.format_version (drop r.pos r.image) s a p,
          length-drop r.pos r.image,
        ))
        q

  module _ {ℓ} {S : Type ℓ} (store : CacheStore S) (clock : Clock) where
    replay_enough :
        (fuel decoded : ℕ) (s : S) (r : WalReader)
        → length r.image - r.pos < fuel
        → is_some (replay_from store xxh3 clock fuel s r decoded) ≡ true
    unfolding replay_from
    replay_enough zero decoded s r h = absurd (omega (arith, h))
    replay_enough (suc fuel) decoded s r h = elim (Bool-cases (has_more r)) [
      | inl more ↦ elim (Option-cases (next xxh3 r).1) [
        | inl stop ↦ rw (more, replay_from) (rw (stop, replay_from) refl)
        | inr (e, found) ↦
            rw (more, replay_from)
              (rw (found, replay_from)
                (replay_enough fuel (suc decoded) (replay_entry store xxh3 clock s e)
                  (next xxh3 r).0
                  (omega (
                    arith,
                    h,
                    next_progress r (next xxh3 r).0 e (λ i. ((next xxh3 r).0, found i)),
                  ))))
      ]
      | inr over ↦ rw (over, replay_from) refl
    ]

    -- For every store, digest function and clock, and every file, also one that no writer has written: the
    -- replay comes to an end, within as many records as the file has bytes.
    pub replay_ends :
        (image : Bytes) (s : S)
        → (out : S × Result ReplayStats) × (replay_wal store xxh3 clock s image ≡ some out)
    unfolding replay_wal
    replay_ends image s = some_of _ (
        replay_enough (suc (length image)) 0 s (open_reader image)
          (omega (arith, open_reader_whole image)))
