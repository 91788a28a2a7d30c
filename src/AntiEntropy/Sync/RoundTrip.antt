-- ===== src/AntiEntropy/Sync/RoundTrip.antt =====
-- A sync message, sent by one node and read by another, whose clocks differ.
use cinder.Prelude.{
  ℕ, ◌+◌, ◌-◌, ◌*◌, ◌/◌, ◌%◌, ◌^◌, ◌<◌, ◌≤◌, ◌≡◌, refl, sym, ap, subst, true, not, some, List, [],
  ◌∷◌, map, Bytes, length, length-append, ◌==◌, if◌then◌else◌, arith, Bool-cases, inl, inr,
}
use cinder.Clock.{Clock, to_system_ms, to_system_expiry}
use cinder.Lww.{
  VersionedEntry, version, has_ttl, is_tombstone, set_version, set_has_ttl, set_tombstone,
}
use cinder.Buffer.{le, got, continue, pure, read, read_string, read_list, write_list, value_of}
use cinder.Buffer.Laws.{
  Reads, read-Reads, read_string-Reads, bind-Reads, last-Reads, after-Reads, pure-Reads, length-le,
}
use cinder.Buffer.Lists.{Each, whole_list, pass, IsU64, guard-Reads, hashes-Reads, exact_size}
use cinder.AntiEntropy.{k_sync_magic}
use cinder.AntiEntropy.Sync.{
  Item, SyncMessage, entry_flags, write_expiry, write_item, encode_sync, read_expiry, received,
  parse_single_entry, parse_sync, decode_sync, sync_entry_wire_size,
}

-- The lengths and numbers are in the ranges of their types.
pub record IsSendable (item : Item) : Type 0 where
  pub key : length item.key < 2 ^ 32
  pub value : length item.entry.value < 2 ^ 32
  pub packed : item.entry.version_and_ttl < 2 ^ 64
  pub writer : item.entry.writer_node_hash < 2 ^ 64

-- The expiry of an entry with a lifetime is a time that both clocks can hold: not before an epoch, and
-- below 2^63 nanoseconds.
pub record IsTimely (sender receiver : Clock) (item : Item) : Type 0 where
  pub after_epoch :
      has_ttl item.entry ≡ true → sender.now ≤ sender.now_system + item.entry.expires_at
  pub on_the_wire :
      has_ttl item.entry ≡ true → to_system_ms sender item.entry.expires_at * 1000000 < 2 ^ 63
  pub at_receiver :
      has_ttl item.entry ≡ true
      → receiver.now_system ≤ receiver.now + to_system_ms sender item.entry.expires_at * 1000000
  pub held :
      has_ttl item.entry ≡ true
      → receiver.now + to_system_ms sender item.entry.expires_at * 1000000
        < receiver.now_system + 2 ^ 63

-- The entry at a receiver: the expiry is the sender's wall-clock millisecond, on the receiver's clock.
unfoldable pub moved : Clock → Clock → Item → Item
unfolding has_ttl to_system_ms
moved sender receiver item =
    let e = item.entry in
    record item {
      entry = record e {
        expires_at =
            if has_ttl e
            then receiver.now + to_system_ms sender e.expires_at * 1000000 - receiver.now_system
            else 0;
      };
    }

-- What is read as the expiry.
abbrev sent_ms : Clock → VersionedEntry → ℕ
unfolding has_ttl to_system_ms
sent_ms clock e = if has_ttl e then to_system_ms clock e.expires_at else 0

flags_low : (e : VersionedEntry) → not (entry_flags e % 2 == 0) ≡ has_ttl e
unfolding entry_flags has_ttl is_tombstone
flags_low e = ground arith

flags_high : (e : VersionedEntry) → not (entry_flags e / 2 % 2 == 0) ≡ is_tombstone e
unfolding entry_flags has_ttl is_tombstone
flags_high e = ground arith

flags_fit : (e : VersionedEntry) → (entry_flags e % 4 == entry_flags e) ≡ true
unfolding entry_flags has_ttl is_tombstone
flags_fit e = ground arith

version_fits : (e : VersionedEntry) → e.version_and_ttl < 2 ^ 64 → version e < 2 ^ 64
unfolding version
version_fits e h = omega (arith, h)

flags_byte : (e : VersionedEntry) → entry_flags e < 256
unfolding entry_flags has_ttl is_tombstone
flags_byte e = ground arith

received-moved :
    (sender receiver : Clock) (item : Item)
    → IsSendable item
    → received receiver
        (version item.entry)
        item.entry.writer_node_hash
        (entry_flags item.entry)
        (sent_ms sender item.entry)
        item.entry.value
      ≡ (moved sender receiver item).entry
unfolding received moved version set_version set_tombstone set_has_ttl has_ttl is_tombstone
    entry_flags
received-moved sender receiver item t = ground (arith, t.packed)

expiry-Reads :
    (clock : Clock) (e : VersionedEntry)
    → (has_ttl e ≡ true → to_system_ms clock e.expires_at * 1000000 < 2 ^ 63)
    → Reads (read_expiry (has_ttl e)) (sent_ms clock e) (write_expiry clock e)
unfolding write_expiry has_ttl
expiry-Reads clock e h = elim (Bool-cases (has_ttl e)) [
  | inl on ↦ rw on (read-Reads 8 (to_system_ms clock e.expires_at) (omega (arith, h on)))
  | inr off ↦ rw off (pure-Reads 0)
]

module _ (sender receiver : Clock) where
  item-Reads :
      (item : Item)
      → IsSendable item
      → IsTimely sender receiver item
      → Reads (parse_single_entry receiver) (moved sender receiver item) (write_item sender item)
  unfolding parse_single_entry write_item moved
  item-Reads item t h =
      let e = item.entry in
      bind-Reads (read 4) _ (length item.key) _ _ _ (read-Reads 4 (length item.key) t.key) (
        bind-Reads (read_string (length item.key)) _ item.key _ _ _ (read_string-Reads item.key) (
          bind-Reads (read 8) _ (version e) _ _ _
            (read-Reads 8 (version e) (version_fits e t.packed))
            (bind-Reads (read 8) _ e.writer_node_hash _ _ _
              (read-Reads 8 e.writer_node_hash t.writer)
              (bind-Reads (read 1) _ (entry_flags e) _ _ _
                (read-Reads 1 (entry_flags e) (flags_byte e))
                (guard-Reads (entry_flags e % 4 == entry_flags e) _ _ _ (flags_fit e) (
                  bind-Reads (read_expiry (not (entry_flags e % 2 == 0))) _ (sent_ms sender e) _ _ _
                    (subst (λ b. Reads (read_expiry b) (sent_ms sender e) (write_expiry sender e))
                      (sym (flags_low e)) (expiry-Reads sender e h.on_the_wire))
                    (bind-Reads (read 4) _ (length e.value) _ _ _
                      (read-Reads 4 (length e.value) t.value)
                      (last-Reads (read_string (length e.value)) _ e.value _ _
                        (read_string-Reads e.value)
                        (λ r.
                          ap (λ x. got (record { key = item.key; entry = x }) r)
                            (received-moved sender receiver item t))))))))))

  abbrev pub Sent : Item → Type 0
  Sent item = IsSendable item × IsTimely sender receiver item

  entries-Reads :
      (items : List Item)
      → Each Sent items
      → Reads
          (read_list (parse_single_entry receiver) (length items))
          (map (moved sender receiver) items)
          (write_list (write_item sender) items)
  entries-Reads [] t = pure-Reads []
  entries-Reads (x ∷ xs) t =
      bind-Reads (parse_single_entry receiver) _ (moved sender receiver x) _ (write_item sender x)
        (write_list (write_item sender) xs) (item-Reads x (t.0).0 (t.0).1)
        (last-Reads (read_list (parse_single_entry receiver) (length xs)) _
          (map (moved sender receiver) xs) (map (moved sender receiver) (x ∷ xs))
          (write_list (write_item sender) xs) (entries-Reads xs t.1) (λ r. refl))

  -- A sync message with fewer than 2^32 entries and hashes, with numbers in the ranges of their types, where
  -- each expiry of an entry with a lifetime is, on both clocks, not before the epoch and below 2^63
  -- nanoseconds, is decoded by the receiver to the same keys, values, versions, writers, lifetime and
  -- tombstone marks and hashes, each in order; such an expiry becomes the sender's wall-clock millisecond
  -- on the receiver's clock, another entry's 0.
  pub decode-encode_sync :
      (msg : SyncMessage)
      → length msg.entries < 2 ^ 32
      → length msg.needs < 2 ^ 32
      → Each Sent msg.entries
      → Each IsU64 msg.needs
      → decode_sync receiver (encode_sync sender msg)
        ≡ some (record { entries = map (moved sender receiver) msg.entries; needs = msg.needs })
  unfolding decode_sync encode_sync parse_sync
  decode-encode_sync msg n m t u =
      let arrived : SyncMessage = record {
        entries = map (moved sender receiver) msg.entries;
        needs = msg.needs;
      } in
      ap value_of (
        after-Reads (read 4) _ k_sync_magic (le 4 k_sync_magic) _ (got arrived [])
          (read-Reads 4 k_sync_magic (omega arith))
          (after-Reads (read 4) _ (length msg.entries) (le 4 (length msg.entries)) _
            (got arrived []) (read-Reads 4 (length msg.entries) n)
            (after-Reads (read_list (parse_single_entry receiver) (length msg.entries)) _
              (map (moved sender receiver) msg.entries) (write_list (write_item sender) msg.entries)
              _ (got arrived []) (entries-Reads msg.entries t)
              (after-Reads (read 4) _ (length msg.needs) (le 4 (length msg.needs)) _
                (got arrived []) (read-Reads 4 (length msg.needs) m)
                (pass (length (write_list (le 8) msg.needs) == length msg.needs * 8) _
                  (write_list (le 8) msg.needs) (got arrived [])
                  (exact_size (le 8) 8 (λ h. length-le 8 h) msg.needs)
                  (ap
                    (λ o. continue o (λ xs.
                      pure
                        (record { entries = map (moved sender receiver) msg.entries; needs = xs })))
                    (whole_list IsU64 (read 8) (le 8) hashes-Reads msg.needs u)))))))

  -- Where an expiry is sent as `to_system_ms` and its entry is received with the flag of a lifetime, and
  -- the received time is one of the receiver's steady clock: on the wall clock the expiry at the
  -- receiver is not later than at the sender, and less than a millisecond earlier.
  pub expiry_kept :
      (t ver writer flags : ℕ) (value : Bytes)
      → flags % 2 ≡ 1
      → receiver.now_system ≤ receiver.now + to_system_ms sender t * 1000000
      → (to_system_expiry receiver
            (received receiver ver writer flags (to_system_ms sender t) value).expires_at
          ≤ to_system_expiry sender t)
        × (to_system_expiry sender t
            < to_system_expiry receiver
                (received receiver ver writer flags (to_system_ms sender t) value).expires_at
              + 1000000)
  unfolding received to_system_expiry to_system_ms
  expiry_kept t ver writer flags value on h = (ground (arith, on, h), ground (arith, on, h))

pub length-write_item :
    (clock : Clock) (item : Item)
    → length (write_item clock item) ≡ sync_entry_wire_size item.key item.entry
unfolding write_item write_expiry sync_entry_wire_size
length-write_item clock item = elim (Bool-cases (has_ttl item.entry)) [
  | inl on ↦ rw on (simp (length-append, length-le) (omega arith))
  | inr off ↦ rw off (simp (length-append, length-le) (omega arith))
]
