-- ===== src/AntiEntropy/Sync.antt =====
-- Sync messages: entries to apply and hashes of the keys that the sender needs back.
pub mod RoundTrip
use cinder.Prelude.{
  ℕ, ◌+◌, ◌*◌, ◌/◌, ◌%◌, Bool, true, false, not, Option, none, some, List, [], ◌∷◌, ◌++◌, Bytes,
  length, ltb, ◌==◌, if◌then◌else◌,
}
use cinder.Clock.{Clock, to_system_ms, to_steady_expiry}
use cinder.Lww.{
  bit, VersionedEntry, fresh_entry, version, has_ttl, is_tombstone, set_version, set_has_ttl,
  set_tombstone,
}
use cinder.Buffer.{
  le, Parser, pure, reject, guard, remaining, read, read_string, read_list, write_list, value_of,
  ◌>>=◌, ◌>>◌,
}
use cinder.AntiEntropy.{k_sync_magic}

pub record Item : Type 0 where
  pub key : Bytes
  pub entry : VersionedEntry

pub record SyncMessage : Type 0 where
  pub entries : List Item
  pub needs : List ℕ

-- Bit 0 and bit 1.
unfoldable pub entry_flags : VersionedEntry → ℕ
unfolding has_ttl is_tombstone
entry_flags e = bit (has_ttl e) + 2 * bit (is_tombstone e)

-- The expiry, which stands there for an entry with a lifetime only.
unfoldable pub write_expiry : Clock → VersionedEntry → Bytes
unfolding has_ttl to_system_ms
write_expiry clock e = if has_ttl e then le 8 (to_system_ms clock e.expires_at) else []

unfoldable pub write_item : Clock → Item → Bytes
write_item clock item =
    le 4 (length item.key)
    ++ (item.key
        ++ (le 8 (version item.entry)
            ++ (le 8 item.entry.writer_node_hash
                ++ (le 1 (entry_flags item.entry)
                    ++ (write_expiry clock item.entry
                        ++ (le 4 (length item.entry.value) ++ item.entry.value))))))

unfoldable pub encode_sync : Clock → SyncMessage → Bytes
encode_sync clock msg =
    le 4 k_sync_magic
    ++ (le 4 (length msg.entries)
        ++ (write_list (write_item clock) msg.entries
            ++ (le 4 (length msg.needs) ++ write_list (le 8) msg.needs)))

abbrev pub read_expiry : Bool → Parser ℕ
read_expiry true = read 8
read_expiry false = pure 0

-- The entry that parseSingleEntry fills in, from a default one.
unfoldable pub received : Clock → ℕ → ℕ → ℕ → ℕ → Bytes → VersionedEntry
unfolding set_version set_has_ttl set_tombstone
received clock ver writer flags expires_ms value =
    let filled = record (set_version fresh_entry ver) {
      writer_node_hash = writer;
      value = value;
    } in
    let marked = set_tombstone filled (not (flags / 2 % 2 == 0)) in
    if not (flags % 2 == 0)
    then record (set_has_ttl marked true) {
      expires_at = to_steady_expiry clock (expires_ms * 1000000);
    }
    else marked

-- parseSingleEntry, without the text that says what is wrong. The flags are one byte.
unfoldable pub parse_single_entry : Clock → Parser Item
parse_single_entry clock = do
  key_len ← read 4
  key ← read_string key_len
  ver ← read 8
  writer ← read 8
  flags ← read 1
  guard (flags % 4 == flags)
  expires_ms ← read_expiry (not (flags % 2 == 0))
  val_len ← read 4
  value ← read_string val_len
  pure (record { key = key; entry = received clock ver writer flags expires_ms value })

unfoldable pub parse_sync : Clock → Parser SyncMessage
parse_sync clock = do
  magic ← read 4
  guard (magic == k_sync_magic)
  entry_count ← read 4
  entries ← read_list (parse_single_entry clock) entry_count
  need_count ← read 4
  left ← remaining
  guard (left == need_count * 8)
  needs ← read_list (read 8) need_count
  pure (record { entries = entries; needs = needs })

unfoldable pub decode_sync : Clock → Bytes → Option SyncMessage
decode_sync clock bytes = value_of (parse_sync clock bytes)

unfoldable pub sync_entry_wire_size : Bytes → VersionedEntry → ℕ
unfolding has_ttl
sync_entry_wire_size key e =
    let n = 4 + length key + 8 + 8 + 1 + 4 + length e.value in if has_ttl e then n + 8 else n
