-- ===== src/Tests/AntiEntropy.antt =====
-- Messages with one element, between two nodes whose clocks differ.
use cinder.Prelude.{◌+◌, ◌<◌, ◌≤◌, ◌≡◌, refl, arith, some, [], ◌∷◌, map}
use cinder.Clock.{Clock, to_system_expiry, to_system_ms}
use cinder.AntiEntropy.Sync.{Item, SyncMessage, received, encode_sync, decode_sync}
use cinder.AntiEntropy.Sync.RoundTrip.{IsSendable, IsTimely, moved, decode-encode_sync, expiry_kept}

abbrev sender : Clock
sender = record { now = 1000; now_system = 7000000000 }

abbrev receiver : Clock
receiver = record { now = 400000; now_system = 7000000500 }

-- Version 3, with a lifetime.
abbrev item : Item
item = record {
  key = 97 ∷ [];
  entry = record {
    version_and_ttl = 13;
    expires_at = 9001000;
    writer_node_hash = 5;
    value = 1 ∷ 2 ∷ [];
  };
}

abbrev msg : SyncMessage
msg = record { entries = item ∷ []; needs = 8 ∷ [] }

sendable : IsSendable item
sendable = record {
  key = omega arith;
  value = omega arith;
  packed = omega arith;
  writer = omega arith;
}

timely : IsTimely sender receiver item
unfolding to_system_ms to_system_expiry
timely = record {
  after_epoch = λ h. omega arith;
  on_the_wire = λ h. omega arith;
  at_receiver = λ h. omega arith;
  held = λ h. omega arith;
}

decode-encode_sync_example :
    decode_sync receiver (encode_sync sender msg)
    ≡ some (record { entries = map (moved sender receiver) (item ∷ []); needs = 8 ∷ [] })
unfolding to_system_ms to_system_expiry
decode-encode_sync_example =
    decode-encode_sync sender receiver msg (omega arith) (omega arith) ((sendable, timely), tt)
      (omega arith, tt)

expiry_kept_example :
    (to_system_expiry receiver (received receiver 3 5 1 (to_system_ms sender 9001000) []).expires_at
      ≤ to_system_expiry sender 9001000)
    × (to_system_expiry sender 9001000
        < to_system_expiry receiver
            (received receiver 3 5 1 (to_system_ms sender 9001000) []).expires_at
          + 1000000)
unfolding to_system_ms to_system_expiry
expiry_kept_example = expiry_kept sender receiver 9001000 3 5 1 [] refl (omega arith)
