-- ===== src/Protocol/Opcodes.antt =====
-- enum class Opcode, its underlying values, and the range check of decode.
use cinder.Prelude.{ℕ, ◌≤◌, ◌≡◌, refl, Option, none, some, ltb, ◌||◌, ◌==◌, if◌then◌else◌, arith}

pub data Opcode : Type 0 where
  get set del ping gossip replicate hint get_versioned : Opcode
  anti_entropy_digest anti_entropy_sync admin_info admin_cluster : Opcode
  admin_ring admin_compact admin_config_reload admin_shutdown : Opcode

unfoldable pub opcode_code : Opcode → ℕ
opcode_code get = 1
opcode_code set = 2
opcode_code del = 3
opcode_code ping = 4
opcode_code gossip = 5
opcode_code replicate = 6
opcode_code hint = 7
opcode_code get_versioned = 8
opcode_code anti_entropy_digest = 9
opcode_code anti_entropy_sync = 10
opcode_code admin_info = 11
opcode_code admin_cluster = 12
opcode_code admin_ring = 13
opcode_code admin_compact = 14
opcode_code admin_config_reload = 15
opcode_code admin_shutdown = 16

-- static_cast<Opcode>: the enumerator whose value is `n`; the last one where the value is in none
-- of the lines above it.
unfoldable pub to_opcode : ℕ → Opcode
to_opcode n =
    if n == 1
    then get
    else if n == 2
    then set
    else if n == 3
    then del
    else if n == 4
    then ping
    else if n == 5
    then gossip
    else if n == 6
    then replicate
    else if n == 7
    then hint
    else if n == 8
    then get_versioned
    else if n == 9
    then anti_entropy_digest
    else if n == 10
    then anti_entropy_sync
    else if n == 11
    then admin_info
    else if n == 12
    then admin_cluster
    else if n == 13
    then admin_ring
    else if n == 14
    then admin_compact
    else if n == 15
    then admin_config_reload
    else admin_shutdown

-- decode: raw_opcode < Get || raw_opcode > AdminShutdown is refused, anything else is cast.
unfoldable pub check_opcode : ℕ → Option Opcode
unfolding to_opcode opcode_code
check_opcode raw =
    if ltb raw (opcode_code get) || ltb (opcode_code admin_shutdown) raw
    then none
    else some (to_opcode raw)

check_opcode-opcode_code : (op : Opcode) → check_opcode (opcode_code op) ≡ some op
unfolding check_opcode
check_opcode-opcode_code get = refl
check_opcode-opcode_code _ = refl

opcode_code-to_opcode : (raw : ℕ) → 1 ≤ raw → raw ≤ 16 → opcode_code (to_opcode raw) ≡ raw
unfolding to_opcode opcode_code
opcode_code-to_opcode raw h k = ground arith

check_opcode_sound : (raw : ℕ) (op : Opcode) → check_opcode raw ≡ some op → opcode_code op ≡ raw
unfolding check_opcode
check_opcode_sound raw op h = ground (arith, opcode_code-to_opcode raw)

-- The range check accepts each enumerator's value and gives that enumerator back, and accepts
-- nothing else: what it answers has the value that was checked.
pub opcode_range :
    ((op : Opcode) → check_opcode (opcode_code op) ≡ some op)
    × ((raw : ℕ) (op : Opcode) → check_opcode raw ≡ some op → opcode_code op ≡ raw)
opcode_range = (check_opcode-opcode_code, check_opcode_sound)
