-- ===== src/Membership.antt =====
-- src/cluster/membership.cpp: the table of cluster nodes. A method that may change the table
-- returns the new table and whether the change callbacks fire; the clock is an argument `now`.

pub mod Rumors
pub mod Convergence
pub mod Health
use Prim.Native.Nat.{max}
use cinder.Prelude.{
  ℕ, ◌+◌, ◌/◌, ◌%◌, ◌^◌, Bool, true, false, not, ◌&&◌, ◌||◌, List, [], ◌∷◌, Option, none, some,
  Bytes, Map, find, insert_or_assign, same_bytes, length, ltb, leb, ◌==◌, if◌then◌else◌,
}

pub data NodeState : Type 0 where
  alive suspect dead : NodeState

abbrev pub is_alive : NodeState → Bool
is_alive alive = true
is_alive _ = false

abbrev pub is_suspect : NodeState → Bool
is_suspect suspect = true
is_suspect _ = false

abbrev pub is_dead : NodeState → Bool
is_dead dead = true
is_dead _ = false

-- operator== of the enum.
abbrev pub same_state : NodeState → NodeState → Bool
same_state alive s = is_alive s
same_state suspect s = is_suspect s
same_state dead s = is_dead s

pub record NodeInfo : Type 0 where
  pub id : Bytes
  pub host : Bytes
  pub port : ℕ
  pub state : NodeState
  pub incarnation : ℕ
  pub joined_at : ℕ

pub record MembershipTable : Type 0 where
  pub self_id : Bytes
  pub nodes : Map NodeInfo

-- NodeConfig of ClusterConfig.
pub record NodeConfig : Type 0 where
  pub id : Bytes
  pub host : Bytes
  pub port : ℕ

-- The table that a write through the iterator of `id` leaves.
abbrev pub write : MembershipTable → Bytes → NodeInfo → MembershipTable
write t id info = record t { nodes = insert_or_assign t.nodes id info }

unfoldable pub new_table : Bytes → MembershipTable
new_table self = record {
  self_id = self;
  nodes =
      insert_or_assign [] self
        (record { id = self; host = []; port = 0; state = alive; incarnation = 0; joined_at = 0 });
}

unfoldable pub set_self_address : MembershipTable → Bytes → ℕ → MembershipTable
set_self_address t host port = elim (find t.nodes t.self_id) [
  | none ↦ t
  | some info ↦ write t t.self_id (record info { host = host; port = port })
]

unfoldable pub seed : ℕ → MembershipTable → List NodeConfig → MembershipTable
seed now t [] = t
seed now t (peer ∷ peers) =
    seed now
      (if same_bytes peer.id t.self_id
        then t
        else write t peer.id (record {
          id = peer.id;
          host = peer.host;
          port = peer.port;
          state = alive;
          incarnation = 0;
          joined_at = now;
        }))
      peers

-- refuteSelfRumor on the entry of the local node; the incarnation is a uint64_t and wraps.
unfoldable pub refute_self_rumor : NodeInfo → NodeInfo → NodeInfo × Bool
refute_self_rumor self rumor =
    let new_incarnation = (max self.incarnation rumor.incarnation + 1) % 2 ^ 64 in
    let bumped = leb self.incarnation rumor.incarnation in
    let revived = not (is_alive self.state) in
    (
      record self {
        incarnation = if bumped then new_incarnation else self.incarnation;
        state = if revived then alive else self.state;
      },
      bumped || revived,
    )

abbrev is_empty : Bytes → Bool
is_empty [] = true
is_empty (b ∷ bs) = false

-- The branch of applyRumor that takes the rumor over.
unfoldable pub accept_rumor : NodeInfo → NodeInfo → NodeInfo × Bool
accept_rumor local rumor = (
  record local {
    state = rumor.state;
    incarnation = rumor.incarnation;
    host = if is_empty local.host && not (is_empty rumor.host) then rumor.host else local.host;
    port = if local.port == 0 && not (rumor.port == 0) then rumor.port else local.port;
  },
  not (same_state local.state rumor.state) || not (local.incarnation == rumor.incarnation),
)

-- applyRumor on a known node: `none` where it returns at once, otherwise the node's new entry and
-- whether it changed.
unfoldable pub merge_rumor : Bool → NodeInfo → NodeInfo → Option (NodeInfo × Bool)
unfolding refute_self_rumor accept_rumor
merge_rumor about_self local rumor =
    if ltb rumor.incarnation local.incarnation
    then none
    else if (rumor.incarnation == local.incarnation) && same_state rumor.state local.state
    then none
    else if about_self && not (is_alive rumor.state)
    then some (refute_self_rumor local rumor)
    else some (accept_rumor local rumor)

unfoldable pub apply_rumor : ℕ → MembershipTable → NodeInfo → MembershipTable × Bool
unfolding merge_rumor
apply_rumor now t rumor = elim (find t.nodes rumor.id) [
  | none ↦
      if not (is_alive rumor.state)
      then (t, false)
      else (write t rumor.id (record rumor { joined_at = now }), true)
  | some local ↦ elim (merge_rumor (same_bytes rumor.id t.self_id) local rumor) [
    | none ↦ (t, false)
    | some (merged, changed) ↦ (write t rumor.id merged, changed)
  ]
]

unfoldable pub mark_suspect : MembershipTable → Bytes → MembershipTable × Bool
mark_suspect t id = elim (find t.nodes id) [
  | none ↦ (t, false)
  | some info ↦
      if is_dead info.state
      then (t, false)
      else if is_suspect info.state
      then (t, false)
      else (write t id (record info { state = suspect }), true)
]

unfoldable pub mark_dead : MembershipTable → Bytes → MembershipTable × Bool
mark_dead t id = elim (find t.nodes id) [
  | none ↦ (t, false)
  | some info ↦
      if is_dead info.state then (t, false) else (write t id (record info { state = dead }), true)
]

unfoldable pub mark_alive : ℕ → MembershipTable → Bytes → ℕ → MembershipTable × Bool
mark_alive now t id incarnation = elim (find t.nodes id) [
  | none ↦ (t, false)
  | some info ↦ if is_alive info.state && leb incarnation info.incarnation then (t, false) else (
    write t id (record info {
      joined_at = if not (is_alive info.state) then now else info.joined_at;
      state = alive;
      incarnation = incarnation;
    }),
    true,
  )
]

unfoldable pub get : MembershipTable → Bytes → Option NodeInfo
get t id = find t.nodes id

unfoldable pub alive_nodes : Map NodeInfo → ℕ
alive_nodes [] = 0
alive_nodes ((id, info) ∷ m) = (if is_alive info.state then 1 else 0) + alive_nodes m

unfoldable pub alive_count : MembershipTable → ℕ
unfolding alive_nodes
alive_count t = alive_nodes t.nodes

unfoldable pub visible_alive_count : MembershipTable → ℕ
unfolding alive_nodes
visible_alive_count t = alive_nodes t.nodes

unfoldable pub expected_cluster_size : MembershipTable → ℕ
expected_cluster_size t = length t.nodes

unfoldable pub is_degraded : MembershipTable → Bool
unfolding alive_nodes
is_degraded t =
    let total = length t.nodes in
    if total == 0 then true else ltb (alive_nodes t.nodes) (total / 2 + 1)

unfoldable pub snapshot : Map NodeInfo → List NodeInfo
snapshot [] = []
snapshot ((id, info) ∷ m) = info ∷ snapshot m

-- `quarantine` is a count of the clock's ticks; a negative count is the same as 0. The
-- difference is signed in the source, so a joined_at ahead of `now` is within the window.
unfoldable pub is_quarantined : MembershipTable → Bytes → ℕ → ℕ → Bool
is_quarantined t id now quarantine = if quarantine == 0 then false else elim (find t.nodes id) [
  | none ↦ false
  | some info ↦ if not (is_alive info.state) then false else ltb now (info.joined_at + quarantine)
]
