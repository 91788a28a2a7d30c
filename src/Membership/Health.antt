-- ===== src/Membership/Health.antt =====
-- The majority test and the quarantine window.
use cinder.Prelude.{
  ℕ, ◌+◌, ◌*◌, ◌≤◌, ◌≡◌, false, [], ◌∷◌, some, Bytes, Map, find, same_bytes, same_bytes_refl,
  find-insert_or_assign, length, ltb, not, ◌&&◌, arith,
}
use cinder.Membership.{
  alive, NodeInfo, MembershipTable, is_alive, alive_nodes, alive_count, visible_alive_count,
  expected_cluster_size, is_degraded, is_quarantined, mark_alive, apply_rumor, merge_rumor,
}
use cinder.Membership.Rumors.{find-apply_rumor, merged}

alive_nodes-le : (m : Map NodeInfo) → alive_nodes m ≤ length m
unfolding alive_nodes
alive_nodes-le [] = omega arith
alive_nodes-le ((id, info) ∷ m) = ground (arith, alive_nodes-le m)

-- The table is degraded unless strictly more than half of its nodes are alive; both counters agree
-- with that number, which is at most the size of the cluster.
pub is_degraded_majority :
    (t : MembershipTable)
    → (is_degraded t ≡ not (ltb (expected_cluster_size t) (2 * visible_alive_count t)))
      × (alive_count t ≡ visible_alive_count t)
      × (alive_count t ≤ expected_cluster_size t)
unfolding is_degraded visible_alive_count alive_count expected_cluster_size
is_degraded_majority t = ground (arith, alive_nodes-le t.nodes)

-- A node that markAlive brings back from Suspect or Dead is in quarantine until `quarantine` ticks
-- after that moment, and no longer.
pub recovered_quarantine :
    (t : MembershipTable) (id : Bytes) (info : NodeInfo) (now incarnation later quarantine : ℕ)
    → find t.nodes id ≡ some info
    → is_alive info.state ≡ false
    → is_quarantined (mark_alive now t id incarnation).0 id later quarantine
      ≡ ltb 0 quarantine && ltb later (now + quarantine)
unfolding is_quarantined mark_alive
recovered_quarantine t id info now incarnation later quarantine e d = ground (
  arith,
  e,
  same_bytes_refl id,
  find-insert_or_assign t.nodes id id
      (record info { joined_at = now; state = alive; incarnation = incarnation }),
)

-- A rumor of no lower incarnation that brings another node back from Suspect or Dead does not start a new quarantine window: the
-- node stays out of quarantine once `quarantine` ticks have passed since it first joined.
pub rumored_recovery_skips_quarantine :
    (t : MembershipTable) (r info : NodeInfo) (now later quarantine : ℕ)
    → find t.nodes r.id ≡ some info
    → same_bytes r.id t.self_id ≡ false
    → is_alive info.state ≡ false
    → r.state ≡ alive
    → info.incarnation ≤ r.incarnation
    → info.joined_at + quarantine ≤ later
    → (find (apply_rumor now t r).0.nodes r.id ≡ some (merged false info r))
      × ((merged false info r).state ≡ alive)
      × (is_quarantined (apply_rumor now t r).0 r.id later quarantine ≡ false)
unfolding is_quarantined merge_rumor
rumored_recovery_skips_quarantine t r info now later quarantine e n d a i w =
    let found : find (apply_rumor now t r).0.nodes r.id ≡ some (merged false info r) =
      simp (find-apply_rumor, same_bytes_refl, n, e) in
    (found, ground arith, ground (arith, found))
