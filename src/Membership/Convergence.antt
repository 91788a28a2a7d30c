-- ===== src/Membership/Convergence.antt =====
-- Whether the order in which rumors arrive matters, and what a graceful leave publishes.
use cinder.Prelude.{
  ℕ, ◌≤◌, ◌≡◌, ◌≢◌, refl, false, Option, none, some, find, same_bytes, same_bytes_refl,
  find-insert_or_assign, arith, ltb, ap, ◌∙◌, sym, subst, if◌then◌else◌,
}
use mathlib.Core.Path.{ap₂}
use cinder.Membership.{
  NodeState, alive, dead, NodeInfo, MembershipTable, merge_rumor, apply_rumor, mark_dead,
}
use cinder.Membership.Rumors.{merged, find-apply_rumor, self_id-apply_rumor}

-- What a table says of a node: its state and its incarnation.
abbrev pub standing : Option NodeInfo → Option (NodeState × ℕ)
standing none = none
standing (some info) = some (info.state, info.incarnation)

abbrev pub state_of : Option NodeInfo → Option NodeState
state_of none = none
state_of (some info) = some info.state

abbrev pub told : MembershipTable → NodeInfo → MembershipTable
told t r = (apply_rumor 0 t r).0

module _ (t : MembershipTable) (r s local : NodeInfo) where
  -- Two rumors about a known node that is not the local one.
  find-told_twice :
      find t.nodes r.id ≡ some local
      → s.id ≡ r.id
      → same_bytes r.id t.self_id ≡ false
      → find (told (told t r) s).nodes r.id ≡ some (merged false (merged false local r) s)
  find-told_twice e i n = simp (find-apply_rumor, self_id-apply_rumor, i, same_bytes_refl, n, e)

-- A rumor about another node counts if its incarnation is not below the one that is known.
abbrev newer_state : NodeInfo → NodeState → ℕ → NodeState
newer_state r state incarnation = if ltb r.incarnation incarnation then state else r.state

abbrev newer_incarnation : NodeInfo → ℕ → ℕ
newer_incarnation r incarnation =
    if ltb r.incarnation incarnation then incarnation else r.incarnation

state-merged :
    (local r : NodeInfo)
    → (merged false local r).state ≡ newer_state r local.state local.incarnation
unfolding merge_rumor
state-merged local r = ground arith

incarnation-merged :
    (local r : NodeInfo)
    → (merged false local r).incarnation ≡ newer_incarnation r local.incarnation
unfolding merge_rumor
incarnation-merged local r = ground arith

module _ (local r s : NodeInfo) where
  state-merged_twice :
      (merged false (merged false local r) s).state
      ≡ newer_state s
          (newer_state r local.state local.incarnation)
          (newer_incarnation r local.incarnation)
  state-merged_twice =
      state-merged (merged false local r) s
      ∙ ap₂ (newer_state s) (state-merged local r) (incarnation-merged local r)

  incarnation-merged_twice :
      (merged false (merged false local r) s).incarnation
      ≡ newer_incarnation s (newer_incarnation r local.incarnation)
  incarnation-merged_twice =
      incarnation-merged (merged false local r) s
      ∙ ap (newer_incarnation s) (incarnation-merged local r)

newer_commute :
    (local r s : NodeInfo)
    → r.incarnation ≢ s.incarnation
    → (newer_state s
          (newer_state r local.state local.incarnation)
          (newer_incarnation r local.incarnation)
        ≡ newer_state r
            (newer_state s local.state local.incarnation)
            (newer_incarnation s local.incarnation))
      × (newer_incarnation s (newer_incarnation r local.incarnation)
          ≡ newer_incarnation r (newer_incarnation s local.incarnation))
newer_commute local r s h = ground arith

standing_eq :
    (a b : NodeInfo)
    → a.state ≡ b.state
    → a.incarnation ≡ b.incarnation
    → standing (some a) ≡ standing (some b)
standing_eq a b p q = λ i. some (p i, q i)

merged_commute :
    (local r s : NodeInfo)
    → r.incarnation ≢ s.incarnation
    → standing (some (merged false (merged false local r) s))
      ≡ standing (some (merged false (merged false local s) r))
merged_commute local r s h =
    let (same_state, same_incarnation) = newer_commute local r s h in
    standing_eq (merged false (merged false local r) s) (merged false (merged false local s) r)
      (state-merged_twice local r s ∙ same_state ∙ sym (state-merged_twice local s r))
      (incarnation-merged_twice local r s
        ∙ same_incarnation
        ∙ sym (incarnation-merged_twice local s r))

-- Two rumors about one node that the table already lists and that is not the local one, with different
-- incarnations, leave the same state and incarnation in whichever order they arrive.
pub rumors_commute :
    (t : MembershipTable) (r s local : NodeInfo)
    → find t.nodes r.id ≡ some local
    → s.id ≡ r.id
    → same_bytes r.id t.self_id ≡ false
    → r.incarnation ≢ s.incarnation
    → standing (find (told (told t r) s).nodes r.id)
      ≡ standing (find (told (told t s) r).nodes r.id)
rumors_commute t r s local e i n h =
    ap standing (find-told_twice t r s local e i n)
    ∙ merged_commute local r s h
    ∙ ap standing (sym (other_order))
  where
    other_order : find (told (told t s) r).nodes r.id ≡ some (merged false (merged false local s) r)
    other_order = simp (find-apply_rumor, self_id-apply_rumor, i, same_bytes_refl, n, e)

-- markDead keeps the incarnation, so the entry that a leaving node publishes carries the incarnation
-- of its earlier Alive entry.
pub find-mark_dead :
    (t : MembershipTable) (own : NodeInfo)
    → find t.nodes t.self_id ≡ some own
    → find (mark_dead t t.self_id).0.nodes t.self_id ≡ some (record own { state = dead })
unfolding mark_dead
find-mark_dead t own e = ground (
  arith,
  e,
  find-insert_or_assign t.nodes t.self_id t.self_id (record own { state = dead }),
  same_bytes_refl t.self_id,
)

last_wins :
    (local r s : NodeInfo)
    → local.incarnation ≤ r.incarnation
    → r.incarnation ≡ s.incarnation
    → (merged false (merged false local r) s).state ≡ s.state
last_wins local r s h e = state-merged_twice local r s ∙ ground arith

-- A leave does not last: the node's earlier Alive entry, which other peers still pass on, has the
-- incarnation of the Dead entry that it broadcasts. A peer that lists the node with no higher
-- incarnation and hears the stale entry after the leave holds the node for alive again.
pub leave_is_undone :
    (leaver peer : MembershipTable) (own left local : NodeInfo)
    → find leaver.nodes leaver.self_id ≡ some own
    → own.state ≡ alive
    → find (mark_dead leaver leaver.self_id).0.nodes leaver.self_id ≡ some left
    → find peer.nodes own.id ≡ some local
    → same_bytes own.id peer.self_id ≡ false
    → local.incarnation ≤ own.incarnation
    → state_of (find (told (told peer left) own).nodes own.id) ≡ some alive
leave_is_undone leaver peer own left local e a l p n h =
    let published : record own { state = dead } ≡ left = cc (find-mark_dead leaver own e, l) in
    subst (λ x. state_of (find (told (told peer x) own).nodes own.id) ≡ some alive) published
      (ap state_of (find-told_twice peer (record own { state = dead }) own local p refl n)
        ∙ ap some (last_wins local (record own { state = dead }) own h refl ∙ a))
