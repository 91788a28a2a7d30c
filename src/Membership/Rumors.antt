-- ===== src/Membership/Rumors.antt =====
-- What rumors do to the table: applyRumor, and the rumors of a whole message in order.
use cinder.Prelude.{
  ℕ, ◌+◌, ◌≤◌, ◌<◌, ◌^◌, ◌≡◌, ◌≢◌, ◌⊎◌, inl, inr, Bool, true, false, List, [], ◌∷◌, Option, none,
  some, Bytes, find, same_bytes, same_bytes_iff, same_bytes_refl, same_bytes→eq,
  find-insert_or_assign, Option-cases, Bool-cases, arith, if◌then◌else◌,
}
use cinder.Membership.{NodeState, alive, NodeInfo, MembershipTable, merge_rumor, apply_rumor}

-- The entry of a known node after a rumor about it.
abbrev pub merged : Bool → NodeInfo → NodeInfo → NodeInfo
merged about_self local rumor = elim (merge_rumor about_self local rumor) [
  | none ↦ local
  | some (info, changed) ↦ info
]

-- The entry of the node that a rumor names, after the rumor.
abbrev pub heard : ℕ → Bool → Option NodeInfo → NodeInfo → Option NodeInfo
heard now about_self none rumor = elim rumor.state [
  | alive ↦ some (record rumor { joined_at = now })
  | _ ↦ none
]
heard now about_self (some local) rumor = some (merged about_self local rumor)

-- A rumor changes the entry of the node that it names, and no other.
pub find-apply_rumor :
    (now : ℕ) (t : MembershipTable) (r : NodeInfo) (j : Bytes)
    → find (apply_rumor now t r).0.nodes j ≡ (
        if same_bytes r.id j
        then heard now (same_bytes r.id t.self_id) (find t.nodes r.id) r
        else find t.nodes j)
unfolding apply_rumor
find-apply_rumor now t r j = elim (Option-cases (find t.nodes r.id)) [
  | inl e ↦ ground (
    arith,
    e,
    same_bytes_iff r.id j,
    find-insert_or_assign t.nodes r.id j (record r { joined_at = now }),
  )
  | inr (local, e) ↦ elim (Option-cases (merge_rumor (same_bytes r.id t.self_id) local r)) [
    | inl m ↦ ground (arith, e, m, same_bytes_iff r.id j)
    | inr ((info, changed), m) ↦
        ground (arith, e, m, same_bytes_iff r.id j, find-insert_or_assign t.nodes r.id j info)
  ]
]

pub self_id-apply_rumor :
    (now : ℕ) (t : MembershipTable) (r : NodeInfo) → (apply_rumor now t r).0.self_id ≡ t.self_id
unfolding apply_rumor merge_rumor
self_id-apply_rumor now t r = ground arith

-- handleMessage of gossip.cpp: the rumors of one message, in order.
unfoldable pub apply_rumors : ℕ → MembershipTable → List NodeInfo → MembershipTable
apply_rumors now t [] = t
apply_rumors now t (r ∷ rs) = apply_rumors now (apply_rumor now t r).0 rs

-- The local node stands in its own table, alive.
abbrev IsAliveEntry : Option NodeInfo → Type 0
IsAliveEntry none = ⊥
IsAliveEntry (some info) = info.state ≡ alive

abbrev pub IsSelfAlive : MembershipTable → Type 0
IsSelfAlive t = IsAliveEntry (find t.nodes t.self_id)

merged-alive : (local r : NodeInfo) → local.state ≡ alive → (merged true local r).state ≡ alive
unfolding merge_rumor
merged-alive local r h = ground arith

heard-IsAliveEntry :
    (now : ℕ) (o : Option NodeInfo) (r : NodeInfo)
    → IsAliveEntry o
    → IsAliveEntry (heard now true o r)
heard-IsAliveEntry now none r h = absurd h
heard-IsAliveEntry now (some local) r h = merged-alive local r h

apply_rumor-IsSelfAlive :
    (now : ℕ) (t : MembershipTable) (r : NodeInfo)
    → IsSelfAlive t
    → IsSelfAlive (apply_rumor now t r).0
apply_rumor-IsSelfAlive now t r h =
    rw (self_id-apply_rumor now t r, find-apply_rumor now t r t.self_id)
      (elim (Bool-cases (same_bytes r.id t.self_id)) [
        | inl e ↦
            simp (same_bytes→eq r.id t.self_id e, same_bytes_refl)
              (heard-IsAliveEntry now (find t.nodes t.self_id) r h)
        | inr e ↦ rw e h
      ])

-- Whatever rumors arrive, in whatever order, the local node stays in its own table, alive.
pub apply_rumors-IsSelfAlive :
    (now : ℕ) (t : MembershipTable) (rs : List NodeInfo)
    → IsSelfAlive t
    → IsSelfAlive (apply_rumors now t rs)
unfolding apply_rumors
apply_rumors-IsSelfAlive now t [] h = h
apply_rumors-IsSelfAlive now t (r ∷ rs) h =
    apply_rumors-IsSelfAlive now (apply_rumor now t r).0 rs (apply_rumor-IsSelfAlive now t r h)

-- The incarnation that a table holds for a node; an unknown node counts as 0.
abbrev pub incarnation_of : Option NodeInfo → ℕ
incarnation_of none = 0
incarnation_of (some info) = info.incarnation

merged_monotone :
    (about_self : Bool) (local r : NodeInfo)
    → r.incarnation + 1 < 2 ^ 64
    → local.incarnation ≤ (merged about_self local r).incarnation
unfolding merge_rumor
merged_monotone about_self local r h = ground arith

heard_monotone :
    (now : ℕ) (about_self : Bool) (o : Option NodeInfo) (r : NodeInfo)
    → r.incarnation + 1 < 2 ^ 64
    → incarnation_of o ≤ incarnation_of (heard now about_self o r)
heard_monotone now about_self none r h = omega arith
heard_monotone now about_self (some local) r h = merged_monotone about_self local r h

-- A rumor whose incarnation is not the largest uint64_t lowers no incarnation in the table.
pub incarnation_monotone :
    (now : ℕ) (t : MembershipTable) (r : NodeInfo) (j : Bytes)
    → r.incarnation + 1 < 2 ^ 64
    → incarnation_of (find t.nodes j) ≤ incarnation_of (find (apply_rumor now t r).0.nodes j)
incarnation_monotone now t r j h =
    rw (find-apply_rumor now t r j) (elim (Bool-cases (same_bytes r.id j)) [
      | inl e ↦
          rw (e, ← same_bytes→eq r.id j e)
            (heard_monotone now (same_bytes r.id t.self_id) (find t.nodes r.id) r h)
      | inr e ↦ rw e (omega arith)
    ])

merge_rumor_again :
    (about_self : Bool) (local r : NodeInfo)
    → r.incarnation + 1 < 2 ^ 64
    → merge_rumor about_self (merged about_self local r) r ≡ none
unfolding merge_rumor
merge_rumor_again about_self local r h = ground arith

merge_rumor_same :
    (about_self : Bool) (now : ℕ) (r : NodeInfo)
    → merge_rumor about_self (record r { joined_at = now }) r ≡ none
unfolding merge_rumor
merge_rumor_same about_self now r = ground arith

alive-cases : (s : NodeState) → (s ≡ alive) ⊎ (s ≢ alive)
alive-cases s = ground arith

apply_rumor_stale :
    (now : ℕ) (t : MembershipTable) (r local : NodeInfo)
    → find t.nodes r.id ≡ some local
    → merge_rumor (same_bytes r.id t.self_id) local r ≡ none
    → apply_rumor now t r ≡ (t, false)
unfolding apply_rumor
apply_rumor_stale now t r local e m = ground (arith, e, m)

heard_again :
    (now : ℕ) (t : MembershipTable) (r : NodeInfo) (local : NodeInfo)
    → heard now (same_bytes r.id t.self_id) (find t.nodes r.id) r ≡ some local
    → merge_rumor (same_bytes r.id t.self_id) local r ≡ none
    → (later : ℕ) → apply_rumor later (apply_rumor now t r).0 r ≡ ((apply_rumor now t r).0, false)
heard_again now t r local e m later =
    apply_rumor_stale later (apply_rumor now t r).0 r local
      (simp (find-apply_rumor, same_bytes_refl) e) (simp self_id-apply_rumor m)

ignored_again :
    (now : ℕ) (t : MembershipTable) (r : NodeInfo)
    → find t.nodes r.id ≡ none
    → r.state ≢ alive
    → apply_rumor now t r ≡ (t, false)
unfolding apply_rumor
ignored_again now t r e s = ground (arith, e)

-- Hearing the same rumor again changes nothing and fires no callback, if its incarnation is not the
-- largest uint64_t.
pub apply_rumor_again :
    (now later : ℕ) (t : MembershipTable) (r : NodeInfo)
    → r.incarnation + 1 < 2 ^ 64
    → apply_rumor later (apply_rumor now t r).0 r ≡ ((apply_rumor now t r).0, false)
apply_rumor_again now later t r h = elim (Option-cases (find t.nodes r.id)) [
  | inl e ↦ elim (alive-cases r.state) [
    | inl a ↦
        heard_again now t r (record r { joined_at = now }) (simp e (ground (arith, a)))
          (merge_rumor_same (same_bytes r.id t.self_id) now r) later
    | inr a ↦ let same = ignored_again now t r e a in simp same (ignored_again later t r e a)
  ]
  | inr (local, e) ↦
      heard_again now t r (merged (same_bytes r.id t.self_id) local r) (simp e)
        (merge_rumor_again (same_bytes r.id t.self_id) local r h) later
]
