-- ===== src/Tests/Membership.antt =====
-- The membership table of node `a` in a cluster of two.
use cinder.Prelude.{ℕ, ◌≤◌, ◌≡◌, refl, some, [], ◌∷◌, Bytes, find, insert_or_assign, arith}
use cinder.Membership.{
  NodeInfo, NodeState, alive, suspect, dead, MembershipTable, new_table, seed, apply_rumor,
  mark_dead,
}
use cinder.Membership.Rumors.{
  apply_rumors, IsSelfAlive, apply_rumors-IsSelfAlive, incarnation_of, incarnation_monotone,
}
use cinder.Membership.Convergence.{told, standing, state_of, rumors_commute, leave_is_undone}

abbrev a : Bytes
a = 97 ∷ []

abbrev b : Bytes
b = 98 ∷ []

abbrev info : Bytes → NodeState → ℕ → NodeInfo
info id state incarnation = record {
  id = id;
  host = [];
  port = 0;
  state = state;
  incarnation = incarnation;
  joined_at = 0;
}

-- What `a` holds, with `b` in the given state and incarnation.
abbrev view : NodeState → ℕ → MembershipTable
view state incarnation = record {
  self_id = a;
  nodes = (a, info a alive 0) ∷ (b, info b state incarnation) ∷ [];
}

seeded :
    seed 0
      (new_table a)
      (record { id = b; host = []; port = 0 } ∷ record { id = a; host = []; port = 0 } ∷ [])
    ≡ view alive 0
unfolding seed new_table insert_or_assign
seeded = refl

-- A false rumor of its death makes the node raise its incarnation.
refuted : find (apply_rumor 5 (view alive 0) (info a dead 3)).0.nodes a ≡ some (info a alive 4)
unfolding apply_rumor find insert_or_assign
refuted = refl

apply_rumors-IsSelfAlive_example :
    IsSelfAlive (apply_rumors 5 (view alive 0) (info a dead 3 ∷ info b suspect 1 ∷ []))
unfolding find
apply_rumors-IsSelfAlive_example =
    apply_rumors-IsSelfAlive 5 (view alive 0) (info a dead 3 ∷ info b suspect 1 ∷ []) refl

incarnation_monotone_example :
    incarnation_of (find (view alive 2).nodes b)
    ≤ incarnation_of (find (apply_rumor 5 (view alive 2) (info b suspect 3)).0.nodes b)
incarnation_monotone_example =
    incarnation_monotone 5 (view alive 2) (info b suspect 3) b (omega arith)

rumors_commute_example :
    standing (find (told (told (view alive 0) (info b suspect 1)) (info b alive 2)).nodes b)
    ≡ standing (find (told (told (view alive 0) (info b alive 2)) (info b suspect 1)).nodes b)
unfolding find
rumors_commute_example =
    rumors_commute (view alive 0) (info b suspect 1) (info b alive 2) (info b alive 0) refl refl
      refl (λ e. omega (arith, e))

-- The leaver is `a`; the peer is `b`, which holds `a` for alive.
abbrev peer_view : MembershipTable
peer_view = record { self_id = b; nodes = (a, info a alive 0) ∷ (b, info b alive 0) ∷ [] }

leave_is_undone_example :
    state_of (find (told (told peer_view (info a dead 0)) (info a alive 0)).nodes a) ≡ some alive
unfolding find insert_or_assign mark_dead
leave_is_undone_example =
    leave_is_undone (view alive 0) peer_view (info a alive 0) (info a dead 0) (info a alive 0) refl
      refl refl refl refl (omega arith)
