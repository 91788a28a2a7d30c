-- ===== src/Tests/WriteQuorum.antt =====
-- A write to two replicas, of which one fails and reports twice.
use cinder.Prelude.{◌≡◌, arith, true, false, [], ◌∷◌}
use cinder.Status.{ok}
use cinder.WriteQuorum.{fan_out_write}
use cinder.WriteQuorum.Decision.{write_decision}

write_decision_example :
    ((fan_out_write 2 ((1, false) ∷ (1, true) ∷ (0, true) ∷ [])).decisions ≡ ok tt ∷ [])
    × ((fan_out_write 2 ((1, false) ∷ (1, true) ∷ (0, true) ∷ [])).hints ≡ 1 ∷ [])
write_decision_example =
    write_decision 2 ((1, false) ∷ (1, true) ∷ (0, true) ∷ []) (omega arith) (omega arith)
